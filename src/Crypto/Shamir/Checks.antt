-- ===== src/Crypto/Shamir/Checks.antt =====
-- crypto/internal/shamir/shamir.go: the shares that Combine takes.
use mathlib.Core.Path.{subst}
use wallet_sdk.Common.{
  ℕ, zero, suc, ◌-◌, ◌<◌, ◌≤◌, ◌≡◌, ◌≢◌, refl, ap, sym, ◌∙◌, arith, List, [], ◌∷◌, map, length, All,
  Bytes, Bool, true, false, not, ◌||◌, ◌==◌, ltb, get_or, ok, guard, guard-eq-ok, >>=-eq-ok, ok_inj,
  ==_iff,
}
use wallet_sdk.Crypto.Field.Interpolate.{Distinct, Apart}
use wallet_sdk.Crypto.Shamir.{
  seen_before, check_shares, combine_from, combine, lengths_differ, bad_coordinate, share_count,
  short_shares, max_shares,
}

-- The last byte of a share of a size.
abbrev pub coordinate : ℕ → Bytes → ℕ
coordinate size share = get_or share (size - 1) 0

unseen-ne :
    (x y : ℕ) (seen : Bytes)
    → seen_before x (y ∷ seen) ≡ false
    → (y ≢ x) × (seen_before x seen ≡ false)
unfolding seen_before
unseen-ne x y seen h = (λ e. absurd (ground arith), ground arith)

unseen-All :
    (y : ℕ) (seen xs : Bytes)
    → All (λ x. seen_before x (y ∷ seen) ≡ false) xs
    → Apart y xs × All (λ x. seen_before x seen ≡ false) xs
unseen-All y seen [] h = (tt, tt)
unseen-All y seen (x ∷ xs) (h, hs) =
    let (apart, unseen) = unseen-ne x y seen h in
    let (all_apart, all_unseen) = unseen-All y seen xs hs in
    ((apart, all_apart), (unseen, all_unseen))

neither : (a b : Bool) → not (a || b) ≡ true → (a ≡ false) × (b ≡ false)
neither a b h = ground arith

-- What the first loop of Combine has found when it returns.
abbrev Passed : ℕ → Bytes → List Bytes → Bytes → Type 0
Passed size seen shares found =
    (found ≡ map (coordinate size) shares)
    × All (λ share. (length share ≡ size) × (coordinate size share ≢ 0)) shares
    × Distinct (map (coordinate size) shares)
    × All (λ x. seen_before x seen ≡ false) (map (coordinate size) shares)

check_shares-Passed :
    (size : ℕ) (seen : Bytes) (shares : List Bytes) {found : Bytes}
    → check_shares size seen shares ≡ ok found
    → Passed size seen shares found
unfolding check_shares
check_shares-Passed size seen [] e = (ok_inj (sym e), tt, tt, tt)
check_shares-Passed size seen (share ∷ shares) e =
    let (u, g1, e1) = >>=-eq-ok (guard (length share == size) lengths_differ) _ e in
    let x = coordinate size share in
    let (v, g2, e2) = >>=-eq-ok (guard (not (x == 0 || seen_before x seen)) bad_coordinate) _ e1 in
    let (rest, e3, e4) = >>=-eq-ok (check_shares size (x ∷ seen) shares) _ e2 in
    let sized = (==_iff _ _).0 (guard-eq-ok _ lengths_differ g1) in
    let (nonzero, unseen) =
      neither (x == 0) (seen_before x seen) (guard-eq-ok _ bad_coordinate g2) in
    let (same, all, distinct, later) = check_shares-Passed size (x ∷ seen) shares e3 in
    let (apart, earlier) = unseen-All x seen (map (coordinate size) shares) later in
    (
      sym (ok_inj e4) ∙ ap (λ (t : Bytes). x ∷ t) same,
      ((sized, λ zero_x. absurd (ground arith)), all),
      (apart, distinct),
      (unseen, earlier),
    )

length-combine_from :
    (offset n : ℕ) (coordinates : Bytes) (shares : List Bytes)
    → length (combine_from offset n coordinates shares) ≡ n
unfolding combine_from
length-combine_from offset zero coordinates shares = refl
length-combine_from offset (suc n) coordinates shares =
    ap suc (length-combine_from (suc offset) n coordinates shares)

-- A Combine that returns a secret was given from 2 to 255 shares, which are all of the size of the
-- first one, 2 or more, and end in different bytes other than 0; the secret is one byte shorter.
pub combine_checks :
    (shares : List Bytes) {secret : Bytes}
    → combine shares ≡ ok secret
    → (2 ≤ length shares)
      × (length shares < 256)
      × (0 < length secret)
      × All
          (λ share.
            (length share ≡ suc (length secret)) × (coordinate (suc (length secret)) share ≢ 0))
          shares
      × Distinct (map (coordinate (suc (length secret))) shares)
unfolding combine
combine_checks shares {secret} e =
    let n = length shares in
    let size = length (get_or shares 0 []) in
    let (u, g1, e1) = >>=-eq-ok (guard (not (ltb n 2 || ltb max_shares n)) share_count) _ e in
    let (v, g2, e2) = >>=-eq-ok (guard (not (ltb size 2)) short_shares) _ e1 in
    let (found, e3, e4) = >>=-eq-ok (check_shares size [] shares) _ e2 in
    let count = guard-eq-ok _ share_count g1 in
    let long : 2 ≤ size = ground (arith, guard-eq-ok _ short_shares g2) in
    let (same, all, distinct, none_before) = check_shares-Passed size [] shares e3 in
    let whole : size ≡ suc (length secret) =
      omega (arith, length-combine_from 0 (size - 1) found shares, ap length (ok_inj e4), long) in
    (
      ground arith,
      ground arith,
      omega arith,
      subst (λ (k : ℕ). All (λ share. (length share ≡ k) × (coordinate k share ≢ 0)) shares) whole
          all,
      subst (λ (k : ℕ). Distinct (map (coordinate k) shares)) whole distinct,
    )

-- ===== src/Crypto/Shamir/Recover.antt =====
-- crypto/internal/shamir/shamir.go: what Combine makes of shares that one Split made.
use mathlib.Core.Path.{subst}
use wallet_sdk.Common.{
  ℕ, suc, ◌-◌, ◌<◌, ◌≤◌, ◌≡◌, refl, ap, sym, ◌∙◌, arith, List, [], ◌∷◌, ◌++◌, map, length, All,
  Bytes, true, false, get_or, length-append, length-map, append_assoc, ok, ◌==◌, ==_iff,
}
use wallet_sdk.Crypto.Field.Interpolate.{Distinct, Apart}
use wallet_sdk.Crypto.Shamir.{
  evaluate, interpolate_at_zero, seen_before, check_shares, combine_from,
}
use wallet_sdk.Crypto.Shamir.ByteField.{
  val, to_bytes, Distinct-val, evaluate-eval, interpolate_at_zero-eval, Byte,
}
use wallet_sdk.Crypto.Shamir.Shares.{AllBytes, Coefficients, values, get_or-append}

map-val_cong :
    (f : ℕ → ℕ) (g : Byte → ℕ) (ys : List Byte)
    → ((y : Byte) → f (val y) ≡ g y)
    → map f (map val ys) ≡ map g ys
map-val_cong f g [] same = refl
map-val_cong f g (y ∷ ys) same = λ i. same y i ∷ map-val_cong f g ys same i

-- The values of one polynomial at enough distinct points give its constant coefficient.
pub interpolate_at_zero-evaluate :
    (c : ℕ) (cs xs : Bytes)
    → AllBytes (c ∷ cs)
    → AllBytes xs
    → Distinct xs
    → suc (length cs) ≤ length xs
    → interpolate_at_zero xs (map (evaluate (c ∷ cs)) xs) ≡ c
interpolate_at_zero-evaluate c cs xs (hc, hcs) hxs distinct enough =
    let (fs, ef) = to_bytes cs hcs in
    let (ys, ey) = to_bytes xs hxs in
    let b : Byte = (c, hc) in
    let sizes : suc (length fs) ≤ length ys =
      omega (arith, length-map fs val, length-map ys val, ap length ef, ap length ey, enough) in
    let apart : Distinct ys = Distinct-val ys (subst Distinct (sym ey) distinct) in
    let points = map-val_cong _ _ ys (λ y. evaluate-eval b fs y) in
    subst (λ (zs : Bytes). interpolate_at_zero zs (map (evaluate (c ∷ cs)) zs) ≡ c) ey
      (subst
        (λ (ds : Bytes).
          interpolate_at_zero (map val ys) (map (evaluate (c ∷ ds)) (map val ys)) ≡ c)
        ef
        (ap (interpolate_at_zero (map val ys)) points
          ∙ interpolate_at_zero-eval b fs ys sizes apart))

get_or-map :
    (f : ℕ → Bytes) (offset : ℕ) (h : ℕ → ℕ) (xs : Bytes)
    → ((x : ℕ) → get_or (f x) offset 0 ≡ h x)
    → map (λ share. get_or share offset 0) (map f xs) ≡ map h xs
get_or-map f offset h [] same = refl
get_or-map f offset h (x ∷ xs) same = λ i. same x i ∷ get_or-map f offset h xs same i

-- From `offset` on, Combine's loop recovers the secret's bytes.
pub combine_from-values :
    (threshold : ℕ) (secret : Bytes) (ts : List Bytes) (xs : Bytes) (done : ℕ → Bytes) (offset : ℕ)
    → 0 < threshold
    → threshold ≤ length xs
    → AllBytes secret
    → Coefficients threshold secret ts
    → AllBytes xs
    → Distinct xs
    → ((x : ℕ) → length (done x) ≡ offset)
    → combine_from offset
        (length secret)
        xs
        (map (λ x. done x ++ (values secret ts x ++ x ∷ [])) xs)
      ≡ secret
unfolding combine_from
combine_from-values threshold [] ts xs done offset pos enough hs fit hx distinct size = refl
combine_from-values threshold (v ∷ vs) [] xs done offset pos enough hs fit hx distinct size =
    absurd fit
combine_from-values threshold (v ∷ vs) (t ∷ ts) xs done offset pos enough (hv, hs) (count, ht, fit)
      hx distinct size =
    let after = λ (x : ℕ). values vs ts x ++ x ∷ [] in
    let points =
      get_or-map (λ x. done x ++ evaluate (v ∷ t) x ∷ after x) offset (evaluate (v ∷ t)) xs
        (λ x.
          ap (λ (k : ℕ). get_or (done x ++ evaluate (v ∷ t) x ∷ after x) k 0) (sym (size x))
          ∙ get_or-append (done x) (evaluate (v ∷ t) x) 0 (after x)) in
    let first =
      ap (interpolate_at_zero xs) points
      ∙ interpolate_at_zero-evaluate v t xs (hv, ht) hx distinct (omega arith) in
    let next = λ (x : ℕ). done x ++ evaluate (v ∷ t) x ∷ [] in
    let longer : (x : ℕ) → length (next x) ≡ suc offset =
      λ x. omega (arith, size x, length-append (done x) (evaluate (v ∷ t) x ∷ [])) in
    let regrouped : (λ (x : ℕ). done x ++ (evaluate (v ∷ t) x ∷ after x))
        ≡ (λ x. next x ++ after x) =
      λ i x. sym (append_assoc (done x) (evaluate (v ∷ t) x ∷ []) (after x)) i in
    let rest =
      ap (λ (f : ℕ → Bytes). combine_from (suc offset) (length vs) xs (map f xs)) regrouped
      ∙ combine_from-values threshold vs ts xs next (suc offset) pos enough hs fit hx distinct
          longer in
    λ i. first i ∷ rest i

-- None of a list is among those seen before.
abbrev Unseen : Bytes → Bytes → Type 0
Unseen seen xs = All (λ x. seen_before x seen ≡ false) xs

Unseen-cons : (y : ℕ) (seen xs : Bytes) → Apart y xs → Unseen seen xs → Unseen (y ∷ seen) xs
unfolding seen_before
Unseen-cons y seen [] h k = tt
Unseen-cons y seen (x ∷ xs) (h, hs) (k, ks) =
    let other : (x == y) ≡ false = ground arith in (rw other k, Unseen-cons y seen xs hs ks)

-- The first loop of Combine finds nothing wrong with shares of distinct coordinates.
check_shares-map :
    (share : ℕ → Bytes) (size : ℕ) (seen xs : Bytes)
    → ((x : ℕ) → length (share x) ≡ size)
    → ((x : ℕ) → get_or (share x) (size - 1) 0 ≡ x)
    → All (λ x. 0 < x) xs
    → Distinct xs
    → Unseen seen xs
    → check_shares size seen (map share xs) ≡ ok xs
unfolding check_shares
check_shares-map share size seen [] hl hc pos distinct unseen = refl
check_shares-map share size seen (x ∷ xs) hl hc (p, pos) (apart, distinct) (u, unseen) =
    let sized : (length (share x) == size) ≡ true = (==_iff _ _).1 (hl x) in
    let nonzero : (x == 0) ≡ false = ground arith in
    let rest =
      check_shares-map share size (x ∷ seen) xs hl hc pos distinct
        (Unseen-cons x seen xs apart unseen) in
    rw (sized, hc x, nonzero, u, rest) refl

Unseen-nil : (xs : Bytes) → Unseen [] xs
unfolding seen_before
Unseen-nil [] = tt
Unseen-nil (x ∷ xs) = (refl, Unseen-nil xs)

pub check_shares-ok :
    (share : ℕ → Bytes) (n : ℕ) (xs : Bytes)
    → ((x : ℕ) → length (share x) ≡ suc n)
    → ((x : ℕ) → get_or (share x) n 0 ≡ x)
    → All (λ x. 0 < x) xs
    → Distinct xs
    → check_shares (suc n) [] (map share xs) ≡ ok xs
check_shares-ok share n xs size last positive distinct =
    let before : suc n - 1 ≡ n = omega arith in
    check_shares-map share (suc n) [] xs size
      (λ x. ap (λ (k : ℕ). get_or (share x) k 0) before ∙ last x) positive distinct (Unseen-nil xs)

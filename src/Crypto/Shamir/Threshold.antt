-- ===== src/Crypto/Shamir/Threshold.antt =====
-- crypto/internal/shamir/shamir.go: Combine undoes Split.
use mathlib.Core.List.{Memᴰ}
use mathlib.Core.List.Memᴰ as Memᴰ
use mathlib.Core.Path.{subst}
use wallet_sdk.Common.{
  ℕ, suc, ◌-◌, ◌<◌, ◌≤◌, ◌^◌, ◌≡◌, refl, ap, ◌∙◌, arith, List, [], ◌∷◌, map, length, All, Bytes,
  true, not, ◌||◌, get_or, length-map, ok, ltb,
}
use wallet_sdk.Crypto.Field.Interpolate.{Distinct, Apart}
use wallet_sdk.Crypto.Shamir.{split, combine, max_shares}
use wallet_sdk.Crypto.Shamir.Shares.{AllBytes, Coefficients}
use wallet_sdk.Crypto.Shamir.Coordinates.{Coordinate}
use wallet_sdk.Crypto.Shamir.Made.{split-Made, share_of, share_of_size, share_of_last}
use wallet_sdk.Crypto.Shamir.Recover.{combine_from-values, check_shares-ok}

Memᴰ-map :
    (f : ℕ → Bytes) (P : ℕ → Type 0) (xs : Bytes) {c : Bytes}
    → All P xs
    → Memᴰ c (map f xs)
    → (y : ℕ) × P y × (c ≡ f y)
Memᴰ-map f P [] h m = absurd (Memᴰ.not-nil m)
Memᴰ-map f P (x ∷ xs) (p, ps) (Memᴰ.head e) = (x, p, e)
Memᴰ-map f P (x ∷ xs) (p, ps) (Memᴰ.tail m) = Memᴰ-map f P xs ps m

-- Shares chosen from those made are those of some of the coordinates.
chosen-map :
    (f : ℕ → Bytes) (P : ℕ → Type 0) (xs : Bytes) (chosen : List Bytes)
    → All P xs
    → All (λ share. Memᴰ share (map f xs)) chosen
    → (ys : Bytes) × All P ys × (chosen ≡ map f ys)
chosen-map f P xs [] h k = ([], tt, refl)
chosen-map f P xs (c ∷ cs) h (k, ks) =
    let (y, p, e) = Memᴰ-map f P xs h k in
    let (ys, ps, es) = chosen-map f P xs cs h ks in (y ∷ ys, (p, ps), λ i. e i ∷ es i)

-- Different values are of different arguments.
Apart-map : (f : ℕ → Bytes) (y : ℕ) (zs : Bytes) → Apart (f y) (map f zs) → Apart y zs
Apart-map f y [] h = tt
Apart-map f y (z ∷ zs) (h, hs) = (λ e. h (ap f e), Apart-map f y zs hs)

Distinct-map : (f : ℕ → Bytes) (ys : Bytes) → Distinct (map f ys) → Distinct ys
Distinct-map f [] h = tt
Distinct-map f (y ∷ ys) (h, hs) = (Apart-map f y ys h, Distinct-map f ys hs)

All-first : (P Q : ℕ → Type 0) (xs : Bytes) → All (λ x. P x × Q x) xs → All P xs × All Q xs
All-first P Q [] h = (tt, tt)
All-first P Q (x ∷ xs) ((p, q), hs) = let (ps, qs) = All-first P Q xs hs in ((p, ps), (q, qs))

-- Combine on the shares of distinct coordinates, as many as the threshold.
combine-share_of :
    (secret : Bytes) (threshold : ℕ) (ts : List Bytes) (ys : Bytes)
    → AllBytes secret
    → 0 < length secret
    → 2 ≤ threshold
    → Coefficients threshold secret ts
    → All Coordinate ys
    → Distinct ys
    → threshold ≤ length ys
    → length ys < 256
    → combine (map (share_of secret ts) ys) ≡ ok secret
unfolding combine
combine-share_of secret threshold ts [] bytes nonempty two fit coordinates distinct enough few =
    absurd (omega arith)
combine-share_of secret threshold ts (y ∷ ys) bytes nonempty two fit coordinates distinct enough
      few =
    let f = share_of secret ts in
    let size : (x : ℕ) → length (f x) ≡ suc (length secret) =
      λ x. share_of_size secret threshold ts x fit in
    let last : (x : ℕ) → get_or (f x) (length secret) 0 ≡ x =
      λ x. share_of_last secret threshold ts x fit in
    let (positive, small) = All-first (λ x. 0 < x) (λ x. x < 256) (y ∷ ys) coordinates in
    let checked = check_shares-ok f (length secret) (y ∷ ys) size last positive distinct in
    let read =
      combine_from-values threshold secret ts (y ∷ ys) (λ x. []) 0 (omega arith) enough bytes fit
        small distinct (λ x. refl) in
    let count = length-map (y ∷ ys) f in
    let several : not (ltb (length (map f (y ∷ ys))) 2 || ltb max_shares (length (map f (y ∷ ys))))
        ≡ true =
      rw count (ground arith) in
    let long : not (ltb (suc (length secret)) 2) ≡ true = ground arith in
    let before : suc (length secret) - 1 ≡ length secret = omega arith in
    rw (combine, several, size y, long, checked, before, read) refl

-- Split and then Combine on any `threshold` or more of the shares, in any order, which are different
-- ones of those that Split returned and at most 255: the result is the secret.
pub combine-split :
    (secret : Bytes) (total threshold : ℕ) (source : Bytes) {shares : List Bytes}
    (chosen : List Bytes)
    → AllBytes secret
    → AllBytes source
    → total < 2 ^ 64
    → threshold < 2 ^ 64
    → split secret total threshold source ≡ ok shares
    → All (λ share. Memᴰ share shares) chosen
    → Distinct chosen
    → threshold ≤ length chosen
    → length chosen < 256
    → combine chosen ≡ ok secret
combine-split secret total threshold source chosen bytes drawn wide small made members distinct
      enough few =
    let ((xs, ts, coordinates, apart_all, all, fit, same), nonempty, two) =
      split-Made secret total threshold source drawn wide small made in
    let f = share_of secret ts in
    let among = subst (λ (all : List Bytes). All (λ share. Memᴰ share all) chosen) same members in
    let (ys, points, picked) = chosen-map f Coordinate xs chosen coordinates among in
    let count = ap length picked ∙ length-map ys f in
    let apart = Distinct-map f ys (subst Distinct picked distinct) in
    ap combine picked
    ∙ combine-share_of secret threshold ts ys bytes nonempty two fit points apart (omega arith)
        (omega arith)

-- ===== src/Crypto/Shamir/Made.antt =====
-- crypto/internal/shamir/shamir.go: what Split returns: a share for each of its coordinates.
use mathlib.Core.Path.{subst}
use wallet_sdk.Common.{
  ℕ, suc, ◌<◌, ◌≤◌, ◌^◌, ◌≡◌, refl, ap, sym, ◌∙◌, arith, List, [], ◌∷◌, ◌++◌, map, length, All,
  Bytes, true, not, ◌||◌, get_or, length-append, length-map, ok, guard, guard-eq-ok, map_err,
  map_err-eq-ok, >>=-eq-ok, ◌==◌,
}
use wallet_sdk.Go.Words.{lt_i64}
use wallet_sdk.Crypto.Field.Interpolate.{Distinct, Apart}
use wallet_sdk.Crypto.Shamir.{
  split, random_coordinates, coordinates_unread, empty_secret, threshold_range, total_range,
  random_coordinates, max_shares,
}
use wallet_sdk.Crypto.Shamir.Shares.{
  AllBytes, Coefficients, values, split_from-eq-ok, get_or-append,
}
use wallet_sdk.Crypto.Shamir.Coordinates.{Coordinate, random_coordinates-eq-ok}
use wallet_sdk.Crypto.Shamir.Shuffle.{random_coordinates-Distinct}

abbrev pub share_of : Bytes → List Bytes → ℕ → Bytes
share_of secret ts x = values secret ts x ++ x ∷ []

-- What a Split that returns shares made them of.
abbrev pub Made : Bytes → ℕ → ℕ → List Bytes → Type 0
Made secret total threshold shares =
    (xs : Bytes) × (ts : List Bytes) × All Coordinate xs
    × Distinct xs
    × (length xs ≡ total)
    × Coefficients threshold secret ts
    × (shares ≡ map (share_of secret ts) xs)

in_range :
    (n low : ℕ)
    → n < 2 ^ 64
    → low < 2 ^ 63
    → not (lt_i64 n low || lt_i64 255 n) ≡ true
    → (low ≤ n) × (n < 256)
in_range n low h k e = ground arith

pub split-Made :
    (secret : Bytes) (total threshold : ℕ) (source : Bytes) {shares : List Bytes}
    → AllBytes source
    → total < 2 ^ 64
    → threshold < 2 ^ 64
    → split secret total threshold source ≡ ok shares
    → Made secret total threshold shares × (0 < length secret) × (2 ≤ threshold)
unfolding split
split-Made secret total threshold source bytes wide small e =
    let (u, g1, e1) = >>=-eq-ok (guard (not (length secret == 0)) empty_secret) _ e in
    let (v, g2, e2) =
      >>=-eq-ok (guard (not (lt_i64 threshold 2 || lt_i64 max_shares threshold)) threshold_range) _
        e1 in
    let (w, g3, e3) =
      >>=-eq-ok (guard (not (lt_i64 total threshold || lt_i64 max_shares total)) total_range) _
        e2 in
    let (drawn, d, e4) =
      >>=-eq-ok (map_err (λ e. coordinates_unread) (random_coordinates total source)) _ e3 in
    let reads = map_err-eq-ok (λ e. coordinates_unread) _ d in
    let (coordinates, left) = random_coordinates-eq-ok total source reads bytes in
    let (two, most) = in_range threshold 2 small (omega arith) (guard-eq-ok _ threshold_range g2) in
    let few = (in_range total threshold wide (omega arith) (guard-eq-ok _ total_range g3)).1 in
    let (apart, count) = random_coordinates-Distinct total source few reads in
    let (ts, fit, same) =
      split_from-eq-ok secret threshold drawn.0 drawn.1 (λ x. []) 0 (λ x. refl) left e4 in
    (
      (drawn.0, ts, coordinates, apart, count, fit, same),
      ground (arith, guard-eq-ok _ empty_secret g1),
      two,
    )

length-values :
    (threshold : ℕ) (secret : Bytes) (ts : List Bytes) (x : ℕ)
    → Coefficients threshold secret ts
    → length (values secret ts x) ≡ length secret
length-values threshold [] [] x h = refl
length-values threshold [] (t ∷ ts) x h = absurd h
length-values threshold (v ∷ vs) [] x h = absurd h
length-values threshold (v ∷ vs) (t ∷ ts) x (h, k, hs) = ap suc (length-values threshold vs ts x hs)

pub share_of_size :
    (secret : Bytes) (threshold : ℕ) (ts : List Bytes) (x : ℕ)
    → Coefficients threshold secret ts
    → length (share_of secret ts x) ≡ suc (length secret)
share_of_size secret threshold ts x fit =
    omega
      (arith, length-values threshold secret ts x fit, length-append (values secret ts x) (x ∷ []))

pub share_of_last :
    (secret : Bytes) (threshold : ℕ) (ts : List Bytes) (x : ℕ)
    → Coefficients threshold secret ts
    → get_or (share_of secret ts x) (length secret) 0 ≡ x
share_of_last secret threshold ts x fit =
    ap (λ (k : ℕ). get_or (share_of secret ts x) k 0)
      (sym (length-values threshold secret ts x fit))
    ∙ get_or-append (values secret ts x) x 0 []

map-Apart :
    (f : ℕ → Bytes) (g : Bytes → ℕ) (y : ℕ) (zs : Bytes)
    → ((y : ℕ) → g (f y) ≡ y)
    → Apart y zs
    → Apart (f y) (map f zs)
map-Apart f g y [] undo h = tt
map-Apart f g y (z ∷ zs) undo (h, hs) =
    (λ e. h (sym (undo y) ∙ ap g e ∙ undo z), map-Apart f g y zs undo hs)

map-Distinct :
    (f : ℕ → Bytes) (g : Bytes → ℕ) (ys : Bytes)
    → ((y : ℕ) → g (f y) ≡ y)
    → Distinct ys
    → Distinct (map f ys)
map-Distinct f g [] undo h = tt
map-Distinct f g (y ∷ ys) undo (h, hs) = (map-Apart f g y ys undo h, map-Distinct f g ys undo hs)

All-share_of :
    (secret : Bytes) (threshold : ℕ) (ts : List Bytes) (xs : Bytes)
    → Coefficients threshold secret ts
    → All (λ share. length share ≡ suc (length secret)) (map (share_of secret ts) xs)
All-share_of secret threshold ts [] fit = tt
All-share_of secret threshold ts (x ∷ xs) fit =
    (share_of_size secret threshold ts x fit, All-share_of secret threshold ts xs fit)

-- A Split that returns shares returns `total` of them, each one byte longer than the secret and no
-- two equal.
pub split-Distinct :
    (secret : Bytes) (total threshold : ℕ) (source : Bytes) {shares : List Bytes}
    → AllBytes source
    → total < 2 ^ 64
    → threshold < 2 ^ 64
    → split secret total threshold source ≡ ok shares
    → (length shares ≡ total)
      × All (λ share. length share ≡ suc (length secret)) shares
      × Distinct shares
split-Distinct secret total threshold source drawn wide small made =
    let ((xs, ts, coordinates, apart, count, fit, same), nonempty, two) =
      split-Made secret total threshold source drawn wide small made in
    let f = share_of secret ts in
    subst
      (λ (s : List Bytes).
        (length s ≡ total) × All (λ share. length share ≡ suc (length secret)) s × Distinct s)
      (sym same)
      (
        length-map xs f ∙ count,
        All-share_of secret threshold ts xs fit,
        map-Distinct f (λ share. get_or share (length secret) 0) xs
            (λ x. share_of_last secret threshold ts x fit) apart,
      )

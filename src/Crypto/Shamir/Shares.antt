-- ===== src/Crypto/Shamir/Shares.antt =====
-- crypto/internal/shamir/shamir.go: Split makes of each coordinate x the values at x of one
-- polynomial for each byte of the secret, and x.
use mathlib.Core.Path.{subst}
use wallet_sdk.Common.{
  ℕ, zero, suc, ◌-◌, ◌<◌, ◌≡◌, refl, ap, sym, ◌∙◌, arith, List, [], ◌∷◌, ◌++◌, map, length, All,
  Bytes, get_or, take, drop, set, replicate, length-append, append_assoc, ok, map_err, >>=-eq-ok,
  ok-err, ok_inj, map_err-eq-ok, ltb, length-take, Bool-cases, inl, inr, ltb→le,
}
use wallet_sdk.Crypto.Shamir.{evaluate, fill_shares, split_from, read_full, polynomial_unread}

abbrev pub AllBytes : Bytes → Type 0
AllBytes bs = All (λ b. b < 256) bs

-- The other coefficients, below `threshold`, for each byte of a secret.
abbrev pub Coefficients : ℕ → Bytes → List Bytes → Type 0
Coefficients threshold [] [] = Unit {0}
Coefficients threshold [] (t ∷ ts) = ⊥
Coefficients threshold (v ∷ vs) [] = ⊥
Coefficients threshold (v ∷ vs) (t ∷ ts) =
    (length t ≡ threshold - 1) × AllBytes t × Coefficients threshold vs ts

abbrev pub values : Bytes → List Bytes → ℕ → Bytes
values (v ∷ vs) (t ∷ ts) x = evaluate (v ∷ t) x ∷ values vs ts x
values vs ts x = []

pub set-append :
    (xs : Bytes) (y v : ℕ) (ys : Bytes) → set (xs ++ y ∷ ys) (length xs) v ≡ xs ++ v ∷ ys
set-append [] y v ys = refl
set-append (x ∷ xs) y v ys = ap (λ (t : Bytes). x ∷ t) (set-append xs y v ys)

pub get_or-append : (xs : Bytes) (y d : ℕ) (ys : Bytes) → get_or (xs ++ y ∷ ys) (length xs) d ≡ y
get_or-append [] y d ys = refl
get_or-append (x ∷ xs) y d ys = get_or-append xs y d ys

All-take : (n : ℕ) (bs : Bytes) → AllBytes bs → AllBytes (take n bs)
All-take zero bs h = tt
All-take (suc n) [] h = tt
All-take (suc n) (b ∷ bs) (h, hs) = (h, All-take n bs hs)

All-drop : (n : ℕ) (bs : Bytes) → AllBytes bs → AllBytes (drop n bs)
All-drop zero bs h = h
All-drop (suc n) [] h = tt
All-drop (suc n) (b ∷ bs) (h, hs) = All-drop n bs hs

read_full-eq-ok :
    (n : ℕ) (source : Bytes) {drawn : Bytes × Bytes}
    → read_full n source ≡ ok drawn
    → AllBytes source
    → (length drawn.0 ≡ n) × AllBytes drawn.0 × AllBytes drawn.1
unfolding read_full
read_full-eq-ok n source {drawn} e h = elim (Bool-cases (ltb (length source) n)) [
  | inl short ↦ absurd (ok-err (sym (rw (read_full, short) at e)))
  | inr enough ↦
      let same : (take n source, drop n source) ≡ drawn = ok_inj (rw (read_full, enough) at e) in
      let size : length (take n source) ≡ n =
        omega (arith, length-take n source, ltb→le (length source) n enough) in
      subst (λ (d : Bytes × Bytes). (length d.0 ≡ n) × AllBytes d.0 × AllBytes d.1) same
        (size, All-take n source h, All-drop n source h)
]

-- The byte at `offset` of each share is written.
fill_shares-map :
    (cs xs : Bytes) (done after : ℕ → Bytes) (offset : ℕ)
    → ((x : ℕ) → length (done x) ≡ offset)
    → fill_shares offset cs xs (map (λ x. done x ++ 0 ∷ after x) xs)
      ≡ map (λ x. (done x ++ evaluate cs x ∷ []) ++ after x) xs
unfolding fill_shares
fill_shares-map cs [] done after offset h = refl
fill_shares-map cs (x ∷ xs) done after offset h =
    let first : set (done x ++ 0 ∷ after x) offset (evaluate cs x)
        ≡ (done x ++ evaluate cs x ∷ []) ++ after x =
      ap (λ (k : ℕ). set (done x ++ 0 ∷ after x) k (evaluate cs x)) (sym (h x))
      ∙ set-append (done x) 0 (evaluate cs x) (after x)
      ∙ sym (append_assoc (done x) (evaluate cs x ∷ []) (after x)) in
    let rest = fill_shares-map cs xs done after offset h in λ i. first i ∷ rest i

pub split_from-eq-ok :
    (secret : Bytes) (threshold : ℕ) (xs source : Bytes) (done : ℕ → Bytes) (offset : ℕ)
    {shares : List Bytes}
    → ((x : ℕ) → length (done x) ≡ offset)
    → AllBytes source
    → split_from offset secret threshold xs
        (map (λ x. done x ++ (replicate (length secret) 0 ++ x ∷ [])) xs)
        source
      ≡ ok shares
    → (ts : List Bytes) × Coefficients threshold secret ts
      × (shares ≡ map (λ x. done x ++ (values secret ts x ++ x ∷ [])) xs)
unfolding split_from
split_from-eq-ok [] threshold xs source done offset h k e = ([], tt, ok_inj (sym e))
split_from-eq-ok (v ∷ vs) threshold xs source done offset {shares} h k e =
    let (drawn, read, rest) =
      >>=-eq-ok (map_err (λ e. polynomial_unread) (read_full (threshold - 1) source)) _ e in
    let (size, bytes, bytes_left) =
      read_full-eq-ok (threshold - 1) source (map_err-eq-ok (λ e. polynomial_unread) _ read) k in
    let filled =
      fill_shares-map (v ∷ drawn.0) xs done (λ x. replicate (length vs) 0 ++ x ∷ []) offset h in
    let next = λ (x : ℕ). done x ++ evaluate (v ∷ drawn.0) x ∷ [] in
    let longer : (x : ℕ) → length (next x) ≡ suc offset =
      λ x. omega (arith, h x, length-append (done x) (evaluate (v ∷ drawn.0) x ∷ [])) in
    let (ts, fit, same) =
      split_from-eq-ok vs threshold xs drawn.1 next (suc offset) longer bytes_left (
        sym (ap (λ (s : List Bytes). split_from (suc offset) vs threshold xs s drawn.1) filled)
        ∙ rest) in
    (
      drawn.0 ∷ ts,
      (size, bytes, fit),
      same
          ∙ ap (λ (f : ℕ → Bytes). map f xs)
              (λ i x.
                append_assoc (done x) (evaluate (v ∷ drawn.0) x ∷ []) (values vs ts x ++ x ∷ []) i),
    )

-- ===== src/Crypto/Shamir/Secrecy.antt =====
-- crypto/internal/shamir/shamir.go: what fewer shares than the threshold say of a byte of the secret.
use mathlib.Core.Path.{subst}
use wallet_sdk.Common.{
  ℕ, ◌<◌, ◌≤◌, ◌≡◌, ◌≢◌, refl, ap, sym, ◌∙◌, arith, List, [], ◌∷◌, map, length, All, Bytes,
  length-map,
}
use wallet_sdk.Crypto.Field.Polynomial
use wallet_sdk.Crypto.Field.Vanish
use wallet_sdk.Crypto.Shamir.{evaluate}
use wallet_sdk.Crypto.Shamir.ByteField.{Byte, val, byte_field, to_bytes, evaluate-eval}
use wallet_sdk.Crypto.Shamir.Shares.{AllBytes}
use wallet_sdk.Crypto.Shamir.Coordinates.{Coordinate}

AllBytes-val : (ds : List Byte) → AllBytes (map val ds)
AllBytes-val [] = tt
AllBytes-val (d ∷ ds) = (d.1, AllBytes-val ds)

Coordinate-bytes :
    (xs : Bytes)
    → All Coordinate xs
    → (ys : List Byte) × (map val ys ≡ xs) × All (λ y. y ≢ byte_field.zero) ys
Coordinate-bytes [] h = ([], refl, tt)
Coordinate-bytes (x ∷ xs) ((positive, small), hs) =
    let (ys, e, nonzero) = Coordinate-bytes xs hs in
    (
      (x, small) ∷ ys,
      ap (λ (t : Bytes). x ∷ t) e,
      ((λ h. absurd (omega (arith, ap val h))), nonzero),
    )

-- Equal values of two polynomials in the field are equal values of the code's evaluate.
evaluate-agree :
    (b c : Byte) (bs cs ys : List Byte)
    → All (λ y. Polynomial.eval byte_field (b ∷ bs) y ≡ Polynomial.eval byte_field (c ∷ cs) y) ys
    → map (evaluate (map val (b ∷ bs))) (map val ys)
      ≡ map (evaluate (map val (c ∷ cs))) (map val ys)
evaluate-agree b c bs cs [] h = refl
evaluate-agree b c bs cs (y ∷ ys) (h, hs) =
    let first = evaluate-eval b bs y ∙ ap val h ∙ sym (evaluate-eval c cs y) in
    λ i. first i ∷ evaluate-agree b c bs cs ys hs i

-- Whatever byte of the secret it is, and whatever the other coefficients: at fewer coordinates than
-- coefficients, another polynomial of as many coefficients has the same values, and any other byte as
-- its secret.
pub evaluate-secret :
    (secret other : ℕ) (cs xs : Bytes)
    → AllBytes (secret ∷ other ∷ cs)
    → All Coordinate xs
    → length xs < length (secret ∷ cs)
    → (ds : Bytes) × AllBytes ds
      × (length ds ≡ length cs)
      × (map (evaluate (other ∷ ds)) xs ≡ map (evaluate (secret ∷ cs)) xs)
evaluate-secret secret other cs xs (h, (k, hs)) coordinates few =
    let (fs, ef) = to_bytes cs hs in
    let (ys, ey, nonzero) = Coordinate-bytes xs coordinates in
    let b : Byte = (secret, h) in
    let o : Byte = (other, k) in
    let fewer : length ys ≤ length fs =
      omega (arith, length-map fs val, length-map ys val, ap length ef, ap length ey, few) in
    let (ds, size, agree) = Vanish.another byte_field b fs ys o fewer nonzero in
    (
      map val ds,
      AllBytes-val ds,
      length-map ds val ∙ size ∙ sym (length-map fs val) ∙ ap length ef,
      subst
          (λ (zs : Bytes). map (evaluate (other ∷ map val ds)) zs ≡ map (evaluate (secret ∷ cs)) zs)
          ey
          (subst
            (λ (ts : Bytes).
              map (evaluate (other ∷ map val ds)) (map val ys)
              ≡ map (evaluate (secret ∷ ts)) (map val ys))
            ef (evaluate-agree o b ds fs ys agree)),
    )

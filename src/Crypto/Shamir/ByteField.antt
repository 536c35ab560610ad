-- ===== src/Crypto/Shamir/ByteField.antt =====
-- crypto/internal/shamir/shamir.go: the bytes are a field by the code's multiply and power, and the
-- code's loops compute with it what interpolation over a field does.
use Prim.Native.Nat.{Fin}
use native.Mathlib.Fin.{val_path}
use wallet_sdk.Common.{
  ℕ, suc, ◌+◌, ◌<◌, ◌≤◌, bit_xor, ◌==◌, false, true, ◌≡◌, ◌≢◌, refl, ap, sym, ◌∙◌, arith, List, [],
  ◌∷◌, ◌++◌, map, length, All, Bytes, length-append, append_assoc,
}
use wallet_sdk.Common.Xor.{bit_xor_comm, bit_xor_assoc, bit_xor_self, bit_xor_lt, zero-bit_xor}
use wallet_sdk.Crypto.Field.{Field}
use wallet_sdk.Crypto.Field
use wallet_sdk.Crypto.Field.Interpolate.{Distinct, Apart}
use wallet_sdk.Crypto.Field.Interpolate
use wallet_sdk.Crypto.Field.Polynomial
use wallet_sdk.Crypto.Shamir.{
  multiply, power, divide, weigh, interpolate_from, interpolate_at_zero, evaluate,
}
use wallet_sdk.Crypto.Shamir.Multiply.{multiply_lt, multiply-bit_xor}
use wallet_sdk.Crypto.Shamir.Laws.{
  multiply_comm, multiply_assoc, one_multiply, power_lt, multiply-power,
}

abbrev pub Byte : Type 0
Byte = Fin 256

abbrev pub val : Byte → ℕ
val b = b.0

abbrev pub byte_field : Field Byte
byte_field = record {
  zero = (0, omega arith);
  one = (1, omega arith);
  add = λ a b. (bit_xor a.0 b.0, bit_xor_lt 8 a.0 b.0 a.1 b.1);
  mul = λ a b. (multiply a.0 b.0, multiply_lt a.0 b.0 a.1 b.1);
  inv = λ a. (power a.0 254, power_lt a.0 a.1);
  add_comm = λ a b. val_path (bit_xor_comm a.0 b.0);
  add_assoc = λ a b c. val_path (bit_xor_assoc a.0 b.0 c.0);
  zero_add = λ a. val_path (zero-bit_xor a.0);
  add_self = λ a. val_path (bit_xor_self a.0);
  mul_comm = λ a b. val_path (multiply_comm a.0 b.0 a.1 b.1);
  mul_assoc = λ a b c. val_path (multiply_assoc a.0 b.0 c.0 a.1 b.1 c.1);
  one_mul = λ a. val_path (one_multiply a.0 a.1);
  add_mul = λ a b c. val_path (multiply-bit_xor a.0 b.0 c.0 a.1 b.1 c.1);
  mul_inv = λ a h. val_path (multiply-power a.0 a.1 (λ e. h (val_path e)));
  one_zero = λ e. absurd (omega (arith, ap val e));
}

abbrev plus : Byte → Byte → Byte
plus = byte_field.add

abbrev times : Byte → Byte → Byte
times = byte_field.mul

pub evaluate-eval :
    (c : Byte) (cs : List Byte) (x : Byte)
    → evaluate (map val (c ∷ cs)) (val x) ≡ val (Polynomial.eval byte_field (c ∷ cs) x)
unfolding evaluate
evaluate-eval c [] x = ap val (
    sym (Field.zero_add byte_field c)
    ∙ ap (λ (t : Byte). plus t c) (sym (Field.zero_mul byte_field x)))
evaluate-eval c (d ∷ cs) x =
    ap (λ (t : ℕ). bit_xor (multiply t (val x)) (val c)) (evaluate-eval d cs x)

abbrev product : List Byte → Byte
product = Interpolate.product byte_field

abbrev differences : Byte → List Byte → Byte
differences = Interpolate.differences byte_field

-- A numerator and a denominator, as numbers.
abbrev vals : Byte → Byte → ℕ × ℕ
vals n d = (val n, val d)

vals-path : {a b c d : Byte} → a ≡ b → c ≡ d → vals a c ≡ vals b d
vals-path e h = λ i. (val (e i), val (h i))

other_index : (i j : ℕ) → i ≢ j → (i == j) ≡ false
other_index i j h = ground arith

weigh_step :
    (i j : ℕ) (x y : Byte) (ys : List Byte) (n d : Byte)
    → i ≢ j
    → weigh i (val x) j (map val (y ∷ ys)) (val n) (val d)
      ≡ weigh i (val x) (suc j) (map val ys) (val (times n y)) (val (times d (plus x y)))
unfolding weigh
weigh_step i j x y ys n d h = rw (weigh, other_index i j h) refl

-- Past index i no coordinate is passed over.
weigh-after :
    (i j : ℕ) (x : Byte) (ys : List Byte) (n d : Byte)
    → i < j
    → weigh i (val x) j (map val ys) (val n) (val d)
      ≡ vals (times n (product ys)) (times d (differences x ys))
unfolding weigh
weigh-after i j x [] n d h =
    vals-path (sym (Field.mul_one byte_field n)) (sym (Field.mul_one byte_field d))
weigh-after i j x (y ∷ ys) n d h =
    weigh_step i j x y ys n d (λ e. absurd (omega arith))
    ∙ weigh-after i (suc j) x ys (times n y) (times d (plus x y)) (omega arith)
    ∙ vals-path (byte_field.mul_assoc n y (product ys))
        (byte_field.mul_assoc d (plus x y) (differences x ys))

-- At index i the coordinate x itself is.
weigh-middle :
    (i j : ℕ) (x : Byte) (pre post : List Byte) (n d : Byte)
    → i ≡ j + length pre
    → weigh i (val x) j (map val (pre ++ x ∷ post)) (val n) (val d)
      ≡ vals (times n (product (pre ++ post))) (times d (differences x (pre ++ post)))
unfolding weigh
weigh-middle i j x [] post n d h =
    let here : (i == j) ≡ true = ground arith in
    rw (weigh, here) (weigh-after i (suc j) x post n d (omega arith))
weigh-middle i j x (p ∷ pre) post n d h =
    weigh_step i j x p (pre ++ x ∷ post) n d (λ e. absurd (omega arith))
    ∙ weigh-middle i (suc j) x pre post (times n p) (times d (plus x p)) (omega arith)
    ∙ vals-path (byte_field.mul_assoc n p (product (pre ++ post)))
        (byte_field.mul_assoc d (plus x p) (differences x (pre ++ post)))

interpolate_from-sum :
    (f : Byte → Byte) (pre post : List Byte) (acc : Byte)
    → interpolate_from
        (length pre)
        (map val post)
        (map (λ x. val (f x)) post)
        (map val (pre ++ post))
        (val acc)
      ≡ val (plus acc (Interpolate.sum_from byte_field f pre post))
unfolding interpolate_from divide
interpolate_from-sum f pre [] acc = ap val (sym (Field.add_zero byte_field acc))
interpolate_from-sum f pre (x ∷ post) acc =
    let others = pre ++ post in
    let weighed =
      weigh-middle (length pre) 0 x pre post byte_field.one byte_field.one (omega arith)
      ∙ vals-path (byte_field.one_mul (product others))
          (byte_field.one_mul (differences x others)) in
    let term = times (f x) (Interpolate.weight byte_field x others) in
    let longer : length (pre ++ x ∷ []) ≡ suc (length pre) =
      omega (arith, length-append pre (x ∷ [])) in
    let rest =
      rw (longer, append_assoc pre (x ∷ []) post) at
        (interpolate_from-sum f (pre ++ x ∷ []) post (plus acc term)) in
    ap
      (λ (w : ℕ × ℕ).
        interpolate_from (suc (length pre)) (map val post) (map (λ x. val (f x)) post)
          (map val (pre ++ x ∷ post)) (bit_xor (val acc) (multiply (val (f x)) (divide w.0 w.1))))
      weighed
    ∙ rest
    ∙ ap val
        (byte_field.add_assoc acc term (Interpolate.sum_from byte_field f (pre ++ x ∷ []) post))

-- A list of bytes has its elements in the field.
pub to_bytes : (bs : Bytes) → All (λ b. b < 256) bs → (fs : List Byte) × (map val fs ≡ bs)
to_bytes [] h = ([], refl)
to_bytes (b ∷ bs) (h, hs) =
    let (fs, e) = to_bytes bs hs in ((b, h) ∷ fs, ap (λ (t : Bytes). b ∷ t) e)

Apart-val : (x : Byte) (xs : List Byte) → Apart (val x) (map val xs) → Apart x xs
Apart-val x [] h = tt
Apart-val x (y ∷ ys) (h, hs) = (λ e. h (ap val e), Apart-val x ys hs)

pub Distinct-val : (xs : List Byte) → Distinct (map val xs) → Distinct xs
Distinct-val [] h = tt
Distinct-val (x ∷ xs) (h, hs) = (Apart-val x xs h, Distinct-val xs hs)

pub interpolate_at_zero-eval :
    (c : Byte) (cs xs : List Byte)
    → suc (length cs) ≤ length xs
    → Distinct xs
    → interpolate_at_zero (map val xs) (map (λ x. val (Polynomial.eval byte_field (c ∷ cs) x)) xs)
      ≡ val c
unfolding interpolate_at_zero divide
interpolate_at_zero-eval c cs xs enough distinct =
    interpolate_from-sum (Polynomial.eval byte_field (c ∷ cs)) [] xs byte_field.zero
    ∙ ap val (
        byte_field.zero_add
          (Interpolate.sum_from byte_field (Polynomial.eval byte_field (c ∷ cs)) [] xs)
        ∙ Polynomial.sum_from-eval byte_field (c ∷ cs) xs enough distinct
        ∙ ap (λ (t : Byte). plus t c)
            (Field.mul_zero byte_field (Polynomial.eval byte_field cs byte_field.zero))
        ∙ byte_field.zero_add c)

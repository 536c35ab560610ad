-- ===== src/Crypto/Field/Polynomial.antt =====
-- Interpolation at zero over a field: the weighted sum of a polynomial's values at distinct points
-- is its constant coefficient, when there are as many points as coefficients.
use wallet_sdk.Common.{suc, ◌≤◌, ◌≡◌, refl, ap, sym, ◌∙◌, List, [], ◌∷◌, length, arith}
use wallet_sdk.Crypto.Field.{Field}
use wallet_sdk.Crypto.Field
use wallet_sdk.Crypto.Field.Interpolate
use wallet_sdk.Crypto.Field.Interpolate.{Distinct}

module _ {ℓ} {A : Type ℓ} (F : Field A) where
  open F use {
    zero, one, add, mul, inv, add_comm, add_assoc, zero_add, add_self, mul_comm, mul_assoc, one_mul,
    add_mul, mul_inv, one_zero,
  }

  -- A polynomial by its coefficients, the constant one first.
  abbrev pub eval : List A → A → A
  eval [] t = zero
  eval (c ∷ cs) t = add (mul (eval cs t) t) c

  -- The quotient of c ∷ cs by the root a.
  abbrev quotient : A → List A → List A
  quotient a [] = []
  quotient a (d ∷ ds) = eval (d ∷ ds) a ∷ quotient a ds

  length-quotient : (a : A) (cs : List A) → length (quotient a cs) ≡ length cs
  length-quotient a [] = refl
  length-quotient a (d ∷ ds) = ap suc (length-quotient a ds)

  regroup : (u v w : A) → add v w ≡ add u (add w (add v u))
  regroup u v w = sym (
      ap (λ (t : A). add u t) (sym (add_assoc w v u) ∙ add_comm (add w v) u)
      ∙ Field.add_cancel F u (add w v)
      ∙ add_comm w v)

  add_last : (u v c : A) → add (add u v) c ≡ add (add u c) v
  add_last u v c = add_assoc u v c ∙ ap (λ (t : A). add u t) (add_comm v c) ∙ sym (add_assoc u c v)

  add_coefficient : {u v w : A} (c : A) → w ≡ add u v → add w c ≡ add (add u c) v
  add_coefficient {u} {v} {w} c e = ap (λ (s : A). add s c) e ∙ add_last u v c

  tail-divided :
      (a t : A) (cs : List A)
      → mul (eval cs t) t ≡ add (mul (eval cs a) a) (mul (add t a) (eval (quotient a cs) t))
  tail-divided a t [] =
      Field.zero_mul F t
      ∙ sym
          (Interpolate.add_both F (Field.zero_mul F a) (Field.mul_zero F (add t a)) ∙ zero_add zero)
  tail-divided a t (d ∷ ds) =
      let e = eval (d ∷ ds) a in
      let q = eval (quotient a ds) t in
      let left : mul (eval (d ∷ ds) t) t ≡ add (mul e t) (mul (add t a) (mul q t)) =
        ap (λ (s : A). mul s t) (add_coefficient d (tail-divided a t ds))
        ∙ add_mul e (mul (add t a) q) t
        ∙ ap (λ (s : A). add (mul e t) s) (mul_assoc (add t a) q t) in
      let product_of_root : mul (add t a) e ≡ add (mul e t) (mul e a) =
        mul_comm (add t a) e ∙ Field.mul_add F e t a in
      left
      ∙ regroup (mul e a) (mul e t) (mul (add t a) (mul q t))
      ∙ ap (λ (s : A). add (mul e a) s)
          (sym (
            Field.mul_add F (add t a) (mul q t) e
            ∙ ap (λ (s : A). add (mul (add t a) (mul q t)) s) product_of_root))

  eval-divided :
      (a t c : A) (cs : List A)
      → eval (c ∷ cs) t ≡ add (eval (c ∷ cs) a) (mul (add t a) (eval (quotient a cs) t))
  eval-divided a t c cs = add_coefficient c (tail-divided a t cs)

  sum_from-zero : (pre post : List A) → Interpolate.sum_from F (λ t. zero) pre post ≡ zero
  sum_from-zero pre post =
      Interpolate.sum_from-same F (λ t. zero) (λ t. mul zero zero)
        (λ t. sym (Field.zero_mul F zero)) pre post
      ∙ Interpolate.sum_from-scale F zero (λ t. zero) pre post
      ∙ Field.zero_mul F _

  -- The constant coefficient from the values at as many points as there are coefficients.
  pub sum_from-eval :
      (cs xs : List A)
      → length cs ≤ length xs
      → Distinct xs
      → Interpolate.sum_from F (eval cs) [] xs ≡ eval cs zero
  sum_from-eval [] xs enough h = sum_from-zero [] xs
  sum_from-eval (c ∷ cs) [] enough h = absurd (omega arith)
  sum_from-eval (c ∷ cs) (a ∷ ys) enough h =
      let k = eval (c ∷ cs) a in
      let q = quotient a cs in
      let fits : length q ≤ length ys = omega (arith, length-quotient a cs) in
      let parted : (t : A) → eval (c ∷ cs) t ≡ add (mul k one) (mul (add t a) (eval q t)) =
        λ t. eval-divided a t c cs ∙ Interpolate.add_both F (sym (Field.mul_one F k)) refl in
      let constant : Interpolate.sum_from F (λ t. mul k one) [] (a ∷ ys) ≡ mul k one =
        Interpolate.sum_from-scale F k (λ t. one) [] (a ∷ ys)
        ∙ ap (λ (s : A). mul k s) (Interpolate.weights_one F a ys h) in
      let rest : Interpolate.sum_from F (λ t. mul (add t a) (eval q t)) [] (a ∷ ys)
          ≡ mul (add zero a) (eval q zero) =
        Interpolate.sum_from-root F (eval q) a ys h
        ∙ ap (λ (s : A). mul a s) (sum_from-eval q ys fits h.1)
        ∙ ap (λ (s : A). mul s (eval q zero)) (sym (zero_add a)) in
      Interpolate.sum_from-same F _ _ parted [] (a ∷ ys)
      ∙ Interpolate.sum_from-add F _ _ [] (a ∷ ys)
      ∙ Interpolate.add_both F constant rest
      ∙ sym (parted zero)

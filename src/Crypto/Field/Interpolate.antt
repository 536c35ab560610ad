-- ===== src/Crypto/Field/Interpolate.antt =====
-- Interpolation at zero over a field: the weights of distinct points, and the sum of a function's
-- values by them.
use wallet_sdk.Common.{◌≡◌, ◌≢◌, refl, ap, sym, ◌∙◌, List, [], ◌∷◌, ◌++◌, append_assoc, All}
use wallet_sdk.Crypto.Field.{Field}
use wallet_sdk.Crypto.Field

-- Apart from each element of a list, and a list of elements that are apart.
module _ {ℓ} {A : Type ℓ} where
  abbrev pub Apart : A → List A → Type ℓ
  Apart x os = All (λ o. x ≢ o) os

  abbrev pub Distinct : List A → Type ℓ
  Distinct [] = Unit {ℓ}
  Distinct (x ∷ xs) = Apart x xs × Distinct xs

  All-middle {κ} :
      (P : A → Type κ) (pre : List A) (x : A) (post : List A)
      → All P (pre ++ x ∷ post)
      → P x × All P (pre ++ post)
  All-middle P [] x post h = h
  All-middle P (p ∷ pre) x post (h, rest) =
      let (here, others) = All-middle P pre x post rest in (here, (h, others))

  pub Distinct-middle :
      (pre : List A) (x : A) (post : List A) → Distinct (pre ++ x ∷ post) → Apart x (pre ++ post)
  Distinct-middle [] x post h = h.0
  Distinct-middle (p ∷ pre) x post (h, rest) =
      (λ e. (All-middle (λ o. p ≢ o) pre x post h).0 (sym e), Distinct-middle pre x post rest)

module _ {ℓ} {A : Type ℓ} (F : Field A) where
  open F use {
    zero, one, add, mul, inv, add_comm, add_assoc, zero_add, add_self, mul_comm, mul_assoc, one_mul,
    add_mul, mul_inv, one_zero,
  }

  abbrev pub product : List A → A
  product [] = one
  product (y ∷ ys) = mul y (product ys)

  abbrev pub differences : A → List A → A
  differences x [] = one
  differences x (y ∷ ys) = mul (add x y) (differences x ys)

  abbrev pub weight : A → List A → A
  weight x others = mul (product others) (inv (differences x others))

  -- The sum over the points after `pre`.
  abbrev pub sum_from : (A → A) → List A → List A → A
  sum_from f pre [] = zero
  sum_from f pre (x ∷ post) =
      add (mul (f x) (weight x (pre ++ post))) (sum_from f (pre ++ x ∷ []) post)

  pub add_both : {a b c d : A} → a ≡ c → b ≡ d → add a b ≡ add c d
  add_both {a} {b} {c} {d} e h = ap (λ (t : A). add t b) e ∙ ap (λ (t : A). add c t) h

  differences-nonzero : (x : A) (os : List A) → Apart x os → differences x os ≢ zero
  differences-nonzero x [] h = one_zero
  differences-nonzero x (y ∷ ys) (h, hs) =
      Field.mul_nonzero F _ _ (λ e. h (Field.add_eq_zero F x y e)) (differences-nonzero x ys hs)

  weight-cons :
      (x a : A) (os : List A)
      → x ≢ a
      → Apart x os
      → mul (add x a) (weight x (a ∷ os)) ≡ mul a (weight x os)
  weight-cons x a os h hs =
      let nonzero : add x a ≢ zero = λ e. h (Field.add_eq_zero F x a e) in
      let i = inv (add x a) in
      let parts : weight x (a ∷ os) ≡ mul (mul a i) (weight x os) =
        ap (λ (t : A). mul (mul a (product os)) t)
          (Field.inv-mul F (add x a) (differences x os) nonzero (differences-nonzero x os hs))
        ∙ Field.mul_interchange F a (product os) i (inv (differences x os)) in
      let front : mul (add x a) (mul a i) ≡ a =
        mul_comm (add x a) (mul a i)
        ∙ mul_assoc a i (add x a)
        ∙ ap (λ (t : A). mul a t) (mul_comm i (add x a) ∙ mul_inv (add x a) nonzero)
        ∙ Field.mul_one F a in
      ap (λ (t : A). mul (add x a) t) parts
      ∙ sym (mul_assoc (add x a) (mul a i) (weight x os))
      ∙ ap (λ (t : A). mul t (weight x os)) front

  -- A factor x + a of the polynomial takes the point a out of the weights.
  term-factor :
      (g x a : A) (os : List A)
      → x ≢ a
      → Apart x os
      → mul (mul (add x a) g) (weight x (a ∷ os)) ≡ mul a (mul g (weight x os))
  term-factor g x a os h hs =
      ap (λ (t : A). mul t (weight x (a ∷ os))) (mul_comm (add x a) g)
      ∙ mul_assoc g (add x a) (weight x (a ∷ os))
      ∙ ap (λ (t : A). mul g t) (weight-cons x a os h hs)
      ∙ sym (mul_assoc g a (weight x os))
      ∙ ap (λ (t : A). mul t (weight x os)) (mul_comm g a)
      ∙ mul_assoc a g (weight x os)

  sum_from-factor :
      (g : A → A) (a : A) (pre post : List A)
      → Distinct (a ∷ pre ++ post)
      → sum_from (λ t. mul (add t a) (g t)) (a ∷ pre) post ≡ mul a (sum_from g pre post)
  sum_from-factor g a pre [] h = sym (Field.mul_zero F a)
  sum_from-factor g a pre (x ∷ post) (h, hs) =
      let away = All-middle (λ o. a ≢ o) pre x post h in
      let again : Distinct (a ∷ (pre ++ x ∷ []) ++ post) =
        rw (append_assoc pre (x ∷ []) post) (h, hs) in
      let first =
        term-factor (g x) x a (pre ++ post) (λ e. away.0 (sym e)) (Distinct-middle pre x post hs) in
      let rest = sum_from-factor g a (pre ++ x ∷ []) post again in
      add_both first rest ∙ sym (Field.mul_add F a _ _)

  pub sum_from-add :
      (f g : A → A) (pre post : List A)
      → sum_from (λ t. add (f t) (g t)) pre post ≡ add (sum_from f pre post) (sum_from g pre post)
  sum_from-add f g pre [] = sym (zero_add zero)
  sum_from-add f g pre (x ∷ post) =
      add_both (add_mul (f x) (g x) (weight x (pre ++ post)))
        (sum_from-add f g (pre ++ x ∷ []) post)
      ∙ Field.add_interchange F _ _ _ _

  pub sum_from-scale :
      (c : A) (f : A → A) (pre post : List A)
      → sum_from (λ t. mul c (f t)) pre post ≡ mul c (sum_from f pre post)
  sum_from-scale c f pre [] = sym (Field.mul_zero F c)
  sum_from-scale c f pre (x ∷ post) =
      add_both (mul_assoc c (f x) (weight x (pre ++ post)))
        (sum_from-scale c f (pre ++ x ∷ []) post)
      ∙ sym (Field.mul_add F c _ _)

  pub sum_from-same :
      (f g : A → A)
      → ((t : A) → f t ≡ g t)
      → (pre post : List A) → sum_from f pre post ≡ sum_from g pre post
  sum_from-same f g same pre [] = refl
  sum_from-same f g same pre (x ∷ post) =
      add_both (ap (λ (t : A). mul t (weight x (pre ++ post))) (same x))
        (sum_from-same f g same (pre ++ x ∷ []) post)

  mul_swap : (a b c : A) → mul a (mul b c) ≡ mul b (mul a c)
  mul_swap a b c = sym (mul_assoc a b c) ∙ ap (λ (t : A). mul t c) (mul_comm a b) ∙ mul_assoc b a c

  weight-swap : (x a b : A) (os : List A) → weight x (a ∷ b ∷ os) ≡ weight x (b ∷ a ∷ os)
  weight-swap x a b os =
      ap (λ (t : A). mul t (inv (differences x (a ∷ b ∷ os)))) (mul_swap a b (product os))
      ∙ ap (λ (t : A). mul (product (b ∷ a ∷ os)) (inv t))
          (mul_swap (add x a) (add x b) (differences x os))

  sum_from-swap :
      (f : A → A) (a b : A) (pre post : List A)
      → sum_from f (a ∷ b ∷ pre) post ≡ sum_from f (b ∷ a ∷ pre) post
  sum_from-swap f a b pre [] = refl
  sum_from-swap f a b pre (x ∷ post) =
      add_both (ap (λ (t : A). mul (f x) t) (weight-swap x a b (pre ++ post)))
        (sum_from-swap f a b (pre ++ x ∷ []) post)

  -- A polynomial with the root x takes x out of the points.
  pub sum_from-root :
      (g : A → A) (x : A) (zs : List A)
      → Distinct (x ∷ zs)
      → sum_from (λ t. mul (add t x) (g t)) [] (x ∷ zs) ≡ mul x (sum_from g [] zs)
  sum_from-root g x zs h =
      let first : mul (mul (add x x) (g x)) (weight x zs) ≡ zero =
        ap (λ (t : A). mul (mul t (g x)) (weight x zs)) (add_self x)
        ∙ ap (λ (t : A). mul t (weight x zs)) (Field.zero_mul F (g x))
        ∙ Field.zero_mul F (weight x zs) in
      add_both first (sum_from-factor g x [] zs h) ∙ zero_add _

  abbrev pub weights : List A → A
  weights xs = sum_from (λ t. one) [] xs

  -- The same for a root that is the second point.
  weights-second :
      (x y : A) (us : List A)
      → Distinct (x ∷ y ∷ us)
      → sum_from (λ t. mul (add t y) one) [] (x ∷ y ∷ us) ≡ mul y (weights (x ∷ us))
  weights-second x y us (h, (k, hs)) =
      let first = term-factor one x y us h.0 h.1 in
      let second : mul (mul (add y y) one) (weight y (x ∷ us)) ≡ zero =
        ap (λ (t : A). mul (mul t one) (weight y (x ∷ us))) (add_self y)
        ∙ ap (λ (t : A). mul t (weight y (x ∷ us))) (Field.zero_mul F one)
        ∙ Field.zero_mul F (weight y (x ∷ us)) in
      let distinct : Distinct (y ∷ x ∷ us) = ((λ e. h.0 (sym e), k), (h.1, hs)) in
      let rest =
        sum_from-swap (λ t. mul (add t y) one) x y [] us
        ∙ sum_from-factor (λ t. one) y (x ∷ []) us distinct in
      add_both first (add_both second rest ∙ zero_add _) ∙ sym (Field.mul_add F y _ _)

  shift_root : (x y t : A) → mul (add x y) one ≡ add (mul (add t y) one) (mul (add t x) one)
  shift_root x y t =
      rw (Field.mul_one F (add x y), Field.mul_one F (add t y), Field.mul_one F (add t x))
        (sym (
          ap (λ (u : A). add u (add t x)) (add_comm t y)
          ∙ add_assoc y t (add t x)
          ∙ ap (λ (u : A). add y u) (Field.add_cancel F t x)
          ∙ add_comm y x))

  -- The weights at one point or more sum to one.
  pub weights_one : (x : A) (zs : List A) → Distinct (x ∷ zs) → weights (x ∷ zs) ≡ one
  weights_one x [] h = Field.add_zero F _ ∙ one_mul _ ∙ one_mul (inv one) ∙ Field.inv_one F
  weights_one x (y ∷ us) (h, (k, hs)) =
      let l = x ∷ y ∷ us in
      let whole : mul (add x y) (weights l) ≡ add y x =
        sym (sum_from-scale (add x y) (λ t. one) [] l)
        ∙ sum_from-same _ _ (shift_root x y) [] l
        ∙ sum_from-add _ _ [] l
        ∙ add_both (weights-second x y us (h, (k, hs)))
            (sum_from-root (λ t. one) x (y ∷ us) (h, (k, hs)))
        ∙ add_both (ap (λ (u : A). mul y u) (weights_one x us (h.1, hs)) ∙ Field.mul_one F y)
            (ap (λ (u : A). mul x u) (weights_one y us (k, hs)) ∙ Field.mul_one F x) in
      Field.mul_cancel F (add x y) _ _ (λ e. h.0 (Field.add_eq_zero F x y e))
        (whole ∙ add_comm y x ∙ sym (Field.mul_one F (add x y)))

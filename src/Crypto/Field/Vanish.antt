-- ===== src/Crypto/Field/Vanish.antt =====
-- Polynomials over a field that agree at given points: one has any value at zero that is asked for.
use wallet_sdk.Common.{ℕ, suc, ◌≤◌, ◌≡◌, ◌≢◌, refl, ap, sym, ◌∙◌, List, [], ◌∷◌, length, All, arith}
use wallet_sdk.Crypto.Field.{Field}
use wallet_sdk.Crypto.Field
use wallet_sdk.Crypto.Field.Interpolate
use wallet_sdk.Crypto.Field.Polynomial.{eval}

module _ {ℓ κ} {A : Type ℓ} (P Q : A → Type κ) where
  All-map : (xs : List A) → ((x : A) → P x → Q x) → All P xs → All Q xs
  All-map [] f h = tt
  All-map (x ∷ xs) f (h, hs) = (f x h, All-map xs f hs)

module _ {ℓ} {A : Type ℓ} (F : Field A) where
  open F use {
    zero, one, add, mul, inv, add_comm, add_assoc, zero_add, add_self, mul_comm, mul_assoc, one_mul,
    add_mul, mul_inv, one_zero,
  }

  abbrev sum : List A → List A → List A
  sum [] qs = qs
  sum (p ∷ ps) [] = p ∷ ps
  sum (p ∷ ps) (q ∷ qs) = add p q ∷ sum ps qs

  abbrev scale : A → List A → List A
  scale k [] = []
  scale k (p ∷ ps) = mul k p ∷ scale k ps

  -- The product of x + a over the points a.
  abbrev vanishing : List A → List A
  vanishing [] = one ∷ []
  vanishing (a ∷ xs) = sum (zero ∷ vanishing xs) (scale a (vanishing xs))

  eval-sum : (ps qs : List A) (t : A) → eval F (sum ps qs) t ≡ add (eval F ps t) (eval F qs t)
  eval-sum [] qs t = sym (zero_add _)
  eval-sum (p ∷ ps) [] t = sym (Field.add_zero F _)
  eval-sum (p ∷ ps) (q ∷ qs) t =
      ap (λ (s : A). add s (add p q))
        (ap (λ (s : A). mul s t) (eval-sum ps qs t) ∙ add_mul (eval F ps t) (eval F qs t) t)
      ∙ Field.add_interchange F _ _ p q

  eval-scale : (k : A) (ps : List A) (t : A) → eval F (scale k ps) t ≡ mul k (eval F ps t)
  eval-scale k [] t = sym (Field.mul_zero F k)
  eval-scale k (p ∷ ps) t =
      ap (λ (s : A). add s (mul k p))
        (ap (λ (s : A). mul s t) (eval-scale k ps t) ∙ mul_assoc k (eval F ps t) t)
      ∙ sym (Field.mul_add F k (mul (eval F ps t) t) p)

  eval-vanishing :
      (a : A) (xs : List A) (t : A)
      → eval F (vanishing (a ∷ xs)) t ≡ mul (add t a) (eval F (vanishing xs) t)
  eval-vanishing a xs t =
      let v = eval F (vanishing xs) t in
      eval-sum (zero ∷ vanishing xs) (scale a (vanishing xs)) t
      ∙ Interpolate.add_both F (Field.add_zero F (mul v t) ∙ mul_comm v t)
          (eval-scale a (vanishing xs) t)
      ∙ sym (add_mul t a v)

  -- It is zero at each of them, and not at zero if none of them is.
  vanishing-root : (xs : List A) → All (λ a. eval F (vanishing xs) a ≡ zero) xs
  vanishing-root [] = tt
  vanishing-root (a ∷ xs) =
      let here : mul (add a a) (eval F (vanishing xs) a) ≡ zero =
        ap (λ (s : A). mul s (eval F (vanishing xs) a)) (add_self a)
        ∙ Field.zero_mul F (eval F (vanishing xs) a) in
      (
        eval-vanishing a xs a ∙ here,
        All-map (λ b. eval F (vanishing xs) b ≡ zero) (λ b. eval F (vanishing (a ∷ xs)) b ≡ zero) xs
            (λ b e.
              eval-vanishing a xs b
              ∙ ap (λ (s : A). mul (add b a) s) e
              ∙ Field.mul_zero F (add b a))
            (vanishing-root xs),
      )

  vanishing-nonzero : (xs : List A) → All (λ a. a ≢ zero) xs → eval F (vanishing xs) zero ≢ zero
  vanishing-nonzero [] h e =
      one_zero (sym (ap (λ (s : A). add s one) (Field.zero_mul F zero) ∙ zero_add one) ∙ e)
  vanishing-nonzero (a ∷ xs) (h, hs) e =
      Field.mul_nonzero F a (eval F (vanishing xs) zero) h (vanishing-nonzero xs hs) (
        sym (
          eval-vanishing a xs zero
          ∙ ap (λ (s : A). mul s (eval F (vanishing xs) zero)) (zero_add a))
        ∙ e)

  length-scale : (k : A) (ps : List A) → length (scale k ps) ≡ length ps
  length-scale k [] = refl
  length-scale k (p ∷ ps) = ap suc (length-scale k ps)

  length-sum : (ps qs : List A) → length qs ≤ length ps → length (sum ps qs) ≡ length ps
  length-sum [] [] h = refl
  length-sum [] (q ∷ qs) h = absurd (omega arith)
  length-sum (p ∷ ps) [] h = refl
  length-sum (p ∷ ps) (q ∷ qs) h = ap suc (length-sum ps qs (omega arith))

  length-vanishing : (xs : List A) → length (vanishing xs) ≡ suc (length xs)
  length-vanishing [] = refl
  length-vanishing (a ∷ xs) =
      length-sum (zero ∷ vanishing xs) (scale a (vanishing xs))
        (omega (arith, length-scale a (vanishing xs)))
      ∙ ap suc (length-vanishing xs)

  -- The constant coefficient is the value at zero.
  constant_first :
      (ps : List A) {n : ℕ}
      → length ps ≡ suc n
      → (ds : List A) × (length ds ≡ n) × (ps ≡ eval F ps zero ∷ ds)
  constant_first [] h = absurd (omega arith)
  constant_first (p ∷ ps) h = (
    ps,
    omega arith,
    ap (λ (q : A). q ∷ ps)
        (sym (ap (λ (s : A). add s p) (Field.mul_zero F (eval F ps zero)) ∙ zero_add p)),
  )

  -- The same values at fewer points than there are coefficients, and the value `target` at zero.
  pub another :
      (c : A) (cs xs : List A) (target : A)
      → length xs ≤ length cs
      → All (λ a. a ≢ zero) xs
      → (ds : List A) × (length ds ≡ length cs)
        × All (λ a. eval F (target ∷ ds) a ≡ eval F (c ∷ cs) a) xs
  another c cs xs target few nonzero =
      let v = vanishing xs in
      let at_zero = eval F v zero in
      let k = mul (add c target) (inv at_zero) in
      let moved = sum (c ∷ cs) (scale k v) in
      let count =
        length-sum (c ∷ cs) (scale k v) (omega (arith, length-scale k v, length-vanishing xs)) in
      let value : (a : A) → eval F moved a ≡ add (eval F (c ∷ cs) a) (mul k (eval F v a)) = λ a.
        eval-sum (c ∷ cs) (scale k v) a
        ∙ ap (λ (s : A). add (eval F (c ∷ cs) a) s) (eval-scale k v a) in
      let start : eval F (c ∷ cs) zero ≡ c =
        ap (λ (s : A). add s c) (Field.mul_zero F (eval F cs zero)) ∙ zero_add c in
      let scaled : mul k at_zero ≡ add c target =
        mul_assoc (add c target) (inv at_zero) at_zero
        ∙ ap (λ (s : A). mul (add c target) s)
            (mul_comm (inv at_zero) at_zero ∙ mul_inv at_zero (vanishing-nonzero xs nonzero))
        ∙ Field.mul_one F (add c target) in
      let reached : eval F moved zero ≡ target =
        value zero ∙ Interpolate.add_both F start scaled ∙ Field.add_cancel F c target in
      let (ds, size, same) = constant_first moved count in
      let first : moved ≡ target ∷ ds = same ∙ ap (λ (q : A). q ∷ ds) reached in
      (
        ds,
        size,
        All-map (λ a. eval F v a ≡ zero) (λ a. eval F (target ∷ ds) a ≡ eval F (c ∷ cs) a) xs
            (λ a e.
              ap (λ (ps : List A). eval F ps a) (sym first)
              ∙ value a
              ∙ ap (λ (s : A). add (eval F (c ∷ cs) a) s)
                  (ap (λ (s : A). mul k s) e ∙ Field.mul_zero F k)
              ∙ Field.add_zero F (eval F (c ∷ cs) a))
            (vanishing-root xs),
      )

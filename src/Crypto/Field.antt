-- ===== src/Crypto/Field.antt =====
-- A field in which each element is its own opposite, as an interface: what interpolation needs of
-- the bytes that crypto/internal/shamir computes with.
pub mod Interpolate
pub mod Polynomial
pub mod Vanish
use wallet_sdk.Common.{◌≡◌, ◌≢◌, refl, ap, sym, ◌∙◌}

pub record Field {ℓ} (A : Type ℓ) : Type ℓ where
  pub zero : A
  pub one : A
  pub add : A → A → A
  pub mul : A → A → A
  pub inv : A → A
  pub add_comm : (a b : A) → add a b ≡ add b a
  pub add_assoc : (a b c : A) → add (add a b) c ≡ add a (add b c)
  pub zero_add : (a : A) → add zero a ≡ a
  pub add_self : (a : A) → add a a ≡ zero
  pub mul_comm : (a b : A) → mul a b ≡ mul b a
  pub mul_assoc : (a b c : A) → mul (mul a b) c ≡ mul a (mul b c)
  pub one_mul : (a : A) → mul one a ≡ a
  pub add_mul : (a b c : A) → mul (add a b) c ≡ add (mul a c) (mul b c)
  pub mul_inv : (a : A) → a ≢ zero → mul a (inv a) ≡ one
  pub one_zero : one ≢ zero

module _ {ℓ} {A : Type ℓ} (F : Field A) where
  open F use {
    zero, one, add, mul, inv, add_comm, add_assoc, zero_add, add_self, mul_comm, mul_assoc, one_mul,
    add_mul, mul_inv, one_zero,
  }

  pub add_zero : (a : A) → add a zero ≡ a
  add_zero a = add_comm a zero ∙ zero_add a

  pub mul_one : (a : A) → mul a one ≡ a
  mul_one a = mul_comm a one ∙ one_mul a

  pub add_cancel : (a b : A) → add a (add a b) ≡ b
  add_cancel a b = sym (add_assoc a a b) ∙ ap (λ (t : A). add t b) (add_self a) ∙ zero_add b

  pub add_eq_zero : (a b : A) → add a b ≡ zero → a ≡ b
  add_eq_zero a b e = sym (add_zero a) ∙ ap (λ (t : A). add a t) (sym e) ∙ add_cancel a b

  pub add_interchange : (a b c d : A) → add (add a b) (add c d) ≡ add (add a c) (add b d)
  add_interchange a b c d =
      let inner : add b (add c d) ≡ add c (add b d) =
        sym (add_assoc b c d) ∙ ap (λ (t : A). add t d) (add_comm b c) ∙ add_assoc c b d in
      add_assoc a b (add c d) ∙ ap (λ (t : A). add a t) inner ∙ sym (add_assoc a c (add b d))

  pub mul_interchange : (a b c d : A) → mul (mul a b) (mul c d) ≡ mul (mul a c) (mul b d)
  mul_interchange a b c d =
      let inner : mul b (mul c d) ≡ mul c (mul b d) =
        sym (mul_assoc b c d) ∙ ap (λ (t : A). mul t d) (mul_comm b c) ∙ mul_assoc c b d in
      mul_assoc a b (mul c d) ∙ ap (λ (t : A). mul a t) inner ∙ sym (mul_assoc a c (mul b d))

  pub mul_add : (a b c : A) → mul a (add b c) ≡ add (mul a b) (mul a c)
  mul_add a b c = rw (mul_comm a (add b c), mul_comm a b, mul_comm a c) (add_mul b c a)

  pub zero_mul : (a : A) → mul zero a ≡ zero
  zero_mul a =
      let twice : mul zero a ≡ add (mul zero a) (mul zero a) =
        ap (λ (t : A). mul t a) (sym (zero_add zero)) ∙ add_mul zero zero a in
      twice ∙ add_self (mul zero a)

  pub mul_zero : (a : A) → mul a zero ≡ zero
  mul_zero a = mul_comm a zero ∙ zero_mul a

  -- A factor that is not zero is cancelled.
  pub mul_cancel : (a b c : A) → a ≢ zero → mul a b ≡ mul a c → b ≡ c
  mul_cancel a b c h e =
      let undo : (t : A) → mul (inv a) (mul a t) ≡ t = λ t.
        sym (mul_assoc (inv a) a t)
        ∙ ap (λ (u : A). mul u t) (mul_comm (inv a) a ∙ mul_inv a h)
        ∙ one_mul t in
      sym (undo b) ∙ ap (λ (t : A). mul (inv a) t) e ∙ undo c

  pub mul_nonzero : (a b : A) → a ≢ zero → b ≢ zero → mul a b ≢ zero
  mul_nonzero a b h k e = k (mul_cancel a b zero h (e ∙ sym (mul_zero a)))

  pub inv_one : inv one ≡ one
  inv_one = sym (one_mul (inv one)) ∙ mul_inv one one_zero

  pub inv-mul : (a b : A) → a ≢ zero → b ≢ zero → inv (mul a b) ≡ mul (inv a) (inv b)
  inv-mul a b h k =
      let both = mul_nonzero a b h k in
      mul_cancel (mul a b) _ _ both (
        mul_inv (mul a b) both
        ∙ sym (
            mul_interchange a b (inv a) (inv b)
            ∙ ap (λ (t : A). mul t (mul b (inv b))) (mul_inv a h)
            ∙ one_mul (mul b (inv b))
            ∙ mul_inv b k))

-- ===== src/Common/Bits.antt =====
-- Masks and shifts on one byte as arithmetic, from tables that are checked by evaluation.
use Prim.Native.Nat.{ℕ, zero, suc, ◌+◌, ◌*◌, ◌/◌, ◌%◌, ◌<◌, bit_and, bit_or, compare, Ordering}
use mathlib.Core.Path.{◌≡◌, refl}
use mathlib.Core.Bool.{Bool, true, false, ◌&&◌}
use native.Mathlib.Omega.{arith}

-- Two functions agree below a bound.
agree_below : (ℕ → ℕ) → (ℕ → ℕ) → ℕ → Bool
agree_below f g zero = true
agree_below f g (suc n) =
    elim (compare (f n) (g n)) [ Ordering.eq ↦ true | _ ↦ false ] && agree_below f g n

agree_below→eq : (f g : ℕ → ℕ) (n : ℕ) → agree_below f g n ≡ true → (i : ℕ) → i < n → f i ≡ g i
unfolding agree_below
agree_below→eq f g zero e i h = absurd (omega arith)
agree_below→eq f g (suc n) e i h = ground (arith, agree_below→eq f g n (ground arith) i)

pub set_top_bit : (b : ℕ) → b < 256 → bit_or b 0x80 ≡ b % 128 + 128
unfolding agree_below
set_top_bit = agree_below→eq _ _ 256 refl

pub top_bit : (b : ℕ) → b < 256 → bit_and b 0x80 ≡ b / 128 * 128
unfolding agree_below
top_bit = agree_below→eq _ _ 256 refl

pub low_bits : (b : ℕ) → b < 256 → bit_and b 0x7f ≡ b % 128
unfolding agree_below
low_bits = agree_below→eq _ _ 256 refl

pub low_bit : (b : ℕ) → b < 256 → bit_and b 1 ≡ b % 2
unfolding agree_below
low_bit = agree_below→eq _ _ 256 refl

pub no_bits : (b : ℕ) → b < 256 → bit_and b 0 ≡ 0
unfolding agree_below
no_bits = agree_below→eq _ _ 256 refl

pub all_bits : (b : ℕ) → b < 256 → bit_and b 255 ≡ b
unfolding agree_below
all_bits = agree_below→eq _ _ 256 refl

pub or_nothing : (b : ℕ) → b < 256 → bit_or b 0 ≡ b
unfolding agree_below
or_nothing = agree_below→eq _ _ 256 refl

pub nothing_or : (b : ℕ) → b < 256 → bit_or 0 b ≡ b
unfolding agree_below
nothing_or = agree_below→eq _ _ 256 refl

-- ===== src/Go/Words.antt =====
-- Go's int64 as a bit pattern below 2^64: arithmetic wraps, and comparison reads the sign.
use wallet_sdk.Common.{ℕ, ◌+◌, ◌-◌, ◌*◌, ◌%◌, ◌^◌, ◌≡◌, Bool, true, ltb, refl, List, [], ◌∷◌, ◌/◌}

abbrev pub add_i64 : ℕ → ℕ → ℕ
add_i64 a b = (a + b) % 2 ^ 64

abbrev pub sub_i64 : ℕ → ℕ → ℕ
sub_i64 a b = (a + (2 ^ 64 - b)) % 2 ^ 64

abbrev pub mul_i64 : ℕ → ℕ → ℕ
mul_i64 a b = a * b % 2 ^ 64

-- a < b
abbrev pub lt_i64 : ℕ → ℕ → Bool
lt_i64 a b = ltb ((a + 2 ^ 63) % 2 ^ 64) ((b + 2 ^ 63) % 2 ^ 64)

minus_one_below : lt_i64 (2 ^ 64 - 1) 0 ≡ true
minus_one_below = refl

-- The low byte first: binary.LittleEndian.PutUint16, PutUint32 and PutUint64.
abbrev pub le16 : ℕ → List ℕ
le16 v = v % 256 ∷ v / 2 ^ 8 % 256 ∷ []

abbrev pub le32 : ℕ → List ℕ
le32 v = v % 256 ∷ v / 2 ^ 8 % 256 ∷ v / 2 ^ 16 % 256 ∷ v / 2 ^ 24 % 256 ∷ []

unfoldable pub le64 : ℕ → List ℕ
le64 v =
    v % 256
    ∷ v / 2 ^ 8 % 256
    ∷ v / 2 ^ 16 % 256
    ∷ v / 2 ^ 24 % 256
    ∷ v / 2 ^ 32 % 256
    ∷ v / 2 ^ 40 % 256
    ∷ v / 2 ^ 48 % 256
    ∷ v / 2 ^ 56 % 256
    ∷ []

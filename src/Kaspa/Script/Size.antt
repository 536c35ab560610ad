-- ===== src/Kaspa/Script/Size.antt =====
-- signing/kaspa/script.go: the size limit of the builder, and the panic of AddInt64.
use wallet_sdk.Common.{
  ℕ, ◌+◌, ◌%◌, ◌^◌, ◌≤◌, ◌<◌, ◌≡◌, refl, arith, none, some, [], ◌∷◌, ◌++◌, ltb, ◌==◌, Bytes, length,
  length-append, Option-cases, inl, inr, Bool-cases, ◌↔◌, Bool, true, false, ◌/◌, ◌≢◌,
}
use wallet_sdk.Go.Words.{lt_i64}
use wallet_sdk.Kaspa.Script.{
  ScriptBuilder, max_script_size, push_prefix, push_bytes, canonical_data_size, add_op, add_data,
  add_data_raw, add_int64, is_short_int, add_number, integer_exceeds, script_num_bytes,
  size_by_length, add_sign, little_endian, negate_i64,
}

length-push_prefix : (n : ℕ) → length (push_prefix n) + n ≡ size_by_length n
unfolding push_prefix size_by_length
length-push_prefix n = ground arith

-- The size that AddData checks is the size that it appends.
pub canonical_data_size_lem :
    (bytes : Bytes) → canonical_data_size bytes ≡ length (push_bytes bytes)
unfolding canonical_data_size push_bytes push_prefix
canonical_data_size_lem [] = refl
canonical_data_size_lem (x ∷ []) = ground arith
canonical_data_size_lem (x ∷ y ∷ xs) = ground (
  arith,
  length-push_prefix (length (x ∷ y ∷ xs)),
  length-append (push_prefix (length (x ∷ y ∷ xs))) (x ∷ y ∷ xs),
)

abbrev pub IsSized : ScriptBuilder → Type 0
IsSized b = length b.script ≤ max_script_size

add_op-IsSized : (opcode : ℕ) (b : ScriptBuilder) → IsSized b → IsSized (add_op opcode b)
unfolding add_op
add_op-IsSized opcode b h = ground (arith, length-append b.script (opcode ∷ []))

add_data-IsSized : (bytes : Bytes) (b : ScriptBuilder) → IsSized b → IsSized (add_data bytes b)
unfolding add_data add_data_raw
add_data-IsSized bytes b h =
    ground (arith, canonical_data_size_lem bytes, length-append b.script (push_bytes bytes))

add_number-IsSized :
    (val : ℕ) (b c : ScriptBuilder) → IsSized b → add_number val b ≡ some c → IsSized c
unfolding add_number
add_number-IsSized val b c h e = elim (Option-cases (script_num_bytes val)) [
  | inl p ↦ absurd (ground (arith, p, e))
  | inr (bytes, p) ↦
      let same : c ≡ add_data bytes b = ground (arith, p, e) in rw same (add_data-IsSized bytes b h)
]

add_int64-IsSized :
    (val : ℕ) (b c : ScriptBuilder) → IsSized b → add_int64 val b ≡ some c → IsSized c
unfolding add_int64
add_int64-IsSized val b c h e = elim (Option-cases b.error) [
  | inr (x, p) ↦ let same : c ≡ b = ground (arith, p, e) in rw same h
  | inl p ↦ elim (Bool-cases (ltb max_script_size (length b.script + 1))) [
    | inl full ↦
        let same : c ≡ record b { error = some integer_exceeds } = ground (arith, p, full, e) in
        rw same h
    | inr room ↦ elim (Bool-cases (val == 0)) [
      | inl z ↦ appended 0x00 (ground arith) (ground (arith, p, room, z, e))
      | inr nz ↦ elim (Bool-cases (is_short_int val)) [
        | inl s ↦ appended ((0x50 + val) % 256) (ground arith) (ground (arith, p, room, nz, s, e))
        | inr l ↦ add_number-IsSized val b c h (ground (arith, p, room, nz, l, e))
      ]
    ]
  ]
]
  where
    appended :
        (x : ℕ)
        → length b.script + 1 ≤ max_script_size
        → c ≡ record b { script = b.script ++ x ∷ [] }
        → IsSized c
    appended x k same = rw same (omega (arith, length-append b.script (x ∷ [])))

-- None of the builder's operations makes the script longer than 10000 bytes.
pub operations-IsSized :
    (b : ScriptBuilder)
    → IsSized b
    → ((opcode : ℕ) → IsSized (add_op opcode b))
      × ((bytes : Bytes) → IsSized (add_data bytes b))
      × ((val : ℕ) (c : ScriptBuilder) → add_int64 val b ≡ some c → IsSized c)
operations-IsSized b h = (
  λ opcode. add_op-IsSized opcode b h,
  λ bytes. add_data-IsSized bytes b h,
  λ val c. add_int64-IsSized val b c h,
)

-- The sign has a byte to go to, if the loop made one.
add_sign-ne-none : (neg : Bool) (x : ℕ) (xs : Bytes) → add_sign neg (x ∷ xs) ≢ none
unfolding add_sign
add_sign-ne-none neg x [] h = ground (arith, h)
add_sign-ne-none neg x (y ∷ xs) h = elim (Option-cases (add_sign neg (y ∷ xs))) [
  | inl e ↦ absurd (add_sign-ne-none neg y xs e)
  | inr (bytes, e) ↦ absurd (ground (arith, e, h))
]

-- The loop makes a byte of a positive int64, and none of another.
little_endian-cons :
    (n : ℕ) → lt_i64 0 n ≡ true → little_endian 8 n ≡ (n % 256) ∷ little_endian 7 (n / 2 ^ 8)
unfolding little_endian
little_endian-cons n h = rw h refl

little_endian-nil : (n : ℕ) → lt_i64 0 n ≡ false → little_endian 8 n ≡ []
unfolding little_endian
little_endian-nil n h = rw h refl

sign-none : (neg : Bool) (n : ℕ) → (add_sign neg (little_endian 8 n) ≡ none) ↔ (lt_i64 0 n ≡ false)
unfolding add_sign
sign-none neg n = elim (Bool-cases (lt_i64 0 n)) [
  | inl p ↦
      let e = little_endian-cons n p in
      (
        λ k. absurd (add_sign-ne-none neg (n % 256) (little_endian 7 (n / 2 ^ 8)) (cc (e, k))),
        λ k. absurd (cc (p, k)),
      )
  | inr z ↦ (λ k. z, λ k. rw (little_endian-nil n z) refl)
]

script_num_bytes-none : (val : ℕ) → val < 2 ^ 64 → (script_num_bytes val ≡ none) ↔ (val ≡ 2 ^ 63)
unfolding script_num_bytes negate_i64
script_num_bytes-none val fits = (
  λ p. ground (arith, p, (sign-none true (negate_i64 val)).0, (sign-none false val).0),
  λ p. ground (arith, p, (sign-none true (negate_i64 val)).1),
)

add_number-none :
    (val : ℕ) (b : ScriptBuilder) → val < 2 ^ 64 → (add_number val b ≡ none) ↔ (val ≡ 2 ^ 63)
unfolding add_number
add_number-none val b fits = elim (Option-cases (script_num_bytes val)) [
  | inl p ↦ (λ e. (script_num_bytes-none val fits).0 p, λ e. ground (arith, p))
  | inr (bytes, p) ↦ (
    λ e. absurd (ground (arith, p, e)),
    λ e. absurd (ground (arith, p, (script_num_bytes-none val fits).1 e)),
  )
]

-- On a builder with no error and with room, AddInt64 of an int64 panics for -2^63 and for no other
-- value.
pub add_int64_panics :
    (val : ℕ) (b : ScriptBuilder)
    → val < 2 ^ 64
    → b.error ≡ none
    → length b.script < max_script_size
    → (add_int64 val b ≡ none) ↔ (val ≡ 2 ^ 63)
unfolding add_int64 is_short_int
add_int64_panics val b fits e h = (
  λ p. ground (arith, p, (add_number-none val b fits).0),
  λ p. ground (arith, (add_number-none val b fits).1 p),
)

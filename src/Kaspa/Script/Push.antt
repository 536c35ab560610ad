-- ===== src/Kaspa/Script/Push.antt =====
-- signing/kaspa/script.go: parseScript reads back what AddData appends.
use wallet_sdk.Common.{
  ℕ, zero, suc, ◌+◌, ◌^◌, ◌≤◌, ◌<◌, ◌≡◌, refl, arith, List, [], ◌∷◌, ◌++◌, ltb, leb, ◌==◌,
  if◌then◌else◌, Bytes, length, length-append, take-append, drop-append, Result, ok, err, ◌>>=◌,
  map, append_assoc, All, ◌∙◌, Bool-cases, inl, inr,
}
use wallet_sdk.Kaspa.Script.{
  ScriptError, out_of_fuel, ScriptToken, push_prefix, push_bytes, next_token, parse_loop,
  parse_script, take_data, push_data1, push_data2, push_data4,
}

-- The opcode in front of data of length n.
abbrev opcode_for : ℕ → ℕ
opcode_for n =
    if ltb n 0x4c then n else if leb n 0xff then 0x4c else if leb n 0xffff then 0x4d else 0x4e

-- The token that stands for the data: a short form has no data.
unfoldable pub token_of : Bytes → ScriptToken
token_of [] = record { opcode = 0x00; bytes = [] }
token_of (x ∷ []) =
    if x == 0
    then record { opcode = 0x00; bytes = [] }
    else if leb x 16
    then record { opcode = 0x50 + x; bytes = [] }
    else if x == 0x81
    then record { opcode = 0x4f; bytes = [] }
    else record { opcode = 0x01; bytes = x ∷ [] }
token_of (x ∷ y ∷ xs) = record { opcode = opcode_for (length (x ∷ y ∷ xs)); bytes = x ∷ y ∷ xs }

-- One round of the parser, on whatever starts with an opcode.
pub next_of : Bytes → Result ScriptError (ScriptToken × Bytes)
next_of [] = err out_of_fuel
next_of (opcode ∷ rest) = next_token opcode rest

pub take_data-append :
    (opcode n : ℕ) (bytes rest : Bytes)
    → n ≡ length bytes
    → take_data opcode n (bytes ++ rest) ≡ ok (record { opcode = opcode; bytes = bytes }, rest)
unfolding take_data
take_data-append opcode n bytes rest e =
    rw e (ground (arith, length-append bytes rest, take-append bytes rest, drop-append bytes rest))

next_of-push_prefix :
    (n : ℕ) (bytes rest : Bytes)
    → n ≡ length bytes
    → 0 < n
    → n < 2 ^ 32
    → next_of (push_prefix n ++ (bytes ++ rest))
      ≡ ok (record { opcode = opcode_for n; bytes = bytes }, rest)
unfolding next_of next_token push_data1 push_data2 push_data4 push_prefix
next_of-push_prefix n bytes rest e pos small = elim (Bool-cases (ltb n 0x4c)) [
  | inl h1 ↦ rw h1 (ground (arith, h1, take_data-append n n bytes rest e))
  | inr h1 ↦ rw h1 (elim (Bool-cases (leb n 0xff)) [
    | inl h2 ↦ rw h2 (take_data-append 0x4c n bytes rest e)
    | inr h2 ↦ rw h2 (elim (Bool-cases (leb n 0xffff)) [
      | inl h3 ↦ rw h3 (take_data-append 0x4d _ bytes rest (ground arith))
      | inr h3 ↦ rw h3 (take_data-append 0x4e _ bytes rest (ground arith))
    ])
  ])
]

short_int :
    (x : ℕ) (rest : Bytes)
    → x ≤ 16
    → next_of ((0x50 + x) ∷ rest) ≡ ok (record { opcode = 0x50 + x; bytes = [] }, rest)
unfolding next_of next_token
short_int x rest h = ground arith

pub next_of-push_bytes :
    (bytes rest : Bytes)
    → length bytes < 2 ^ 32
    → next_of (push_bytes bytes ++ rest) ≡ ok (token_of bytes, rest)
unfolding push_bytes token_of
next_of-push_bytes [] rest h = unfold next_of next_token in refl
next_of-push_bytes (x ∷ []) rest h = elim (Bool-cases (x == 0)) [
  | inl h0 ↦ rw h0 (unfold next_of next_token in refl)
  | inr h0 ↦ rw h0 (elim (Bool-cases (leb x 16)) [
    | inl h1 ↦ rw h1 (short_int x rest (ground arith))
    | inr h1 ↦ rw h1 (elim (Bool-cases (x == 0x81)) [
      | inl h2 ↦ rw h2 (unfold next_of next_token in refl)
      | inr h2 ↦ rw h2 (next_of-push_prefix 1 (x ∷ []) rest refl (omega arith) (omega arith))
    ])
  ])
]
next_of-push_bytes (x ∷ y ∷ xs) rest h =
    rw append_assoc (next_of-push_prefix _ (x ∷ y ∷ xs) rest refl (omega arith) h)

-- The scripts that AddData makes, piece by piece.
abbrev pub pushes : List Bytes → Bytes
pushes [] = []
pushes (bytes ∷ more) = push_bytes bytes ++ pushes more

pub parse_loop-next_of :
    (fuel : ℕ) (script : Bytes) {token : ScriptToken} {rest : Bytes}
    → next_of script ≡ ok (token, rest)
    → parse_loop (suc fuel) script ≡ (parse_loop fuel rest >>= λ tokens. ok (token ∷ tokens))
unfolding next_of parse_loop
parse_loop-next_of fuel [] e = cc
parse_loop-next_of fuel (opcode ∷ rest) e = rw e

parse_loop-pushes :
    (pieces : List Bytes) (fuel : ℕ)
    → All (λ b. length b < 2 ^ 32) pieces
    → length pieces ≤ fuel
    → parse_loop fuel (pushes pieces) ≡ ok (map token_of pieces)
parse_loop-pushes [] fuel h k = unfold parse_loop in refl
parse_loop-pushes (p ∷ ps) zero h k = absurd (omega arith)
parse_loop-pushes (p ∷ ps) (suc fuel) (hp, hps) k =
    parse_loop-next_of fuel (push_bytes p ++ pushes ps) (next_of-push_bytes p (pushes ps) hp)
    ∙ rw (parse_loop-pushes ps fuel hps (omega arith))

push_bytes-ne-nil : (bytes : Bytes) → 0 < length (push_bytes bytes)
unfolding push_bytes push_prefix
push_bytes-ne-nil [] = omega arith
push_bytes-ne-nil (x ∷ []) = ground arith
push_bytes-ne-nil (x ∷ y ∷ xs) =
    ground (arith, length-append (push_prefix (length (x ∷ y ∷ xs))) (x ∷ y ∷ xs))

length-pushes : (pieces : List Bytes) → length pieces ≤ length (pushes pieces)
length-pushes [] = omega arith
length-pushes (p ∷ ps) =
    omega (arith, length-append (push_bytes p) (pushes ps), push_bytes-ne-nil p, length-pushes ps)

-- parseScript splits the bytes that AddData appends for any pieces of data, each shorter than
-- 2^32 bytes, into one token for each piece, in their order, with the piece as its data unless it
-- has one of the forms of a single byte.
pub parse_script-pushes :
    (pieces : List Bytes)
    → All (λ b. length b < 2 ^ 32) pieces
    → parse_script (pushes pieces) ≡ ok (map token_of pieces)
unfolding parse_script
parse_script-pushes pieces h = parse_loop-pushes pieces _ h (length-pushes pieces)

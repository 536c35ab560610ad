-- ===== src/Kaspa/Script/Classes.antt =====
-- signing/kaspa/script.go: the scripts of addresses are parsed and classified as what they are.
use wallet_sdk.Common.{
  ℕ, suc, ◌≤◌, ◌<◌, ◌≡◌, refl, arith, true, none, List, [], ◌∷◌, ◌&&◌, ◌++◌, ltb, leb, Bytes,
  length, length-append, ok, ◌>>=◌, ◌∙◌,
}
use wallet_sdk.Kaspa.Script.Size.{canonical_data_size_lem}
use wallet_sdk.Kaspa.Script.Push.{take_data-append}
use wallet_sdk.Kaspa.Script.{
  ScriptBuilder, non_standard, ScriptToken, ScriptClass, pub_key, pub_key_ecdsa, script_hash,
  push_prefix, push_bytes, next_token, parse_loop, parse_script, pay_to_address_script,
  classify_script, add_op, add_data, finish_script, add_data_raw, new_script_builder,
}

-- The version of an address with the length of its payload, and its class.
pub data IsAddress : ℕ → Bytes → ScriptClass → Type 0 where
  schnorr : {payload : Bytes} → length payload ≡ 32 → IsAddress 0x00 payload pub_key
  ecdsa : {payload : Bytes} → length payload ≡ 33 → IsAddress 0x01 payload pub_key_ecdsa
  hashed : {payload : Bytes} → length payload ≡ 32 → IsAddress 0x08 payload script_hash

abbrev op_token : ℕ → ScriptToken
op_token opcode = record { opcode = opcode; bytes = [] }

abbrev data_token : Bytes → ScriptToken
data_token bytes = record { opcode = length bytes; bytes = bytes }

-- The tokens of a class of scripts over a payload.
abbrev pub class_tokens : ScriptClass → Bytes → List ScriptToken
class_tokens non_standard payload = []
class_tokens pub_key payload = data_token payload ∷ op_token 0xac ∷ []
class_tokens pub_key_ecdsa payload = data_token payload ∷ op_token 0xab ∷ []
class_tokens script_hash payload = op_token 0xaa ∷ data_token payload ∷ op_token 0x87 ∷ []

push_bytes-plain :
    (bytes : Bytes)
    → 1 < length bytes
    → length bytes < 0x4c
    → push_bytes bytes ≡ length bytes ∷ bytes
unfolding push_bytes push_prefix
push_bytes-plain [] h k = absurd (omega arith)
push_bytes-plain (x ∷ []) h k = absurd (omega arith)
push_bytes-plain (x ∷ y ∷ xs) h k = ground arith

add_data-plain :
    (bytes : Bytes) (b : ScriptBuilder)
    → b.error ≡ none
    → 1 < length bytes
    → length bytes < 0x4c
    → length b.script < 100
    → add_data bytes b ≡ record b { script = b.script ++ length bytes ∷ bytes }
unfolding add_data_raw
add_data-plain bytes b e h k l =
    let plain : push_bytes bytes ≡ length bytes ∷ bytes = push_bytes-plain bytes h k in
    unfold add_data in ground (arith, canonical_data_size_lem bytes, plain)

next_data :
    (bytes rest : Bytes)
    → 1 < length bytes
    → length bytes < 0x4c
    → next_token (length bytes) (bytes ++ rest) ≡ ok (data_token bytes, rest)
unfolding next_token
next_data bytes rest h k =
    let pushes : (leb 0x01 (length bytes) && ltb (length bytes) 0x4c) ≡ true = ground arith in
    rw pushes (take_data-append (length bytes) (length bytes) bytes rest refl)

parse_data :
    (fuel : ℕ) (bytes rest : Bytes)
    → 1 < length bytes
    → length bytes < 0x4c
    → parse_loop (suc fuel) (length bytes ∷ (bytes ++ rest))
      ≡ (parse_loop fuel rest >>= λ tokens. ok (data_token bytes ∷ tokens))
unfolding parse_loop
parse_data fuel bytes rest h k = rw (next_data bytes rest h k)

-- An opcode that pushes nothing.
parse_op :
    (fuel opcode : ℕ) (rest : Bytes)
    → 0x4f ≤ opcode
    → parse_loop (suc fuel) (opcode ∷ rest)
      ≡ (parse_loop fuel rest >>= λ tokens. ok (op_token opcode ∷ tokens))
unfolding parse_loop next_token
parse_op fuel opcode rest h = ground arith

parse_end : (fuel : ℕ) → parse_loop fuel [] ≡ ok []
unfolding parse_loop
parse_end fuel = refl

parse_script_lem :
    (n : ℕ) (script : Bytes) → length script ≡ n → parse_script script ≡ parse_loop n script
unfolding parse_script
parse_script_lem n script e = rw e

-- The parse of a payload and an opcode, and of those behind another opcode.
parse_locked :
    (payload : Bytes) (opcode : ℕ)
    → 1 < length payload
    → length payload < 0x4c
    → 0x4f ≤ opcode
    → parse_script (length payload ∷ (payload ++ opcode ∷ []))
      ≡ ok (data_token payload ∷ op_token opcode ∷ [])
parse_locked payload opcode h k l =
    parse_script_lem (suc (suc (length payload))) (length payload ∷ (payload ++ opcode ∷ []))
      (omega (arith, length-append payload (opcode ∷ [])))
    ∙ simp (
      parse_data (suc (length payload)) payload (opcode ∷ []) h k,
      parse_op (length payload) opcode [] l,
      parse_end (length payload),
    )

parse_hashed :
    (payload : Bytes) (first opcode : ℕ)
    → 1 < length payload
    → length payload < 0x4c
    → 0x4f ≤ first
    → 0x4f ≤ opcode
    → parse_script (first ∷ length payload ∷ (payload ++ opcode ∷ []))
      ≡ ok (op_token first ∷ data_token payload ∷ op_token opcode ∷ [])
parse_hashed payload first opcode h k l m =
    parse_script_lem (suc (suc (suc (length payload))))
      (first ∷ length payload ∷ (payload ++ opcode ∷ []))
      (omega (arith, length-append payload (opcode ∷ [])))
    ∙ simp (
      parse_op (suc (suc (length payload))) first (length payload ∷ (payload ++ opcode ∷ [])) l,
      parse_data (suc (length payload)) payload (opcode ∷ []) h k,
      parse_op (length payload) opcode [] m,
      parse_end (length payload),
    )

-- For the versions 0, 1 and 8 with payloads of 32, 33 and 32 bytes, payToAddressScript succeeds,
-- parseScript splits its script into the payload and the opcodes around it, and classifyScript
-- finds the class that belongs to the version.
pub classify-pay_to_address_script :
    {version : ℕ} {payload : Bytes} {class : ScriptClass}
    → IsAddress version payload class
    → (bytes : Bytes) × (pay_to_address_script version payload ≡ ok bytes)
      × (parse_script bytes ≡ ok (class_tokens class payload))
      × (classify_script (class_tokens class payload) ≡ class)
unfolding pay_to_address_script classify_script add_op finish_script
classify-pay_to_address_script (schnorr {payload} h) = (
  length payload ∷ (payload ++ 0xac ∷ []),
  rw (add_data-plain payload new_script_builder refl (omega arith) (omega arith) (omega arith))
      (ground (arith, h)),
  parse_locked payload 0xac (omega arith) (omega arith) (omega arith),
  ground (arith, h),
)
classify-pay_to_address_script (ecdsa {payload} h) = (
  length payload ∷ (payload ++ 0xab ∷ []),
  rw (add_data-plain payload new_script_builder refl (omega arith) (omega arith) (omega arith))
      (ground (arith, h)),
  parse_locked payload 0xab (omega arith) (omega arith) (omega arith),
  ground (arith, h),
)
classify-pay_to_address_script (hashed {payload} h) = (
  0xaa ∷ length payload ∷ (payload ++ 0x87 ∷ []),
  rw
      (add_data-plain payload (record { script = 0xaa ∷ []; error = none }) refl (omega arith)
        (omega arith) (omega arith))
      (ground (arith, h, length-append payload (0x87 ∷ []))),
  parse_hashed payload 0xaa 0x87 (omega arith) (omega arith) (omega arith) (omega arith),
  ground (arith, h),
)

-- ===== src/Kaspa/Script.antt =====
-- signing/kaspa/script.go: the script builder, the scripts of addresses, the parser of scripts.
-- A byte is a number below 256, and the int64 of AddInt64 its bit pattern.
pub mod Size
pub mod Push
pub mod Classes
use wallet_sdk.Common.{
  ℕ, zero, suc, ◌+◌, ◌-◌, ◌*◌, ◌/◌, ◌%◌, ◌^◌, ◌≡◌, refl, Bool, true, false, ◌&&◌, ◌||◌, Option,
  none, some, List, [], ◌∷◌, ◌++◌, ltb, leb, ◌==◌, if◌then◌else◌, Bytes, length, take, drop, Result,
  ok, err, ◌>>=◌, bit_or, bit_and,
}
use wallet_sdk.Go.Words.{lt_i64, le16, le32}

abbrev pub max_script_size : ℕ
max_script_size = 10000

abbrev pub max_script_element_size : ℕ
max_script_element_size = 520

pub data ScriptError : Type 0 where
  opcode_exceeds data_exceeds element_exceeds integer_exceeds : ScriptError
  unsupported_version : ℕ → ScriptError
  malformed_push_data1 malformed_push_data2 malformed_push_data4 : ScriptError
  not_enough_data : ℕ → ScriptError
  out_of_fuel : ScriptError

pub data ScriptClass : Type 0 where
  non_standard pub_key pub_key_ecdsa script_hash : ScriptClass

pub record ScriptBuilder : Type 0 where
  pub script : Bytes
  pub error : Option ScriptError

abbrev pub new_script_builder : ScriptBuilder
new_script_builder = record { script = []; error = none }

unfoldable pub add_op : ℕ → ScriptBuilder → ScriptBuilder
add_op opcode b = elim b.error [
  | some e ↦ b
  | none ↦
      if ltb max_script_size (length b.script + 1)
      then record b { error = some opcode_exceeds }
      else record b { script = b.script ++ opcode ∷ [] }
]

-- What the length of the data takes in front of it.
unfoldable pub push_prefix : ℕ → Bytes
push_prefix n =
    if ltb n 0x4c
    then n ∷ []
    else if leb n 0xff
    then 0x4c ∷ n ∷ []
    else if leb n 0xffff
    then 0x4d ∷ le16 n
    else 0x4e ∷ le32 n

-- The bytes that addData appends: a short form of one byte, or the data behind its length.
unfoldable pub push_bytes : Bytes → Bytes
unfolding push_prefix
push_bytes [] = 0x00 ∷ []
push_bytes (x ∷ []) =
    if x == 0
    then 0x00 ∷ []
    else if leb x 16
    then (0x50 + x) ∷ []
    else if x == 0x81
    then 0x4f ∷ []
    else push_prefix 1 ++ x ∷ []
push_bytes (x ∷ y ∷ xs) = push_prefix (length (x ∷ y ∷ xs)) ++ x ∷ y ∷ xs

unfoldable pub add_data_raw : Bytes → ScriptBuilder → ScriptBuilder
unfolding push_bytes
add_data_raw bytes b = record b { script = b.script ++ push_bytes bytes }

size_by_length : ℕ → ℕ
size_by_length n =
    if ltb n 0x4c
    then 1 + n
    else if leb n 0xff
    then 2 + n
    else if leb n 0xffff
    then 3 + n
    else 5 + n

unfoldable pub canonical_data_size : Bytes → ℕ
unfolding size_by_length
canonical_data_size [] = 1
canonical_data_size (x ∷ []) = if leb x 16 then 1 else if x == 0x81 then 1 else size_by_length 1
canonical_data_size (x ∷ y ∷ xs) = size_by_length (length (x ∷ y ∷ xs))

unfoldable pub add_data : Bytes → ScriptBuilder → ScriptBuilder
unfolding canonical_data_size add_data_raw
add_data bytes b = elim b.error [
  | some e ↦ b
  | none ↦
      if ltb max_script_size (length b.script + canonical_data_size bytes)
      then record b { error = some data_exceeds }
      else if ltb max_script_element_size (length bytes)
      then record b { error = some element_exceeds }
      else add_data_raw bytes b
]

-- The loop `for n > 0`, with the int64's sign: the bytes of n, the low byte first. Eight rounds are
-- enough for an int64.
little_endian : ℕ → ℕ → Bytes
little_endian zero n = []
little_endian (suc fuel) n =
    let rest = little_endian fuel (n / 2 ^ 8) in if lt_i64 0 n then n % 256 ∷ rest else []

-- The sign: a byte of its own where the top bit is taken, or the top bit of the last byte. With no
-- byte the index of the last one panics, which is `none`.
add_sign : Bool → Bytes → Option Bytes
add_sign neg [] = none
add_sign neg (x ∷ []) =
    if bit_and x 0x80 == 0
    then if neg then some (bit_or x 0x80 ∷ []) else some (x ∷ [])
    else if neg
    then some (x ∷ 0x80 ∷ [])
    else some (x ∷ 0x00 ∷ [])
add_sign neg (x ∷ y ∷ xs) = elim (add_sign neg (y ∷ xs)) [ none ↦ none | some ys ↦ some (x ∷ ys) ]

-- `n = -n` of a negative int64, which wraps.
negate_i64 : ℕ → ℕ
negate_i64 n = (2 ^ 64 - n) % 2 ^ 64

-- serializeScriptNum of an int64; `none` is its panic.
unfoldable pub script_num_bytes : ℕ → Option Bytes
unfolding little_endian add_sign negate_i64
script_num_bytes n =
    if n == 0
    then some []
    else if lt_i64 n 0
    then add_sign true (little_endian 8 (negate_i64 n))
    else add_sign false (little_endian 8 n)

-- -1 and the numbers from 1 to 16.
unfoldable pub is_short_int : ℕ → Bool
is_short_int val = val == 2 ^ 64 - 1 || (leb 1 val && leb val 16)

-- The rest of AddInt64 behind its checks; `none` is a panic.
unfoldable pub add_number : ℕ → ScriptBuilder → Option ScriptBuilder
unfolding script_num_bytes add_data
add_number val b = elim (script_num_bytes val) [
  | none ↦ none
  | some bytes ↦ some (add_data bytes b)
]

unfoldable pub add_int64 : ℕ → ScriptBuilder → Option ScriptBuilder
add_int64 val b = elim b.error [
  | some e ↦ some b
  | none ↦
      if ltb max_script_size (length b.script + 1)
      then some (record b { error = some integer_exceeds })
      else if val == 0
      then some (record b { script = b.script ++ 0x00 ∷ [] })
      else if is_short_int val
      then some (record b { script = b.script ++ ((0x50 + val) % 256) ∷ [] })
      else add_number val b
]

-- Script(): the bytes and the error.
unfoldable pub finish_script : ScriptBuilder → Result ScriptError Bytes
finish_script b = elim b.error [ none ↦ ok b.script | some e ↦ err e ]

unfoldable pub pay_to_script_hash_script : (Bytes → Bytes) → Bytes → Result ScriptError Bytes
unfolding finish_script add_op add_data
pay_to_script_hash_script hash_blake2b redeem_script =
    finish_script
      (add_op 0x87 (add_data (hash_blake2b redeem_script) (add_op 0xaa new_script_builder)))

unfoldable pub pay_to_address_script : ℕ → Bytes → Result ScriptError Bytes
unfolding finish_script add_op add_data
pay_to_address_script version payload =
    if version == 0x00
    then finish_script (add_op 0xac (add_data payload new_script_builder))
    else if version == 0x01
    then finish_script (add_op 0xab (add_data payload new_script_builder))
    else if version == 0x08
    then finish_script (add_op 0x87 (add_data payload (add_op 0xaa new_script_builder)))
    else err (unsupported_version version)

pub record ScriptToken : Type 0 where
  pub opcode : ℕ
  pub bytes : Bytes

-- The data of `n` bytes that stand next, and what follows them.
pub take_data : ℕ → ℕ → Bytes → Result ScriptError (ScriptToken × Bytes)
take_data opcode n rest =
    if ltb (length rest) n
    then err (not_enough_data opcode)
    else ok (record { opcode = opcode; bytes = take n rest }, drop n rest)

push_data1 : Bytes → Result ScriptError (ScriptToken × Bytes)
unfolding take_data
push_data1 [] = err malformed_push_data1
push_data1 (n ∷ rest) = take_data 0x4c n rest

push_data2 : Bytes → Result ScriptError (ScriptToken × Bytes)
unfolding take_data
push_data2 (a ∷ b ∷ rest) = take_data 0x4d (a + b * 2 ^ 8) rest
push_data2 _ = err malformed_push_data2

push_data4 : Bytes → Result ScriptError (ScriptToken × Bytes)
unfolding take_data
push_data4 (a ∷ b ∷ c ∷ d ∷ rest) = take_data 0x4e (a + b * 2 ^ 8 + c * 2 ^ 16 + d * 2 ^ 24) rest
push_data4 _ = err malformed_push_data4

-- One round of the loop: the token at the opcode, and what follows it.
unfoldable pub next_token : ℕ → Bytes → Result ScriptError (ScriptToken × Bytes)
unfolding take_data push_data1 push_data2 push_data4
next_token opcode rest =
    if leb 0x01 opcode && ltb opcode 0x4c
    then take_data opcode opcode rest
    else if opcode == 0x4c
    then push_data1 rest
    else if opcode == 0x4d
    then push_data2 rest
    else if opcode == 0x4e
    then push_data4 rest
    else ok (record { opcode = opcode; bytes = [] }, rest)

pub parse_loop : ℕ → Bytes → Result ScriptError (List ScriptToken)
parse_loop fuel [] = ok []
parse_loop zero (opcode ∷ rest) = err out_of_fuel
parse_loop (suc fuel) (opcode ∷ rest) = do
  next ← next_token opcode rest
  tokens ← parse_loop fuel next.1
  ok (next.0 ∷ tokens)

-- Each round takes a byte at least.
unfoldable pub parse_script : Bytes → Result ScriptError (List ScriptToken)
unfolding parse_loop
parse_script script = parse_loop (length script) script

unfoldable pub classify_script : List ScriptToken → ScriptClass
classify_script (t0 ∷ t1 ∷ []) =
    if t0.opcode == 0x20 && t1.opcode == 0xac
    then pub_key
    else if t0.opcode == 0x21 && t1.opcode == 0xab
    then pub_key_ecdsa
    else non_standard
classify_script (t0 ∷ t1 ∷ t2 ∷ []) =
    if t0.opcode == 0xaa && (t1.opcode == 0x20 && t2.opcode == 0x87)
    then script_hash
    else non_standard
classify_script _ = non_standard

-- ===== src/Sui/Bcs.antt =====
-- signing/sui/bcs.go: the encoder, which keeps its first error, and buildSuiTransfer. The function
-- base58.Decode of btcd is a parameter.
pub mod Transaction
pub mod Write
pub mod Refine
use wallet_sdk.Common.{
  ℕ, zero, suc, ◌+◌, ◌-◌, ◌%◌, ◌^◌, Bool, ◌&&◌, ◌==◌, ltb, if◌then◌else◌, Option, none, some, List,
  [], ◌∷◌, ◌++◌, Bytes, length, replicate, Result, ok, err,
}
use wallet_sdk.Go.Words.{le16, le64}
use wallet_sdk.Go.Hex.{hex_decode, decoded}
use wallet_sdk.Codec.Uvarint.{uvarint}

pub record SuiObjectRef : Type 0 where
  pub object_id : Bytes
  pub version : ℕ
  pub digest : Bytes

pub data EncError : Type 0 where
  hex_digits address_length : EncError

pub record SuiEnc : Type 0 where
  pub buf : Bytes
  pub failure : Option EncError

unfoldable pub append : Bytes → SuiEnc → SuiEnc
append bytes e = record { buf = e.buf ++ bytes; failure = e.failure }

abbrev pub u8 : ℕ → SuiEnc → SuiEnc
u8 v e = append (v ∷ []) e

abbrev pub u16 : ℕ → SuiEnc → SuiEnc
u16 v e = append (le16 v) e

abbrev pub u64 : ℕ → SuiEnc → SuiEnc
u64 v e = append (le64 v) e

abbrev pub uleb : ℕ → SuiEnc → SuiEnc
uleb v e = append (uvarint v) e

abbrev pub len_prefixed : Bytes → SuiEnc → SuiEnc
len_prefixed b e = append b (uleb (length b) e)

-- strings.TrimPrefix by "0x" and "0X", with x the second letter.
abbrev pub trim_prefix : ℕ → Bytes → Bytes
trim_prefix x [] = []
trim_prefix x (a ∷ []) = a ∷ []
trim_prefix x (a ∷ b ∷ s) = if a == b'0' && b == x then s else a ∷ b ∷ s

abbrev pub even_digits : Bytes → Bytes
even_digits s = if length s % 2 == 0 then s else b'0' ∷ s

-- The 32 bytes that address appends, or its error.
unfoldable pub parse_address : Bytes → Result EncError Bytes
parse_address addr =
    elim (decoded (hex_decode (even_digits (trim_prefix b'X' (trim_prefix b'x' addr))))) [
      | none ↦ err hex_digits
      | some b ↦
          if ltb 32 (length b) then err address_length else ok (replicate (32 - length b) 0 ++ b)
    ]

unfoldable pub add_parsed : Result EncError Bytes → SuiEnc → SuiEnc
add_parsed (err fault) e = record { buf = e.buf; failure = some fault }
add_parsed (ok bytes) e = append bytes e

unfoldable pub address : Bytes → SuiEnc → SuiEnc
address addr e = elim e.failure [ some fault ↦ e | none ↦ add_parsed (parse_address addr) e ]

abbrev pub arg_gas_coin : SuiEnc → SuiEnc
arg_gas_coin e = u8 0 e

abbrev pub arg_input : ℕ → SuiEnc → SuiEnc
arg_input i e = u16 i (u8 1 e)

abbrev pub arg_result : ℕ → SuiEnc → SuiEnc
arg_result i e = u16 i (u8 2 e)

abbrev pub pure_u64 : ℕ → SuiEnc → SuiEnc
pure_u64 v e = u64 v (uleb 8 (u8 0 e))

abbrev pub pure_address : Bytes → SuiEnc → SuiEnc
pure_address addr e = address addr (uleb 32 (u8 0 e))

-- for i := from; i < from + n; i++ { e.argInput(uint16(i)) }
unfoldable pub arg_inputs : ℕ → ℕ → SuiEnc → SuiEnc
arg_inputs from zero e = e
arg_inputs from (suc n) e = arg_inputs (suc from) n (arg_input (from % 2 ^ 16) e)

unfoldable pub outcome : SuiEnc → Result EncError Bytes
outcome e = elim e.failure [ some fault ↦ err fault | none ↦ ok e.buf ]

module _ (base58_decode : Bytes → Bytes) where
  abbrev pub payment_ref : SuiObjectRef → SuiEnc → SuiEnc
  payment_ref ref e =
      len_prefixed (base58_decode ref.digest) (u64 ref.version (address ref.object_id e))

  abbrev pub object_input : SuiObjectRef → SuiEnc → SuiEnc
  object_input ref e =
      len_prefixed (base58_decode ref.digest)
        (u64 ref.version (address ref.object_id (u8 0 (u8 1 e))))

  unfoldable pub object_inputs : List SuiObjectRef → SuiEnc → SuiEnc
  object_inputs [] e = e
  object_inputs (t ∷ ts) e = object_inputs ts (object_input t e)

  unfoldable pub payment_refs : List SuiObjectRef → SuiEnc → SuiEnc
  payment_refs [] e = e
  payment_refs (p ∷ ps) e = payment_refs ps (payment_ref p e)

  abbrev pub no_tokens : Bytes → ℕ → SuiEnc → SuiEnc
  no_tokens recipient amount e =
      let inputs = pure_address recipient (pure_u64 amount (uleb 2 e)) in
      let split = arg_input 0 (uleb 1 (arg_gas_coin (u8 2 (uleb 2 inputs)))) in
      arg_input 1 (arg_result 0 (uleb 1 (u8 1 split)))

  abbrev pub one_token : SuiObjectRef → Bytes → ℕ → SuiEnc → SuiEnc
  one_token t recipient amount e =
      let inputs = pure_address recipient (pure_u64 amount (object_input t (uleb 3 e))) in
      let split = arg_input 1 (uleb 1 (arg_input 0 (u8 2 (uleb 2 inputs)))) in
      arg_input 2 (arg_result 0 (uleb 1 (u8 1 split)))

  abbrev pub many_tokens : List SuiObjectRef → Bytes → ℕ → SuiEnc → SuiEnc
  many_tokens tokens recipient amount e =
      let n = length tokens in
      let inputs =
        pure_address recipient (pure_u64 amount (object_inputs tokens (uleb (n + 2) e))) in
      let target = arg_input ((n - 1) % 2 ^ 16) (u8 3 (uleb 3 inputs)) in
      let merge = arg_inputs 0 (n - 1) (uleb (n - 1) target) in
      let split = arg_input (n % 2 ^ 16) (uleb 1 (arg_input ((n - 1) % 2 ^ 16) (u8 2 merge))) in
      arg_input ((n + 1) % 2 ^ 16) (arg_result 1 (uleb 1 (u8 1 split)))

  -- The switch on the number of tokens.
  unfoldable pub program : List SuiObjectRef → Bytes → ℕ → SuiEnc → SuiEnc
  program [] recipient amount e = no_tokens recipient amount e
  program (t ∷ []) recipient amount e = one_token t recipient amount e
  program (t ∷ s ∷ ts) recipient amount e = many_tokens (t ∷ s ∷ ts) recipient amount e

  unfoldable pub build_sui_transfer :
      (sender recipient : Bytes) (amount gas_price gas_budget : ℕ)
      (payment tokens : List SuiObjectRef)
      → Result EncError Bytes
  build_sui_transfer sender recipient amount gas_price gas_budget payment tokens =
      let start : SuiEnc = record { buf = []; failure = none } in
      let programmed = address sender (program tokens recipient amount (u8 0 (u8 0 start))) in
      let paid = payment_refs payment (uleb (length payment) programmed) in
      outcome (u8 0 (u64 gas_budget (u64 gas_price (address sender paid))))

-- ===== src/Sui/Bcs/Write.antt =====
-- signing/sui/bcs.go: what the encoder's methods append, and that buildSuiTransfer writes a
-- transaction.
use wallet_sdk.Common.{
  ℕ, ◌≡◌, refl, ap, sym, ◌∙◌, Option-cases, Result-cases, inl, inr, List, [], ◌∷◌, Bytes, length,
  ok, err, append-nil, append_assoc,
}
use wallet_sdk.Go.Words.{le16, le64}
use wallet_sdk.Codec.Uvarint.{uvarint}
use wallet_sdk.Sui.Bcs.{
  SuiObjectRef, SuiEnc, parse_address, append, address, add_parsed, outcome, u8, u64, uleb,
  arg_gas_coin, arg_input, arg_result, pure_u64, pure_address, payment_ref, object_input,
}
use wallet_sdk.Sui.Bcs.Transaction.{
  Input, amount, recipient, object, Argument, gas_coin, input, result, Command, transfer_objects,
  split_coins, merge_coins, Transaction, Encoded, join, each, counted, encode_argument,
  encode_command, encode_ref, encode_input, encode_transaction,
}

join_assoc : (r s t : Encoded) → join (join r s) t ≡ join r (join s t)
join_assoc (err e) s t = refl
join_assoc (ok a) (err e) t = refl
join_assoc (ok a) (ok b) (err e) = refl
join_assoc (ok a) (ok b) (ok c) = ap (λ (x : Bytes). ok x) (append_assoc a b c)

pub join_nil : (r : Encoded) → join r (ok []) ≡ r
join_nil (err e) = refl
join_nil (ok a) = ap (λ (x : Bytes). ok x) (append-nil a)

-- A method appends an encoding to what was written before.
pub record Writes (f : SuiEnc → SuiEnc) (r : Encoded) : Type 0 where
  pub law : (e : SuiEnc) → outcome (f e) ≡ join (outcome e) r

append-Writes : (bytes : Bytes) → Writes (append bytes) (ok bytes)
unfolding outcome append
append-Writes bytes = record {
  law = λ e. elim (Option-cases e.failure) [
    | inl none_yet ↦ rw none_yet refl
    | inr (fault, same) ↦ rw same refl
  ];
}

address-Writes : (addr : Bytes) → Writes (address addr) (parse_address addr)
unfolding outcome address append add_parsed
address-Writes addr = record {
  law = λ e. elim (Option-cases e.failure) [
    | inl none_yet ↦ elim (Result-cases (parse_address addr)) [
      | inl (bytes, parsed) ↦ rw (none_yet, parsed) refl
      | inr (fault, parsed) ↦ rw (none_yet, parsed) refl
    ]
    | inr (fault, same) ↦ rw same refl
  ];
}

same-Writes : Writes (λ e. e) (ok [])
same-Writes = record { law = λ e. sym (join_nil (outcome e)) }

infixr 4 ◌then◌
◌then◌ :
    {f g : SuiEnc → SuiEnc} {r s : Encoded}
    → Writes f r
    → Writes g s
    → Writes (λ e. g (f e)) (join r s)
◌then◌ {f} {g} {r} {s} first second = record {
  law = λ e.
      second.law (f e) ∙ ap (λ (t : Encoded). join t s) (first.law e) ∙ join_assoc (outcome e) r s;
}

u8-Writes : (v : ℕ) → Writes (u8 v) (ok (v ∷ []))
u8-Writes v = append-Writes (v ∷ [])

uleb-Writes : (v : ℕ) → Writes (uleb v) (ok (uvarint v))
uleb-Writes v = append-Writes (uvarint v)

u64-Writes : (v : ℕ) → Writes (u64 v) (ok (le64 v))
u64-Writes v = append-Writes (le64 v)

abbrev pub write_argument : Argument → SuiEnc → SuiEnc
write_argument gas_coin e = arg_gas_coin e
write_argument (input i) e = arg_input i e
write_argument (result i) e = arg_result i e

argument-Writes : (a : Argument) → Writes (write_argument a) (encode_argument a)
argument-Writes gas_coin = u8-Writes 0
argument-Writes (input i) = u8-Writes 1 then append-Writes (le16 i)
argument-Writes (result i) = u8-Writes 2 then append-Writes (le16 i)

module _ {A : Type 0} (f : A → SuiEnc → SuiEnc) where
  abbrev pub write_each : List A → SuiEnc → SuiEnc
  write_each [] e = e
  write_each (x ∷ xs) e = write_each xs (f x e)

  module _ (g : A → Encoded) (one : (x : A) → Writes (f x) (g x)) where
    each-Writes : (xs : List A) → Writes (write_each xs) (each g xs)
    each-Writes [] = same-Writes
    each-Writes (x ∷ xs) = one x then each-Writes xs

    counted-Writes : (xs : List A) → Writes (λ e. write_each xs (uleb (length xs) e)) (counted g xs)
    counted-Writes xs = uleb-Writes (length xs) then each-Writes xs

abbrev pub write_command : Command → SuiEnc → SuiEnc
write_command (transfer_objects objects to) e =
    write_argument to (write_each write_argument objects (uleb (length objects) (u8 1 e)))
write_command (split_coins coin amounts) e =
    write_each write_argument amounts (uleb (length amounts) (write_argument coin (u8 2 e)))
write_command (merge_coins target coins) e =
    write_each write_argument coins (uleb (length coins) (write_argument target (u8 3 e)))

command-Writes : (c : Command) → Writes (write_command c) (encode_command c)
command-Writes (transfer_objects objects to) =
    u8-Writes 1
    then counted-Writes write_argument encode_argument argument-Writes objects
    then argument-Writes to
command-Writes (split_coins coin amounts) =
    u8-Writes 2
    then argument-Writes coin
    then counted-Writes write_argument encode_argument argument-Writes amounts
command-Writes (merge_coins target coins) =
    u8-Writes 3
    then argument-Writes target
    then counted-Writes write_argument encode_argument argument-Writes coins

module _ (base58_decode : Bytes → Bytes) where
  ref-Writes :
      (ref : SuiObjectRef) → Writes (payment_ref base58_decode ref) (encode_ref base58_decode ref)
  ref-Writes ref =
      address-Writes ref.object_id
      then u64-Writes ref.version
      then uleb-Writes (length (base58_decode ref.digest))
      then append-Writes (base58_decode ref.digest)

  abbrev pub write_input : Input → SuiEnc → SuiEnc
  write_input (amount v) e = pure_u64 v e
  write_input (recipient addr) e = pure_address addr e
  write_input (object ref) e = object_input base58_decode ref e

  input-Writes : (i : Input) → Writes (write_input i) (encode_input base58_decode i)
  input-Writes (amount v) = u8-Writes 0 then uleb-Writes 8 then u64-Writes v
  input-Writes (recipient addr) = u8-Writes 0 then uleb-Writes 32 then address-Writes addr
  input-Writes (object ref) = u8-Writes 1 then u8-Writes 0 then ref-Writes ref

  -- Inputs and commands.
  abbrev pub write_program : List Input → List Command → SuiEnc → SuiEnc
  write_program inputs commands e =
      write_each write_command commands
        (uleb (length commands) (write_each write_input inputs (uleb (length inputs) e)))

  abbrev pub write_transaction : Transaction → SuiEnc → SuiEnc
  write_transaction t e =
      let programmed = address t.sender (write_program t.inputs t.commands (u8 0 (u8 0 e))) in
      let paid =
        write_each (payment_ref base58_decode) t.payment (uleb (length t.payment) programmed) in
      u8 0 (u64 t.gas_budget (u64 t.gas_price (address t.sender paid)))

  pub transaction-Writes :
      (t : Transaction) → Writes (write_transaction t) (encode_transaction base58_decode t)
  unfolding encode_transaction
  transaction-Writes t =
      u8-Writes 0
      then u8-Writes 0
      then counted-Writes write_input (encode_input base58_decode) input-Writes t.inputs
      then counted-Writes write_command encode_command command-Writes t.commands
      then address-Writes t.sender
      then counted-Writes (payment_ref base58_decode) (encode_ref base58_decode) ref-Writes
          t.payment
      then address-Writes t.sender
      then u64-Writes t.gas_price
      then u64-Writes t.gas_budget
      then u8-Writes 0

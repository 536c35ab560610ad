-- ===== src/Sui/Bcs/Transaction.antt =====
-- What signing/sui/bcs.go encodes: a transaction with inputs, commands on them, and the coins that
-- pay for it, as Sui's BCS writes it. An address is the text that it is given as.
use wallet_sdk.Common.{ℕ, zero, suc, List, [], ◌∷◌, ◌++◌, Bytes, length, map, Result, ok, ◌>>=◌}
use wallet_sdk.Go.Words.{le16, le64}
use wallet_sdk.Codec.Uvarint.{uvarint}
use wallet_sdk.Sui.Bcs.{SuiObjectRef, EncError, parse_address}

pub data Input : Type 0 where
  amount : ℕ → Input
  recipient : Bytes → Input
  object : SuiObjectRef → Input

pub data Argument : Type 0 where
  gas_coin : Argument
  input result : ℕ → Argument

pub data Command : Type 0 where
  transfer_objects : List Argument → Argument → Command
  split_coins merge_coins : Argument → List Argument → Command

pub record Transaction : Type 0 where
  pub inputs : List Input
  pub commands : List Command
  pub sender : Bytes
  pub payment : List SuiObjectRef
  pub gas_price : ℕ
  pub gas_budget : ℕ

abbrev pub Encoded : Type 0
Encoded = Result EncError Bytes

-- One encoding after another; the first error is the error of both.
abbrev pub join : Encoded → Encoded → Encoded
join first second = first >>= λ a. second >>= λ b. ok (a ++ b)

module _ {A : Type 0} (f : A → Encoded) where
  abbrev pub each : List A → Encoded
  each [] = ok []
  each (x ∷ xs) = join (f x) (each xs)

  abbrev pub counted : List A → Encoded
  counted xs = join (ok (uvarint (length xs))) (each xs)

abbrev pub encode_argument : Argument → Encoded
encode_argument gas_coin = ok (0 ∷ [])
encode_argument (input i) = join (ok (1 ∷ [])) (ok (le16 i))
encode_argument (result i) = join (ok (2 ∷ [])) (ok (le16 i))

abbrev pub encode_command : Command → Encoded
encode_command (transfer_objects objects to) =
    join (ok (1 ∷ [])) (join (counted encode_argument objects) (encode_argument to))
encode_command (split_coins coin amounts) =
    join (ok (2 ∷ [])) (join (encode_argument coin) (counted encode_argument amounts))
encode_command (merge_coins target coins) =
    join (ok (3 ∷ [])) (join (encode_argument target) (counted encode_argument coins))

module _ (base58_decode : Bytes → Bytes) where
  abbrev pub encode_ref : SuiObjectRef → Encoded
  encode_ref ref =
      let digest = base58_decode ref.digest in
      join (parse_address ref.object_id)
        (join (ok (le64 ref.version)) (join (ok (uvarint (length digest))) (ok digest)))

  abbrev pub encode_input : Input → Encoded
  encode_input (amount v) = join (ok (0 ∷ [])) (join (ok (uvarint 8)) (ok (le64 v)))
  encode_input (recipient addr) = join (ok (0 ∷ [])) (join (ok (uvarint 32)) (parse_address addr))
  encode_input (object ref) = join (ok (1 ∷ [])) (join (ok (0 ∷ [])) (encode_ref ref))

  -- Version 1 of the data, with a program of commands, and no expiration.
  unfoldable pub encode_transaction : Transaction → Encoded
  encode_transaction t = join (ok (0 ∷ [])) (
      join (ok (0 ∷ [])) (
        join (counted encode_input t.inputs) (
          join (counted encode_command t.commands) (
            join (parse_address t.sender) (
              join (counted encode_ref t.payment) (
                join (parse_address t.sender)
                  (join (ok (le64 t.gas_price)) (join (ok (le64 t.gas_budget)) (ok (0 ∷ []))))))))))

-- input from, …, input (from + n - 1)
abbrev pub inputs_from : ℕ → ℕ → List Argument
inputs_from from zero = []
inputs_from from (suc n) = input from ∷ inputs_from (suc from) n

-- The tokens are merged into the last one; the amount is split off it, or off the gas coin where there
-- are none, and goes to the recipient.
unfoldable pub transfer_commands : ℕ → List Command
transfer_commands zero =
    split_coins gas_coin (input 0 ∷ []) ∷ transfer_objects (result 0 ∷ []) (input 1) ∷ []
transfer_commands (suc zero) =
    split_coins (input 0) (input 1 ∷ []) ∷ transfer_objects (result 0 ∷ []) (input 2) ∷ []
transfer_commands (suc (suc n)) =
    merge_coins (input (suc n)) (inputs_from 0 (suc n))
    ∷ split_coins (input (suc n)) (input (suc (suc n)) ∷ [])
    ∷ transfer_objects (result 1 ∷ []) (input (suc (suc (suc n))))
    ∷ []

unfoldable pub transfer :
    (sender to : Bytes) (value gas_price gas_budget : ℕ) (payment tokens : List SuiObjectRef)
    → Transaction
transfer sender to value gas_price gas_budget payment tokens = record {
  inputs = map object tokens ++ (amount value ∷ recipient to ∷ []);
  commands = transfer_commands (length tokens);
  sender = sender;
  payment = payment;
  gas_price = gas_price;
  gas_budget = gas_budget;
}

-- ===== src/Sui/Bcs/Refine.antt =====
-- signing/sui/bcs.go: buildSuiTransfer writes a transaction.
use wallet_sdk.Common.{
  ℕ, zero, suc, ◌+◌, ◌-◌, ◌%◌, ◌^◌, ◌≤◌, ◌≡◌, refl, ap, sym, ◌∙◌, arith, List, [], ◌∷◌, ◌++◌, Bytes,
  length, map, ok, err, none, length-append, length-map,
}
use wallet_sdk.Sui.Bcs.{
  SuiObjectRef, SuiEnc, address, outcome, u8, u64, uleb, arg_input, arg_inputs, payment_ref,
  object_input, object_inputs, payment_refs, program, build_sui_transfer, pure_u64, pure_address,
  arg_result,
}
use wallet_sdk.Sui.Bcs.Transaction.{
  Input, amount, recipient, object, Encoded, join, encode_transaction, inputs_from,
  transfer_commands, transfer,
}
use wallet_sdk.Sui.Bcs.Write.{
  write_each, write_argument, write_input, write_program, transaction-Writes, Writes,
}

length-inputs_from : (from n : ℕ) → length (inputs_from from n) ≡ n
length-inputs_from from zero = refl
length-inputs_from from (suc n) = ap suc (length-inputs_from (suc from) n)

arg_inputs-write_each :
    (from n : ℕ) (e : SuiEnc)
    → from + n ≤ 2 ^ 16
    → arg_inputs from n e ≡ write_each write_argument (inputs_from from n) e
unfolding arg_inputs
arg_inputs-write_each from zero e h = refl
arg_inputs-write_each from (suc n) e h =
    let same : from % 2 ^ 16 ≡ from = omega arith in
    ap (λ (i : ℕ). arg_inputs (suc from) n (arg_input i e)) same
    ∙ arg_inputs-write_each (suc from) n (arg_input from e) (omega arith)

nothing_before : (r : Encoded) → join (ok []) r ≡ r
nothing_before (err e) = refl
nothing_before (ok a) = refl

abbrev split_and_send : (coin value to : ℕ) → SuiEnc → SuiEnc
split_and_send coin value to e =
    arg_input to (arg_result 1 (uleb 1 (u8 1 (arg_input value (uleb 1 (arg_input coin (u8 2 e)))))))

module _ (base58_decode : Bytes → Bytes) where
  object_inputs-write_each :
      (tokens : List SuiObjectRef) (more : List Input) (e : SuiEnc)
      → write_each (write_input base58_decode) more (object_inputs base58_decode tokens e)
        ≡ write_each (write_input base58_decode) (map object tokens ++ more) e
  unfolding object_inputs
  object_inputs-write_each [] more e = refl
  object_inputs-write_each (t ∷ ts) more e =
      object_inputs-write_each ts more (object_input base58_decode t e)

  payment_refs-write_each :
      (refs : List SuiObjectRef) (e : SuiEnc)
      → payment_refs base58_decode refs e ≡ write_each (payment_ref base58_decode) refs e
  unfolding payment_refs
  payment_refs-write_each [] e = refl
  payment_refs-write_each (p ∷ ps) e = payment_refs-write_each ps (payment_ref base58_decode p e)

  -- The inputs of a transfer.
  abbrev transfer_inputs : List SuiObjectRef → Bytes → ℕ → List Input
  transfer_inputs tokens to value = map object tokens ++ (amount value ∷ recipient to ∷ [])

  length-transfer_inputs :
      (tokens : List SuiObjectRef) (to : Bytes) (value : ℕ)
      → length (transfer_inputs tokens to value) ≡ length tokens + 2
  length-transfer_inputs tokens to value = omega (
    arith,
    length-append (map object tokens) (amount value ∷ recipient to ∷ []),
    length-map tokens object,
  )

  program-write_program :
      (tokens : List SuiObjectRef) (to : Bytes) (value : ℕ) (e : SuiEnc)
      → length tokens + 2 ≤ 2 ^ 16
      → program base58_decode tokens to value e
        ≡ write_program base58_decode
            (transfer_inputs tokens to value)
            (transfer_commands (length tokens))
            e
  unfolding program transfer_commands
  program-write_program [] to value e h = refl
  program-write_program (t ∷ []) to value e h = refl
  program-write_program (t ∷ s ∷ ts) to value e h =
      let tokens = t ∷ s ∷ ts in
      let k = length ts in
      let inputs =
        pure_address to
          (pure_u64 value (object_inputs base58_decode tokens (uleb (length tokens + 2) e))) in
      let target : ℕ → SuiEnc = λ i. arg_input i (u8 3 (uleb 3 inputs)) in
      let before : length tokens - 1 ≡ suc k = omega arith in
      let last : suc k % 2 ^ 16 ≡ suc k = omega arith in
      let next : length tokens % 2 ^ 16 ≡ suc (suc k) = omega arith in
      let after : (length tokens + 1) % 2 ^ 16 ≡ suc (suc (suc k)) = omega arith in
      let merged = arg_inputs 0 (suc k) (uleb (suc k) (target (suc k))) in
      let merge =
        arg_inputs-write_each 0 (suc k) (uleb (suc k) (target (suc k))) (omega arith)
        ∙ ap
            (λ (n : ℕ). write_each write_argument (inputs_from 0 (suc k)) (uleb n (target (suc k))))
            (sym (length-inputs_from 0 (suc k))) in
      let written : inputs
          ≡ write_each (write_input base58_decode) (transfer_inputs tokens to value)
              (uleb (length (transfer_inputs tokens to value)) e) =
        object_inputs-write_each tokens (amount value ∷ recipient to ∷ [])
          (uleb (length tokens + 2) e)
        ∙ ap
            (λ (n : ℕ).
              write_each (write_input base58_decode) (transfer_inputs tokens to value) (uleb n e))
            (sym (length-transfer_inputs tokens to value)) in
      ap
        (λ (j : ℕ).
          split_and_send (j % 2 ^ 16) (length tokens % 2 ^ 16) ((length tokens + 1) % 2 ^ 16)
            (arg_inputs 0 j (uleb j (target (j % 2 ^ 16)))))
        before
      ∙ ap
          (λ (i : ℕ).
            split_and_send i (length tokens % 2 ^ 16) ((length tokens + 1) % 2 ^ 16)
              (arg_inputs 0 (suc k) (uleb (suc k) (target i))))
          last
      ∙ ap (λ (i : ℕ). split_and_send (suc k) i ((length tokens + 1) % 2 ^ 16) merged) next
      ∙ ap (λ (i : ℕ). split_and_send (suc k) (suc (suc k)) i merged) after
      ∙ ap (split_and_send (suc k) (suc (suc k)) (suc (suc (suc k)))) merge
      ∙ ap
          (λ (w : SuiEnc). split_and_send (suc k) (suc (suc k)) (suc (suc (suc k))) (
            write_each write_argument (inputs_from 0 (suc k))
              (uleb (length (inputs_from 0 (suc k))) (arg_input (suc k) (u8 3 (uleb 3 w))))))
          written

  -- buildSuiTransfer with fewer than 2^16 - 1 tokens returns the encoding of the transaction: the coins
  -- are its inputs, with the amount and the recipient; its commands merge the tokens into the last
  -- one, split the amount off it, or off the gas coin where there are none, and send it to the
  -- recipient. An address that does not parse is the error of both, the first one in the order of the bytes.
  pub build_sui_transfer-encode_transaction :
      (sender to : Bytes) (value gas_price gas_budget : ℕ) (payment tokens : List SuiObjectRef)
      → length tokens + 2 ≤ 2 ^ 16
      → build_sui_transfer base58_decode sender to value gas_price gas_budget payment tokens
        ≡ encode_transaction base58_decode
            (transfer sender to value gas_price gas_budget payment tokens)
  unfolding build_sui_transfer transfer outcome
  build_sui_transfer-encode_transaction sender to value gas_price gas_budget payment tokens h =
      let start : SuiEnc = record { buf = []; failure = none } in
      let t = transfer sender to value gas_price gas_budget payment tokens in
      let ends : SuiEnc → SuiEnc = λ e. u8 0 (u64 gas_budget (u64 gas_price (address sender e))) in
      let written = program-write_program tokens to value (u8 0 (u8 0 start)) h in
      ap
        (λ (e : SuiEnc).
          outcome
            (ends (payment_refs base58_decode payment (uleb (length payment) (address sender e)))))
        written
      ∙ ap (λ (e : SuiEnc). outcome (ends e))
          (payment_refs-write_each payment (
            uleb (length payment) (
              address sender (
                write_program base58_decode (transfer_inputs tokens to value)
                  (transfer_commands (length tokens)) (u8 0 (u8 0 start))))))
      ∙ Writes.law (transaction-Writes base58_decode t) start
      ∙ nothing_before (encode_transaction base58_decode t)

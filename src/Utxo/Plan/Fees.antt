-- ===== src/Utxo/Plan/Fees.antt =====
-- signing/utxo/tx.go: the fee estimates in true numbers, and the plans of the five builders.
use wallet_sdk.Common.{
  ℕ, ◌+◌, ◌*◌, ◌%◌, ◌^◌, ◌≤◌, ◌<◌, ◌≡◌, arith, List, [], ◌∷◌, if◌then◌else◌, Bytes, bytes_eq,
  bytes_eq_refl, ◌≢◌, false, ok, inl, inr, Bool-cases,
}
use wallet_sdk.Go.Words.{add_i64, mul_i64}
use wallet_sdk.Go.Strconv.{parse_int}
use wallet_sdk.Utxo.Types.{default_dust, magic_max_amount}
use wallet_sdk.Utxo.Btcd.{Btcd}
use wallet_sdk.Utxo.Fee.{estimate_fee_for_scripts, add_outputs, per_input_vbytes, output_vbytes}
use wallet_sdk.Utxo.Plan.{Payments, sweep, pay, plan_scripts}
use wallet_sdk.Utxo.Plan.Balance.{two_fees, sweep_total, pay_total}

-- Texts that the test tells apart differ.
pub differs : (xs ys : Bytes) → bytes_eq xs ys ≡ false → xs ≢ ys
differs xs ys h e = absurd (cc (h, e, bytes_eq_refl ys))

-- A product that fits is not wrapped, whichever factor had been.
pub mul_unwrapped : (x y : ℕ) → 0 < y → x * y < 2 ^ 64 → mul_i64 (x % 2 ^ 64) y ≡ x * y
mul_unwrapped x y h k = let small : x < 2 ^ 64 = grind arith in grind (arith, small)

pub mul_mono : (x y z : ℕ) → x ≤ y → x * z ≤ y * z
mul_mono x y z h = grind arith

module _ (lib : Btcd) where
  -- The size of these output scripts, and of a transaction with them; its fee at `byte_fee`.
  unfoldable pub scripts_vbytes : List Bytes → ℕ
  scripts_vbytes [] = 0
  scripts_vbytes (script ∷ scripts) = output_vbytes lib script + scripts_vbytes scripts

  abbrev pub true_fee : Bytes → ℕ → ℕ → ℕ → List Bytes → ℕ
  true_fee network byte_fee num_inputs memo_fee scripts =
      (num_inputs * per_input_vbytes network + 11 + scripts_vbytes scripts) * byte_fee + memo_fee

  add_outputs-wraps :
      (scripts : List Bytes) (v : ℕ)
      → add_outputs lib (v % 2 ^ 64) scripts ≡ (v + scripts_vbytes scripts) % 2 ^ 64
  unfolding add_outputs scripts_vbytes
  add_outputs-wraps [] v = omega arith
  add_outputs-wraps (script ∷ scripts) v =
      let step : add_i64 (v % 2 ^ 64) (output_vbytes lib script)
          ≡ (v + output_vbytes lib script) % 2 ^ 64 =
        omega arith in
      rw step (omega (arith, add_outputs-wraps scripts (v + output_vbytes lib script)))

  -- The estimate is the true fee, if that fits.
  estimate-eq-true_fee :
      (network : Bytes) (byte_fee num_inputs memo_fee : ℕ) (scripts : List Bytes)
      → 0 < byte_fee
      → true_fee network byte_fee num_inputs memo_fee scripts < 2 ^ 64
      → add_i64 (estimate_fee_for_scripts lib network byte_fee num_inputs scripts) memo_fee
        ≡ true_fee network byte_fee num_inputs memo_fee scripts
  unfolding estimate_fee_for_scripts
  estimate-eq-true_fee network byte_fee num_inputs memo_fee scripts pos fits =
      let start : ℕ = num_inputs * per_input_vbytes network + 11 in
      let begin : add_i64 (mul_i64 num_inputs (per_input_vbytes network)) 11 ≡ start % 2 ^ 64 =
        omega arith in
      rw
        (
          begin,
          add_outputs-wraps scripts start,
          mul_unwrapped (start + scripts_vbytes scripts) byte_fee pos (omega arith),
        )
        (omega arith)

  fee_mono :
      (network : Bytes) (byte_fee num_inputs memo_fee : ℕ) (r c : Bytes)
      → true_fee network byte_fee num_inputs memo_fee (r ∷ [])
        ≤ true_fee network byte_fee num_inputs memo_fee (r ∷ c ∷ [])
  unfolding scripts_vbytes
  fee_mono network byte_fee num_inputs memo_fee r c = omega (
    arith,
    mul_mono (num_inputs * per_input_vbytes network + 11 + scripts_vbytes (r ∷ []))
        (num_inputs * per_input_vbytes network + 11 + scripts_vbytes (r ∷ c ∷ [])) byte_fee
        (omega arith),
  )

  module _ (network : Bytes) (byte_fee num_inputs total memo_fee : ℕ)
      (amount recipient sender recipient_script change_script : Bytes) (byte_fee_pos : 0 < byte_fee)
      (total_fits : total < 2 ^ 63)
      (fee_fits : true_fee network byte_fee num_inputs memo_fee
          (recipient_script ∷ change_script ∷ [])
        < 2 ^ 63) where
    fee_of : ℕ → ℕ
    fee_of =
        two_fees (true_fee network byte_fee num_inputs memo_fee (recipient_script ∷ []))
          (true_fee network byte_fee num_inputs memo_fee (recipient_script ∷ change_script ∷ []))

    plan_scripts-cases :
        plan_scripts lib network byte_fee num_inputs total memo_fee amount recipient sender
          recipient_script change_script
        ≡ (if bytes_eq amount magic_max_amount
            then sweep default_dust total (fee_of 1) recipient
            else pay default_dust total (parse_int amount).0 (fee_of 2) (fee_of 1) recipient sender)
    unfolding plan_scripts fee_of
    plan_scripts-cases = rw (
      estimate-eq-true_fee network byte_fee num_inputs memo_fee (recipient_script ∷ []) byte_fee_pos
          (omega
            (arith, fee_mono network byte_fee num_inputs memo_fee recipient_script change_script)),
      estimate-eq-true_fee network byte_fee num_inputs memo_fee
          (recipient_script ∷ change_script ∷ []) byte_fee_pos (omega arith),
    )

    -- Of BTC, taproot, LTC and SYS. Where the fee rate is positive, the total of the inputs and the
    -- fee for two outputs are below 2^63, and fee and amount together at most 2^63: there is a plan
    -- if the total covers the fee for one output and the amount, which is 546 at least; for a
    -- sweep, where the amount asks for all, the fee and 546.
    pub plan_scripts_total :
        (value : ℕ)
        → value ≡ (if bytes_eq amount magic_max_amount then default_dust else (parse_int amount).0)
        → default_dust ≤ value
        → value
            + true_fee network byte_fee num_inputs memo_fee (recipient_script ∷ change_script ∷ [])
          ≤ 2 ^ 63
        → value + true_fee network byte_fee num_inputs memo_fee (recipient_script ∷ []) ≤ total
        → (payments : Payments) × (plan_scripts lib network byte_fee num_inputs total memo_fee
              amount recipient sender recipient_script change_script
            ≡ ok payments)
    unfolding fee_of
    plan_scripts_total value is no_dust fits enough =
        elim (Bool-cases (bytes_eq amount magic_max_amount)) [
          | inl most ↦
              let (payments, e) =
                sweep_total default_dust total (fee_of 1) recipient total_fits (omega arith)
                  (ground (arith, is, most)) in
              (payments, cc (plan_scripts-cases, most, e))
          | inr exact ↦
              let same : value ≡ (parse_int amount).0 = cc (is, exact) in
              let (payments, e) =
                pay_total default_dust total (parse_int amount).0 (fee_of 2) (fee_of 1) recipient
                  sender total_fits (omega (arith, same)) (omega (arith, same))
                  (fee_mono network byte_fee num_inputs memo_fee recipient_script change_script)
                  (omega arith) (omega (arith, same)) (omega (arith, same)) in
              (payments, cc (plan_scripts-cases, exact, e))
        ]

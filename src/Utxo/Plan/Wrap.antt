-- ===== src/Utxo/Plan/Wrap.antt =====
-- signing/utxo/tx.go: a fee that wraps around an int64.
use wallet_sdk.Common.{ℕ, ◌+◌, ◌*◌, ◌^◌, ◌≤◌, ◌<◌, ◌≡◌, arith, [], ◌∷◌, Bytes, ok}
use wallet_sdk.Go.Words.{add_i64, mul_i64}
use wallet_sdk.Utxo.Types.{default_dust, magic_max_amount}
use wallet_sdk.Utxo.Btcd.{Btcd}
use wallet_sdk.Utxo.Fee.{estimate_fee_for_scripts, add_outputs, per_input_vbytes, output_vbytes}
use wallet_sdk.Utxo.Plan.{sweep, plan_scripts}

-- A fee rate for which size times rate is a multiple of 2^64, and no memo: a sweep of a total that
-- is no dust then pays the recipient all of it, and no fee.
pub plan_scripts_free :
    (lib : Btcd) (network : Bytes) (byte_fee num_inputs total k : ℕ)
    (recipient sender recipient_script change_script : Bytes)
    → default_dust ≤ total
    → total < 2 ^ 63
    → num_inputs * per_input_vbytes network + 11 + output_vbytes lib recipient_script < 2 ^ 64
    → (num_inputs * per_input_vbytes network + 11 + output_vbytes lib recipient_script) * byte_fee
      ≡ k * 2 ^ 64
    → plan_scripts lib network byte_fee num_inputs total 0 magic_max_amount recipient sender
        recipient_script change_script
      ≡ ok ((recipient, total) ∷ [])
unfolding plan_scripts estimate_fee_for_scripts add_outputs sweep
plan_scripts_free lib network byte_fee num_inputs total k recipient sender recipient_script
      change_script dusty fits small wraps =
    rw free (ground arith)
  where
    free :
        mul_i64
          (add_i64
            (add_i64 (mul_i64 num_inputs (per_input_vbytes network)) 11)
            (output_vbytes lib recipient_script))
          byte_fee
        ≡ 0
    free =
        let plain : add_i64 (add_i64 (mul_i64 num_inputs (per_input_vbytes network)) 11)
              (output_vbytes lib recipient_script)
            ≡ num_inputs * per_input_vbytes network + 11 + output_vbytes lib recipient_script =
          omega arith in
        rw plain (omega (arith, wraps))

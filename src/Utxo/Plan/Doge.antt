-- ===== src/Utxo/Plan/Doge.antt =====
-- signing/utxo/tx.go: the fee of a Dogecoin transaction and the plan of buildForDOGE.
use Prim.Native.Nat.{max}
use wallet_sdk.Common.{ℕ, ◌+◌, ◌*◌}
use wallet_sdk.Utxo.Types.{doge_min_fee}

-- Dogecoin's fee for n outputs of 34 bytes each, which is 5000000 at least.
abbrev pub doge_fee : ℕ → ℕ → ℕ → ℕ → ℕ
doge_fee byte_fee num_inputs memo_fee n =
    max ((num_inputs * 148 + n * 34 + 11) * byte_fee + memo_fee) doge_min_fee

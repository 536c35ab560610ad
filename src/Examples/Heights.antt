-- ===== src/Examples/Heights.antt =====
-- A transaction at height 100, and a node at height 112.
use wallet_sdk.Common.{ℕ, ◌+◌, ◌<◌, ◌≡◌, refl, arith, some, codes}
use wallet_sdk.Go.Strconv.{parsed, parse_uint}
use wallet_sdk.Rpc.Confirmations.{confirmations, confirmations_lem}

confirmations_lem_example :
    (height tip : ℕ) × (parsed (parse_uint (codes "100")) ≡ some height)
    × (parsed (parse_uint (codes "112")) ≡ some tip)
    × (0 < height)
    × (height + 12 ≡ tip)
unfolding confirmations parse_uint
confirmations_lem_example =
    confirmations_lem (codes "100") (codes "112") 6 12 (omega arith) (omega arith) refl

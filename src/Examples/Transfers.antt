-- ===== src/Examples/Transfers.antt =====
-- signing/sui/bcs.go on a transfer of two tokens, with the identity in the place of base58.Decode.
use wallet_sdk.Common.{◌≡◌, arith, [], ◌∷◌, codes}
use wallet_sdk.Sui.Bcs.{SuiObjectRef, build_sui_transfer}
use wallet_sdk.Sui.Bcs.Transaction.{transfer, encode_transaction}
use wallet_sdk.Sui.Bcs.Refine.{build_sui_transfer-encode_transaction}

abbrev coin : SuiObjectRef
coin = record { object_id = codes "0x5"; version = 3; digest = 1 ∷ 2 ∷ [] }

abbrev token : SuiObjectRef
token = record { object_id = codes "0xab"; version = 9; digest = 4 ∷ [] }

build_sui_transfer-encode_transaction_example :
    build_sui_transfer
      (λ t. t)
      (codes "0x1")
      (codes "0x22")
      1000
      7
      90
      (coin ∷ [])
      (token ∷ coin ∷ [])
    ≡ encode_transaction
        (λ t. t)
        (transfer (codes "0x1") (codes "0x22") 1000 7 90 (coin ∷ []) (token ∷ coin ∷ []))
build_sui_transfer-encode_transaction_example =
    build_sui_transfer-encode_transaction (λ t. t) (codes "0x1") (codes "0x22") 1000 7 90
      (coin ∷ []) (token ∷ coin ∷ []) (omega arith)

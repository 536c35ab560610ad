-- ===== src/Examples/Coins.antt =====
-- Selections of coins, with an identity in place of sort.Slice.
use mathlib.Core.List.{Sublist}
use mathlib.Core.List.Perm
use wallet_sdk.Common.{
  ℕ, ◌+◌, ◌-◌, ◌%◌, ◌^◌, ◌≤◌, ◌<◌, ◌≡◌, ◌⊎◌, ◌↔◌, refl, arith, Option, none, some, List, [], ◌∷◌,
  ◌++◌, codes,
}
use wallet_sdk.Go.Strconv.{parsed, parse_uint}
use wallet_sdk.UtxoList.{UtxoInfo, UtxoList, done, insufficient, SortSlice, select_utxo, calc_value}
use wallet_sdk.UtxoList.Select.{worth, total_worth}
use wallet_sdk.UtxoList.Total.{
  listed, coins, select_utxo_covers, select_utxo_insufficient, select_utxo_minimal,
}
use wallet_sdk.UtxoList.Wrap.{parse_uint-calc_value, select_utxo_wraps}
use wallet_sdk.Examples.Library.{coin, two_coins}

abbrev unsorted : SortSlice
unsorted = λ less us. us

abbrev one_coin : UtxoList
one_coin = listed (coin (codes "90000") ∷ [])

select_utxo_covers_example :
    (t : ℕ) × (parsed (parse_uint (codes "50000")) ≡ some t)
    × (t ≤ total_worth (coins (some one_coin)))
    × Sublist (coins (some one_coin)) two_coins
unfolding select_utxo parse_uint
select_utxo_covers_example =
    select_utxo_covers unsorted two_coins (codes "50000") (some one_coin) refl

select_utxo_minimal_example :
    (u' : Option UtxoList) × (select_utxo unsorted (some (listed two_coins)) (codes "50000")
      ≡ done u' none)
    × ((coins u' ≡ [])
        ⊎ ((front : List UtxoInfo) × (last : UtxoInfo) × (coins u' ≡ front ++ last ∷ [])
            × (total_worth front < 50000)))
unfolding parse_uint total_worth
select_utxo_minimal_example =
    select_utxo_minimal unsorted two_coins (Perm.refl two_coins) (omega arith) (codes "50000") refl
      (omega arith)

select_utxo_insufficient_example : (total_worth two_coins < 200000) ↔ (
    select_utxo unsorted (some (listed two_coins)) (codes "200000")
    ≡ done (some (listed two_coins)) (some (insufficient (codes "200000") (total_worth two_coins))))
unfolding parse_uint total_worth
select_utxo_insufficient_example =
    select_utxo_insufficient unsorted two_coins (Perm.refl two_coins) (omega arith) (codes "200000")
      refl

parse_uint-calc_value_example :
    parse_uint (calc_value (some (listed two_coins))) ≡ (total_worth two_coins % 2 ^ 64, none)
unfolding parse_uint worth
parse_uint-calc_value_example = parse_uint-calc_value two_coins (refl, (refl, tt))

abbrev huge : UtxoInfo
huge = coin (codes "18446744073709551615")

select_utxo_wraps_example :
    (select_utxo unsorted (some (listed (coin (codes "7") ∷ huge ∷ []))) (codes "100")
      ≡ done
          (some (listed (coin (codes "7") ∷ huge ∷ [])))
          (some (insufficient (codes "100") (7 + (2 ^ 64 - 1) - 2 ^ 64))))
    × (100 < 7 + (2 ^ 64 - 1))
unfolding parse_uint
select_utxo_wraps_example =
    select_utxo_wraps unsorted (coin (codes "7") ∷ huge ∷ []) (coin (codes "7")) huge (codes "100")
      100 7 (2 ^ 64 - 1) refl refl refl refl (omega arith) (omega arith)

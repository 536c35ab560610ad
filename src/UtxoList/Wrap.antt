-- ===== src/UtxoList/Wrap.antt =====
-- signing/utxolist.go where the uint64 sums matter: CalcValue, and a total that passes 2^64.
use wallet_sdk.Common.{
  ℕ, ◌+◌, ◌-◌, ◌%◌, ◌^◌, ◌≤◌, ◌<◌, ◌≡◌, arith, none, some, List, [], ◌∷◌, Bytes, map, All, ◌∙◌, ap,
}
use wallet_sdk.Go.Strconv.{parsed, parse_uint}
use wallet_sdk.Go.Strconv.Laws.{parsed_bound, parse_uint-format_uint}
use wallet_sdk.UtxoList.{
  UtxoInfo, done, insufficient, SortSlice, less, collect, finish, select_utxo, sum_values,
  calc_value,
}
use wallet_sdk.UtxoList.Select.{worth, total_worth}
use wallet_sdk.UtxoList.Total.{listed, select_utxo_lem}

-- The value of a coin parses.
abbrev pub HasValue : UtxoInfo → Type 0
HasValue u = parsed (parse_uint u.value) ≡ some (worth u)

sum_values-listed :
    (total : ℕ) (us : List UtxoInfo)
    → total < 2 ^ 64
    → All HasValue us
    → sum_values total (map some us) ≡ some ((total + total_worth us) % 2 ^ 64)
unfolding sum_values total_worth
sum_values-listed total [] h k = ap some (omega arith)
sum_values-listed total (u ∷ us) h (p, ps) =
    ground (arith, p, sum_values-listed ((total + worth u) % 2 ^ 64) us)

-- Where the values of all coins parse, CalcValue writes their total modulo 2^64 in decimal, and
-- ParseUint reads it back without an error.
pub parse_uint-calc_value :
    (us : List UtxoInfo)
    → All HasValue us
    → parse_uint (calc_value (some (listed us))) ≡ (total_worth us % 2 ^ 64, none)
unfolding calc_value
parse_uint-calc_value us h = ground (
  arith,
  sum_values-listed 0 us (omega arith) h,
  parse_uint-format_uint (total_worth us % 2 ^ 64) (omega arith),
)

-- Where the sorted list is two coins, the first below the target, and their values add up to 2^64
-- or more, SelectUtxo returns the error of a balance that is too small, though the target is less
-- than the true total.
pub select_utxo_wraps :
    (sort_slice : SortSlice) (us : List UtxoInfo) (a b : UtxoInfo) (target_value : Bytes)
    (t va vb : ℕ)
    → sort_slice less us ≡ a ∷ b ∷ []
    → parsed (parse_uint target_value) ≡ some t
    → parsed (parse_uint a.value) ≡ some va
    → parsed (parse_uint b.value) ≡ some vb
    → va < t
    → 2 ^ 64 ≤ va + vb
    → (select_utxo sort_slice (some (listed us)) target_value
        ≡ done (some (listed (a ∷ b ∷ []))) (some (insufficient target_value (va + vb - 2 ^ 64))))
      × (t < va + vb)
unfolding finish collect
select_utxo_wraps sort_slice us a b target_value t va vb sorted ht ha hb lt wrap = (
  select_utxo_lem sort_slice us target_value t ht
      ∙ rw sorted (
          ground (
            arith,
            parsed_bound target_value ht,
            parsed_bound a.value ha,
            parsed_bound b.value hb,
          )),
  omega (arith, parsed_bound target_value ht),
)

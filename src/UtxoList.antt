-- ===== src/UtxoList.antt =====
-- signing/utxolist.go: the list of unspent outputs and the choice of coins.
-- A pointer that may be nil is an Option; so is the slice. A nil pointer that the code follows is
-- the outcome `panic`. sort.Slice is the parameter `sort_slice` of what calls it.
pub mod Select
pub mod Total
pub mod Wrap
use wallet_sdk.Common.{
  ℕ, zero, suc, ◌+◌, ◌%◌, ◌^◌, ◌≤◌, ◌<◌, ◌≡◌, refl, arith, Bool, true, false, Option, none, some,
  List, [], ◌∷◌, ◌++◌, map, ◌==◌, ltb, leb, if◌then◌else◌, Bytes, codes, length,
}
use wallet_sdk.Go.Strconv.{NumError, parsed, parse_uint, format_uint}

pub record UtxoInfo : Type 0 where
  pub hash : Bytes
  pub script : Bytes
  pub index : Bytes
  pub value : Bytes
  pub version : Bytes
  pub is_coinbase : Bytes
  pub block_daa_score : Bytes

pub record UtxoList : Type 0 where
  pub list : Option (List (Option UtxoInfo))

pub data SelectError : Type 0 where
  nil_list : SelectError
  invalid_target : NumError → SelectError
  insufficient : Bytes → ℕ → SelectError

-- A method's outcome: the receiver after it, with the error that it returned, or a nil dereference.
pub data Outcome : Type 0 where
  done : Option UtxoList → Option SelectError → Outcome
  panic : Outcome

pub new_utxo_list : UtxoList
new_utxo_list = record { list = some [] }

-- `append((*u).List, info)`, after `make` where the slice is nil.
append_info : Option (List (Option UtxoInfo)) → UtxoInfo → Option (List (Option UtxoInfo))
append_info none info = some (some info ∷ [])
append_info (some l) info = some (l ++ some info ∷ [])

unfoldable pub add_utxo_info : Option UtxoList → Option UtxoInfo → Option UtxoList
unfolding append_info
add_utxo_info u none = u
add_utxo_info none (some info) = none
add_utxo_info (some u) (some info) = some (record { list = append_info u.list info })

-- The comparison of the sort: what ParseUint returns beside an error is compared, too.
pub less : UtxoInfo → UtxoInfo → Bool
less a b = ltb (parse_uint a.value).0 (parse_uint b.value).0

-- The entries that follow a nil pointer nowhere.
unfoldable pub all_present : List (Option UtxoInfo) → Option (List UtxoInfo)
all_present [] = some []
all_present (none ∷ us) = none
all_present (some u ∷ us) = elim (all_present us) [ none ↦ none | some vs ↦ some (u ∷ vs) ]

-- The loop that collects the coins: those taken, and the running sum of their values, a uint64.
unfoldable pub collect : ℕ → List UtxoInfo → ℕ → List UtxoInfo → List UtxoInfo × ℕ
collect target selected total [] = (selected, total)
collect target selected total (u ∷ us) = elim (leb target total) [
  | true ↦ (selected, total)
  | false ↦ elim (parsed (parse_uint u.value)) [
    | some v ↦ collect target (selected ++ u ∷ []) ((total + v) % 2 ^ 64) us
    | none ↦ collect target selected total us
  ]
]

-- `selectedUtxos` is a nil slice until something is appended.
abbrev pub slice_of : List UtxoInfo → Option (List (Option UtxoInfo))
slice_of [] = none
slice_of (u ∷ us) = some (map some (u ∷ us))

-- The end of SelectUtxo. The sort was made in place, and stays made when the balance is too small.
pub finish : Bytes → ℕ → List UtxoInfo → List UtxoInfo × ℕ → Outcome
finish target_value target sorted (selected, total) =
    if ltb total target
    then done (some (record { list = some (map some sorted) }))
        (some (insufficient target_value total))
    else done (some (record { list = slice_of selected })) none

-- A list with a nil entry: the comparison panics if there are two entries to compare, and the loop
-- panics at a lone one that it reaches.
nil_entry : ℕ → List (Option UtxoInfo) → Outcome
nil_entry target (u ∷ []) =
    if leb target 0 then done (some (record { list = none })) none else panic
nil_entry target us = panic

-- What sort.Slice does with the slice, given its `less`.
abbrev pub SortSlice : Type 0
SortSlice = (UtxoInfo → UtxoInfo → Bool) → List UtxoInfo → List UtxoInfo

select_from : SortSlice → Bytes → ℕ → List (Option UtxoInfo) → Outcome
unfolding less all_present collect finish nil_entry
select_from sort_slice target_value target entries = elim (all_present entries) [
  | none ↦ nil_entry target entries
  | some us ↦
      finish target_value target (sort_slice less us) (collect target [] 0 (sort_slice less us))
]

select_parsed :
    SortSlice → UtxoList → Bytes → List (Option UtxoInfo) → ℕ × Option NumError → Outcome
unfolding select_from
select_parsed sort_slice u target_value entries (target, some e) =
    done (some u) (some (invalid_target e))
select_parsed sort_slice u target_value entries (target, none) =
    select_from sort_slice target_value target entries

select_in : SortSlice → UtxoList → Bytes → Option (List (Option UtxoInfo)) → Outcome
unfolding select_parsed
select_in sort_slice u target_value none = done (some u) (some nil_list)
select_in sort_slice u target_value (some entries) =
    select_parsed sort_slice u target_value entries (parse_uint target_value)

unfoldable pub select_utxo : SortSlice → Option UtxoList → Bytes → Outcome
unfolding select_in
select_utxo sort_slice none target_value = done none (some nil_list)
select_utxo sort_slice (some u) target_value = select_in sort_slice u target_value u.list

-- The loop of CalcValue: `none` is its early return.
unfoldable pub sum_values : ℕ → List (Option UtxoInfo) → Option ℕ
sum_values total [] = some total
sum_values total (none ∷ us) = sum_values total us
sum_values total (some u ∷ us) = elim (parsed (parse_uint u.value)) [
  | some v ↦ sum_values ((total + v) % 2 ^ 64) us
  | none ↦ none
]

calc_list : Option (List (Option UtxoInfo)) → Bytes
unfolding sum_values
calc_list none = codes "0"
calc_list (some us) = elim (sum_values 0 us) [ none ↦ codes "0" | some total ↦ format_uint total ]

unfoldable pub calc_value : Option UtxoList → Bytes
unfolding calc_list
calc_value none = codes "0"
calc_value (some u) = calc_list u.list

empty_slice : Option (List (Option UtxoInfo)) → Bool
empty_slice none = true
empty_slice (some us) = length us == 0

unfoldable pub is_empty : Option UtxoList → Bool
unfolding empty_slice
is_empty none = true
is_empty (some u) = empty_slice u.list

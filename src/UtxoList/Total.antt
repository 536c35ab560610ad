-- ===== src/UtxoList/Total.antt =====
-- signing/utxolist.go: what SelectUtxo and CalcValue return, in terms of the coins' true total.
use mathlib.Core.Logic.{∥∥₁_elim}
use mathlib.Core.List.{Perm, Permᴰ, Sublist, Sublistᴰ}
use native.Mathlib.Nat.{ℕ_set}
use wallet_sdk.Common.{
  ℕ, ◌^◌, ◌≤◌, ◌<◌, ◌≡◌, refl, arith, Option, none, some, List, [], ◌∷◌, ◌++◌, ltb, Bytes, map, ◌⊎◌,
  inl, inr, Bool-cases, sym, ◌∙◌, ap, ◌↔◌,
}
use wallet_sdk.Go.Strconv.{NumError, parsed, parse_uint}
use wallet_sdk.Go.Strconv.Laws.{parsed-eq-some}
use wallet_sdk.UtxoList.{
  select_parsed, UtxoInfo, UtxoList, done, insufficient, SortSlice, less, collect, finish,
  select_utxo, all_present, slice_of,
}
use wallet_sdk.UtxoList.Select.{
  worth, total_worth, collect-le-worth, collect_complete, collect-sublist, collect_minimal,
}

abbrev pub listed : List UtxoInfo → UtxoList
listed us = record { list = some (map some us) }

abbrev pub present : Option (List (Option UtxoInfo)) → List UtxoInfo
present none = []
present (some []) = []
present (some (none ∷ us)) = present (some us)
present (some (some u ∷ us)) = u ∷ present (some us)

present-map : (us : List UtxoInfo) → present (some (map some us)) ≡ us
present-map [] = refl
present-map (u ∷ us) = ap (λ t. u ∷ t) (present-map us)

present-slice_of : (us : List UtxoInfo) → present (slice_of us) ≡ us
present-slice_of [] = refl
present-slice_of (u ∷ us) = present-map (u ∷ us)

all_present-map : (us : List UtxoInfo) → all_present (map some us) ≡ some us
unfolding all_present
all_present-map [] = refl
all_present-map (u ∷ us) = rw (all_present-map us)

pub select_utxo_lem :
    (sort_slice : SortSlice) (us : List UtxoInfo) (target_value : Bytes) (t : ℕ)
    → parsed (parse_uint target_value) ≡ some t
    → select_utxo sort_slice (some (listed us)) target_value
      ≡ finish target_value t (sort_slice less us) (collect t [] 0 (sort_slice less us))
unfolding select_utxo
select_utxo_lem sort_slice us target_value t h =
    ground (arith, parsed-eq-some (parse_uint target_value) h, all_present-map us)

total_worth-permᴰ : {us vs : List UtxoInfo} → Permᴰ us vs → total_worth us ≡ total_worth vs
unfolding total_worth
total_worth-permᴰ Permᴰ.nil = refl
total_worth-permᴰ (Permᴰ.cons e p) = omega (arith, ap worth e, total_worth-permᴰ p)
total_worth-permᴰ (Permᴰ.swap e f) = omega (arith, ap worth e, ap worth f)
total_worth-permᴰ (Permᴰ.trans p q) = total_worth-permᴰ p ∙ total_worth-permᴰ q

total_worth-perm : {us vs : List UtxoInfo} → Perm us vs → total_worth us ≡ total_worth vs
total_worth-perm p = ∥∥₁_elim p (ℕ_set _ _) total_worth-permᴰ

total_worth-sublistᴰ : {us vs : List UtxoInfo} → Sublistᴰ us vs → total_worth us ≤ total_worth vs
unfolding total_worth
total_worth-sublistᴰ Sublistᴰ.slnil = omega arith
total_worth-sublistᴰ (Sublistᴰ.cons s) = omega (arith, total_worth-sublistᴰ s)
total_worth-sublistᴰ (Sublistᴰ.cons-cons e s) = omega (arith, ap worth e, total_worth-sublistᴰ s)

-- The target of a successful run parsed.
select_utxo_target :
    (sort_slice : SortSlice) (us : List UtxoInfo) (target_value : Bytes) (u' : Option UtxoList)
    → select_utxo sort_slice (some (listed us)) target_value ≡ done u' none
    → (t : ℕ) × (parsed (parse_uint target_value) ≡ some t)
unfolding select_utxo
select_utxo_target sort_slice us target_value u' h = go (parse_uint target_value) h
  where
    go :
        (r : ℕ × Option NumError)
        → select_parsed sort_slice (listed us) target_value (map some us) r ≡ done u' none
        → (t : ℕ) × (parsed r ≡ some t)
    go (t, none) k = (t, refl)
    go (t, some e) k = cc

-- The list after a SelectUtxo that returned no error.
abbrev pub coins : Option UtxoList → List UtxoInfo
coins none = []
coins (some u) = present u.list

finish_done :
    (target_value : Bytes) (t : ℕ) (sorted : List UtxoInfo) (r : List UtxoInfo × ℕ)
    (u' : Option UtxoList)
    → finish target_value t sorted r ≡ done u' none
    → (t ≤ r.1) × (coins u' ≡ r.0)
unfolding finish
finish_done target_value t sorted (sel, total) u' h = elim (Bool-cases (ltb total t)) [
  | inl e ↦ absurd (ground arith)
  | inr e ↦ (
    ground arith,
    let same : u' ≡ some (record { list = slice_of sel }) = ground arith in
        rw same (present-slice_of sel),
  )
]

-- Whatever sort.Slice does: if SelectUtxo returns no error then the target parsed, the values of
-- the coins that it leaves in the list add up to the target at least, in true numbers and not only
-- in uint64, and they are coins of the sorted list, each as often at most.
pub select_utxo_covers :
    (sort_slice : SortSlice) (us : List UtxoInfo) (target_value : Bytes) (u' : Option UtxoList)
    → select_utxo sort_slice (some (listed us)) target_value ≡ done u' none
    → (t : ℕ) × (parsed (parse_uint target_value) ≡ some t)
      × (t ≤ total_worth (coins u'))
      × Sublist (coins u') (sort_slice less us)
select_utxo_covers sort_slice us target_value u' h =
    let (t, p) = select_utxo_target sort_slice us target_value u' h in
    let sorted = sort_slice less us in
    let (le, same) =
      finish_done target_value t sorted (collect t [] 0 sorted) u'
        (sym (select_utxo_lem sort_slice us target_value t p) ∙ h) in
    let (extra, eq, sub) = collect-sublist t 0 [] sorted in
    (
      t,
      p,
      rw same (omega (arith, le, collect-le-worth t 0 [] sorted (omega arith))),
      rw (same, eq) (∣ sub ∣₁),
    )

module _ (sort_slice : SortSlice) (us : List UtxoInfo) (permutes : Perm (sort_slice less us) us)
    (no_wrap : total_worth us < 2 ^ 64) (target_value : Bytes) {t : ℕ}
    (target_ok : parsed (parse_uint target_value) ≡ some t) where
  -- Where sort.Slice permutes and the total fits a uint64, the balance is found too small exactly
  -- when the total is below the target; the list keeps all its coins, sorted, and the error tells
  -- the true total.
  pub select_utxo_insufficient : (total_worth us < t) ↔ (
      select_utxo sort_slice (some (listed us)) target_value
      ≡ done
          (some (listed (sort_slice less us)))
          (some (insufficient target_value (total_worth us))))
  unfolding finish
  select_utxo_insufficient = (
    λ lt.
        select_utxo_lem sort_slice us target_value t target_ok
        ∙ ground (arith, collect_complete t 0 [] sorted, same, none_yet, coins-le-all),
    λ eq. elim (Bool-cases (ltb run.1 t)) [
      | inl low ↦ ground (arith, collect_complete t 0 [] sorted, same, none_yet, coins-le-all)
      | inr high ↦
          absurd (ground (arith, eq, select_utxo_lem sort_slice us target_value t target_ok))
    ],
  )
    where
      sorted : List UtxoInfo
      sorted = sort_slice less us

      run : List UtxoInfo × ℕ
      run = collect t [] 0 sorted

      same : total_worth sorted ≡ total_worth us
      same = total_worth-perm permutes

      none_yet : total_worth [] ≡ 0
      none_yet = unfold total_worth in refl

      coins-le-all : total_worth run.0 ≤ total_worth us
      coins-le-all =
          let (extra, eq, sub) = collect-sublist t 0 [] sorted in
          rw eq (omega (arith, total_worth-sublistᴰ sub, same))

  -- Where sort.Slice permutes, the total fits a uint64 and is the target at least, SelectUtxo
  -- returns no error, and the coins that it leaves are none, or worth less than the target without
  -- the last.
  pub select_utxo_minimal :
      t ≤ total_worth us
      → (u' : Option UtxoList) × (select_utxo sort_slice (some (listed us)) target_value
          ≡ done u' none)
        × ((coins u' ≡ [])
            ⊎ ((front : List UtxoInfo) × (last : UtxoInfo) × (coins u' ≡ front ++ last ∷ [])
                × (total_worth front < t)))
  unfolding finish
  select_utxo_minimal le = (
    some (record { list = slice_of run.0 }),
    select_utxo_lem sort_slice us target_value t target_ok
        ∙ ground (arith, collect_complete t 0 [] sorted, same, none_yet),
    rw (present-slice_of run.0)
        (collect_minimal t 0 [] sorted (omega (arith, none_yet)) (omega (arith, same, none_yet))),
  )
    where
      sorted : List UtxoInfo
      sorted = sort_slice less us

      run : List UtxoInfo × ℕ
      run = collect t [] 0 sorted

      same : total_worth sorted ≡ total_worth us
      same = total_worth-perm permutes

      none_yet : total_worth [] ≡ 0
      none_yet = unfold total_worth in refl

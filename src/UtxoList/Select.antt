-- ===== src/UtxoList/Select.antt =====
-- signing/utxolist.go, SelectUtxo: the coins taken cover the target, and none is taken too many.
use mathlib.Core.List.{Sublistᴰ}
use mathlib.Core.List.Sublistᴰ
use wallet_sdk.Common.{
  ℕ, ◌+◌, ◌%◌, ◌^◌, ◌≤◌, ◌<◌, ◌≡◌, refl, arith, none, some, List, [], ◌∷◌, ◌++◌, leb, append_assoc,
  append-nil, ◌⊎◌, inl, inr, Bool-cases, sym, ◌∙◌, Option-cases,
}
use wallet_sdk.Go.Strconv.{parsed, parse_uint}
use wallet_sdk.UtxoList.{UtxoInfo, collect}

-- The value of a coin, and 0 if it does not parse.
unfoldable pub worth : UtxoInfo → ℕ
worth u = elim (parsed (parse_uint u.value)) [ some v ↦ v | none ↦ 0 ]

-- The true sum, with no wrap-around.
unfoldable pub total_worth : List UtxoInfo → ℕ
unfolding worth
total_worth [] = 0
total_worth (u ∷ us) = worth u + total_worth us

total_worth-append :
    (us vs : List UtxoInfo) → total_worth (us ++ vs) ≡ total_worth us + total_worth vs
unfolding total_worth
total_worth-append [] vs = omega arith
total_worth-append (u ∷ us) vs = omega (arith, total_worth-append us vs)

pub worth-parsed : (u : UtxoInfo) (v : ℕ) → parsed (parse_uint u.value) ≡ some v → worth u ≡ v
unfolding worth
worth-parsed u v h = rw (h, worth)

worth-unparsed : (u : UtxoInfo) → parsed (parse_uint u.value) ≡ none → worth u ≡ 0
unfolding worth
worth-unparsed u h = rw (h, worth)

total_worth-one :
    (us : List UtxoInfo) (u : UtxoInfo) → total_worth (us ++ u ∷ []) ≡ total_worth us + worth u
total_worth-one us u = total_worth-append us (u ∷ []) ∙ (unfold total_worth in omega arith)

-- The running sum never passes the true one.
pub collect-le-worth :
    (target total : ℕ) (selected us : List UtxoInfo)
    → total ≤ total_worth selected
    → (collect target selected total us).1 ≤ total_worth (collect target selected total us).0
unfolding collect
collect-le-worth target total selected [] h = h
collect-le-worth target total selected (u ∷ us) h =
    elim (Option-cases (parsed (parse_uint u.value))) [
      | inl e ↦ (ground (arith, collect-le-worth target total selected us h))
      | inr (v, e) ↦
          (ground (
            arith,
            total_worth-one selected u,
            worth-parsed u v e,
            collect-le-worth target ((total + v) % 2 ^ 64) (selected ++ u ∷ []) us,
          ))
    ]

-- With no wrap-around the running sum is the true one, and the loop stops short of the target only
-- if all coins were taken.
pub collect_complete :
    (target total : ℕ) (selected us : List UtxoInfo)
    → total ≡ total_worth selected
    → total_worth selected + total_worth us < 2 ^ 64
    → ((collect target selected total us).1 ≡ total_worth (collect target selected total us).0)
      × ((target ≤ (collect target selected total us).1)
          ⊎ (total_worth (collect target selected total us).0
              ≡ total_worth selected + total_worth us))
unfolding collect
collect_complete target total selected [] h k = (h, inr (unfold total_worth in omega arith))
collect_complete target total selected (u ∷ us) h k =
    elim (Option-cases (parsed (parse_uint u.value))) [
      | inl e ↦
          (ground (arith, whole, worth-unparsed u e, collect_complete target total selected us))
      | inr (v, e) ↦
          (ground (
            arith,
            whole,
            worth-parsed u v e,
            total_worth-one selected u,
            collect_complete target ((total + v) % 2 ^ 64) (selected ++ u ∷ []) us,
          ))
    ]
  where
    whole : total_worth (u ∷ us) ≡ worth u + total_worth us
    whole = unfold total_worth in refl

-- The coins that the loop adds are some of those it walks over, in their order.
pub collect-sublist :
    (target total : ℕ) (selected us : List UtxoInfo)
    → (extra : List UtxoInfo) × ((collect target selected total us).0 ≡ selected ++ extra)
      × Sublistᴰ extra us
unfolding collect
collect-sublist target total selected [] = ([], sym (append-nil selected), Sublistᴰ.slnil)
collect-sublist target total selected (u ∷ us) = elim (Bool-cases (leb target total)) [
  | inl e ↦ ([], ground (arith, append-nil selected), Sublistᴰ.nil-sublist (u ∷ us))
  | inr e ↦ elim (Option-cases (parsed (parse_uint u.value))) [
    | inl p ↦
        let (extra, eq, sub) = collect-sublist target total selected us in
        (extra, ground (arith, eq), Sublistᴰ.cons sub)
    | inr (v, p) ↦
        let (extra, eq, sub) =
          collect-sublist target ((total + v) % 2 ^ 64) (selected ++ u ∷ []) us in
        (
          u ∷ extra,
          ground (arith, eq, append_assoc selected (u ∷ []) extra),
          Sublistᴰ.cons-cons refl sub,
        )
  ]
]

-- The last coin was needed: without it the total is below the target.
pub collect_minimal :
    (target total : ℕ) (selected us : List UtxoInfo)
    → total ≡ total_worth selected
    → total_worth selected + total_worth us < 2 ^ 64
    → ((collect target selected total us).0 ≡ selected)
      ⊎ ((front : List UtxoInfo) × (last : UtxoInfo) × ((collect target selected total us).0
            ≡ front ++ last ∷ [])
          × (total_worth front < target))
unfolding collect
collect_minimal target total selected [] h k = inl refl
collect_minimal target total selected (u ∷ us) h k = elim (Bool-cases (leb target total)) [
  | inl e ↦ inl (ground arith)
  | inr e ↦ elim (Option-cases (parsed (parse_uint u.value))) [
    | inl p ↦ elim (collect_minimal target total selected us h (omega (arith, whole))) [
      | inl same ↦ inl (ground (arith, same))
      | inr (front, last, eq, lt) ↦ inr (front, last, ground (arith, eq), lt)
    ]
    | inr (v, p) ↦
        elim (collect_minimal target ((total + v) % 2 ^ 64) (selected ++ u ∷ []) us
          (omega (arith, whole, worth-parsed u v p, total_worth-one selected u))
          (omega (arith, whole, total_worth-one selected u))) [
            | inl same ↦ inr (selected, u, ground (arith, same), ground arith)
            | inr (front, last, eq, lt) ↦ inr (front, last, ground (arith, eq), lt)
          ]
  ]
]
  where
    whole : total_worth (u ∷ us) ≡ worth u + total_worth us
    whole = unfold total_worth in refl

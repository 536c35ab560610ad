-- ===== src/Rpc/Confirmations.antt =====
-- rpc/confirmations.go: how many blocks are on top of a transaction's.
use wallet_sdk.Common.{
  ℕ, ◌+◌, ◌-◌, ◌%◌, ◌^◌, ◌<◌, ◌≡◌, arith, Option, none, some, ltb, ◌==◌, if◌then◌else◌, Bytes,
  Result, ok, err, inl, inr, Option-cases,
}
use wallet_sdk.Go.Strconv.{parsed, parse_uint}
use wallet_sdk.Go.Strconv.Laws.{parsed_bound}

pub data HeightError : Type 0 where
  invalid_tx_height latest_failed invalid_latest : HeightError

-- The difference of the heights, both uint64s, whose subtraction wraps.
unfoldable pub difference : ℕ → ℕ → ℕ
difference latest height = if ltb latest height then 0 else (latest + (2 ^ 64 - height)) % 2 ^ 64

-- Behind the transaction's height, with the node's answer.
unfoldable pub above_height : ℕ → Option Bytes → Result HeightError ℕ
unfolding difference
above_height height none = err latest_failed
above_height height (some latest) = elim (parsed (parse_uint latest)) [
  | none ↦ err invalid_latest
  | some l ↦ ok (difference l height)
]

-- `latest_height` is what the node answers, or an error; it is asked only if it is needed.
unfoldable pub confirmations : Bytes → ℕ → Option Bytes → Result HeightError ℕ
unfolding above_height
confirmations tx_height required latest_height =
    if required == 0 then ok 0 else elim (parsed (parse_uint tx_height)) [
      | none ↦ err invalid_tx_height
      | some height ↦
          if height == 0 then err invalid_tx_height else above_height height latest_height
    ]

-- Where confirmations are required and Confirmations returns a count of one or more, both heights
-- parsed, the transaction's is not 0, and it and the count make up the node's in true numbers: the
-- subtraction does not wrap.
pub confirmations_lem :
    (tx_height latest : Bytes) (required count : ℕ)
    → 0 < required
    → 0 < count
    → confirmations tx_height required (some latest) ≡ ok count
    → (height tip : ℕ) × (parsed (parse_uint tx_height) ≡ some height)
      × (parsed (parse_uint latest) ≡ some tip)
      × (0 < height)
      × (height + count ≡ tip)
unfolding confirmations
confirmations_lem tx_height latest required count needed some_blocks h =
    elim (Option-cases (parsed (parse_uint tx_height))) [
      | inl e ↦ absurd (ground (arith, e, h))
      | inr (height, e) ↦ elim (Option-cases (parsed (parse_uint latest))) [
        | inl f ↦ absurd (ground (arith, e, f, h))
        | inr (tip, f) ↦ (
          height,
          tip,
          e,
          f,
          ground (arith, e, f, h),
          ground (arith, e, f, h, parsed_bound tx_height e, parsed_bound latest f),
        )
      ]
    ]

-- ===== src/Examples/Shares.antt =====
-- crypto/internal/shamir/shamir.go on a secret of two bytes, of which two of three shares are enough.
use mathlib.Core.List.Memᴰ as Memᴰ
use wallet_sdk.Common.{
  ◌≡◌, refl, arith, List, [], ◌∷◌, ◌++◌, Bytes, replicate, ok, ◌≢◌, ◌≤◌, ◌<◌, get_or, ap, Bool,
  true, ltb, ◌&&◌, map, length, All,
}
use wallet_sdk.Crypto.Field.Interpolate.{Distinct}
use wallet_sdk.Crypto.Shamir.Laws.{divide-multiply}
use wallet_sdk.Crypto.Shamir.Shares.{AllBytes}
use wallet_sdk.Crypto.Shamir.Recover.{interpolate_at_zero-evaluate}
use wallet_sdk.Crypto.Shamir.Power.{product_of, power-product_of}
use wallet_sdk.Crypto.Shamir.Made.{split-Distinct}
use wallet_sdk.Crypto.Shamir.Threshold.{combine-split}
use wallet_sdk.Crypto.Shamir.Checks.{coordinate, combine_checks}
use wallet_sdk.Crypto.Shamir.Progress.{split-ok}
use wallet_sdk.Crypto.Shamir.Secrecy.{evaluate-secret}
use wallet_sdk.Crypto.Shamir.{
  multiply, rounds, power, power_loop, divide, evaluate, weigh, interpolate_from,
  interpolate_at_zero, read_full, random_index, swap, shuffle, count_up, random_coordinates,
  fill_shares, split_from, split, seen_before, check_shares, combine_from, combine,
}

-- 254 draws for the coordinates, one byte for each polynomial, and one that is not read.
abbrev draws : Bytes
draws = replicate 254 0 ++ (5 ∷ 9 ∷ 77 ∷ [])

abbrev two_of_three : List Bytes
two_of_three = (62 ∷ 35 ∷ 4 ∷ []) ∷ (32 ∷ 21 ∷ 2 ∷ []) ∷ []

abbrev three_shares : List Bytes
three_shares = (32 ∷ 21 ∷ 2 ∷ []) ∷ (37 ∷ 28 ∷ 3 ∷ []) ∷ (62 ∷ 35 ∷ 4 ∷ []) ∷ []

three : split (42 ∷ 7 ∷ []) 3 2 draws ≡ ok three_shares
unfolding split split_from fill_shares random_coordinates count_up shuffle swap random_index
    read_full evaluate multiply rounds
three = refl

abbrev all_small : Bytes → Bool
all_small [] = true
all_small (b ∷ bs) = ltb b 256 && all_small bs

small : (bs : Bytes) → all_small bs ≡ true → AllBytes bs
small [] h = tt
small (b ∷ bs) h = (ground arith, small bs (ground arith))

draws-AllBytes : AllBytes draws
draws-AllBytes = small draws refl

different : Distinct two_of_three
different = ((λ e. absurd (omega (arith, ap (λ (s : Bytes). get_or s 0 0) e)), tt), (tt, tt))

combine-split_example : combine two_of_three ≡ ok (42 ∷ 7 ∷ [])
combine-split_example =
    combine-split (42 ∷ 7 ∷ []) 3 2 draws two_of_three (omega arith, (omega arith, tt))
      draws-AllBytes (omega arith) (omega arith) three
      (Memᴰ.tail (Memᴰ.tail (Memᴰ.head refl)), (Memᴰ.head refl, tt)) different (omega arith)
      (omega arith)

split-Distinct_example :
    (length three_shares ≡ 3) × All (λ share. length share ≡ 3) three_shares × Distinct three_shares
split-Distinct_example =
    split-Distinct (42 ∷ 7 ∷ []) 3 2 draws draws-AllBytes (omega arith) (omega arith) three

combined : combine two_of_three ≡ ok (42 ∷ 7 ∷ [])
unfolding combine combine_from check_shares seen_before interpolate_at_zero interpolate_from weigh
    divide power power_loop multiply rounds
combined = refl

combine_checks_example :
    (2 ≤ 2)
    × (2 < 256)
    × (0 < 2)
    × All (λ share. (length share ≡ 3) × (coordinate 3 share ≢ 0)) two_of_three
    × Distinct (map (coordinate 3) two_of_three)
combine_checks_example = combine_checks two_of_three combined

interpolate_at_zero-evaluate_example :
    interpolate_at_zero (2 ∷ 4 ∷ []) (map (evaluate (42 ∷ 5 ∷ [])) (2 ∷ 4 ∷ [])) ≡ 42
interpolate_at_zero-evaluate_example =
    interpolate_at_zero-evaluate 42 (5 ∷ []) (2 ∷ 4 ∷ []) (omega arith, (omega arith, tt))
      (omega arith, (omega arith, tt)) ((λ e. absurd (omega (arith, e)), tt), (tt, tt))
      (omega arith)

evaluate-secret_example :
    (ds : Bytes) × AllBytes ds
    × (length ds ≡ 1)
    × (map (evaluate (99 ∷ ds)) (2 ∷ []) ≡ map (evaluate (42 ∷ 5 ∷ [])) (2 ∷ []))
evaluate-secret_example =
    evaluate-secret 42 99 (5 ∷ []) (2 ∷ []) (omega arith, (omega arith, (omega arith, tt)))
      ((omega arith, omega arith), tt) (omega arith)

divide-multiply_example : multiply (divide 19 83) 83 ≡ 19
divide-multiply_example =
    divide-multiply 19 83 (omega arith) (omega arith) (λ e. absurd (omega (arith, e)))

power-product_of_example : power 3 5 ≡ product_of 3 5
power-product_of_example = power-product_of 3 5 (omega arith) (omega arith)

split-ok_example : (shares : List Bytes) × (split (42 ∷ 7 ∷ []) 3 2 draws ≡ ok shares)
split-ok_example =
    split-ok (42 ∷ 7 ∷ []) 3 2 draws (omega arith) (omega arith) (omega arith) (omega arith)
      (omega arith)

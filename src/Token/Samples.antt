-- ===== src/Token/Samples.antt =====
-- The samples of the rounds and their sum.
use nv_resource_controller.Prelude.{
  ℕ, zero, suc, ◌*◌, ◌^◌, ◌≤◌, ◌<◌, ◌≡◌, refl, List, [], ◌∷◌, length, arith,
}
use nv_resource_controller.Prelude.Int.{ℤ, pos, negsuc}
use nv_resource_controller.Token.{times, sum_samples, set_sample}
use nv_resource_controller.Token.Round.{AllAtMost, sum_samples_lem}

sum_count : (xs : List ℤ) → (sum_samples xs).1 ≤ length xs
unfolding sum_samples
sum_count [] = omega arith
sum_count (negsuc n ∷ xs) = omega (arith, sum_count xs)
sum_count (pos zero ∷ xs) = omega (arith, sum_count xs)
sum_count (pos (suc n) ∷ xs) = omega (arith, sum_count xs)

pub set_sample-AllAtMost :
    (bound i : ℕ) (n : ℤ) (xs : List ℤ)
    → times n ≤ bound
    → AllAtMost bound xs
    → AllAtMost bound (set_sample i n xs)
unfolding set_sample
set_sample-AllAtMost bound i n [] h b = b
set_sample-AllAtMost bound zero n (x ∷ xs) h b = (h, b.1)
set_sample-AllAtMost bound (suc i) n (x ∷ xs) h b = (b.0, set_sample-AllAtMost bound i n xs h b.1)

pub length-set_sample : (i : ℕ) (n : ℤ) (xs : List ℤ) → length (set_sample i n xs) ≡ length xs
unfolding set_sample
length-set_sample i n [] = refl
length-set_sample zero n (x ∷ xs) = refl
length-set_sample (suc i) n (x ∷ xs) = omega (arith, length-set_sample i n xs)

-- Ten samples of at most `bound` come to an `int32_t`.
pub sum_fits :
    (bound : ℕ) (xs : List ℤ)
    → bound * 10 < 2 ^ 31
    → length xs ≤ 10
    → AllAtMost bound xs
    → (sum_samples xs).0 < 2 ^ 31
sum_fits bound xs small ten b = grind (arith, sum_samples_lem bound xs b, sum_count xs)

-- ===== src/Token/Round.antt =====
-- What one round of `token_post` does.
use nv_resource_controller.Prelude.{
  refl, false, Bool-cases, inl, inr, ◌-◌, ℕ, zero, suc, ◌+◌, ◌*◌, ◌/◌, ◌%◌, ◌^◌, ◌≤◌, ◌<◌, ◌≡◌,
  some, List, [], ◌∷◌, ◌==◌, if◌then◌else◌, arith,
}
use nv_resource_controller.Prelude.Int.{ℤ, pos, negsuc}
use nv_resource_controller.Prelude.Run.{and_then, ok, fault}
use nv_resource_controller.Token.{
  TokenState, TokenLocals, launch_samples, initial_locals, begin_round, end_round, times, as_int32,
  set_sample, sum_samples, average, posted,
}

-- No sample is above the bound.
abbrev pub AllAtMost : ℕ → List ℤ → Type 0
AllAtMost bound [] = Unit {0}
AllAtMost bound (x ∷ xs) = (times x ≤ bound) × AllAtMost bound xs

pub sum_samples_lem :
    (bound : ℕ) (xs : List ℤ) → AllAtMost bound xs → (sum_samples xs).0 ≤ (sum_samples xs).1 * bound
unfolding sum_samples
sum_samples_lem bound [] b = omega arith
sum_samples_lem bound (negsuc n ∷ xs) b = sum_samples_lem bound xs b.1
sum_samples_lem bound (pos zero ∷ xs) b = sum_samples_lem bound xs b.1
sum_samples_lem bound (pos (suc n) ∷ xs) b = grind (arith, sum_samples_lem bound xs b.1)

-- A quotient of something no greater than `j * bound`.
div_at_most : (sum j bound : ℕ) → sum ≤ j * bound → sum / (j + 1) ≤ bound
div_at_most sum j bound h = grind arith

-- The average that is stored is at least 1 and no greater than a positive bound on the samples.
pub average_bounds :
    (bound : ℕ) (xs : List ℤ)
    → 1 ≤ bound
    → AllAtMost bound xs
    → (1 ≤ average xs) × (average xs ≤ bound)
unfolding average
average_bounds bound xs h b =
    let q = div_at_most (sum_samples xs).0 (sum_samples xs).1 bound (sum_samples_lem bound xs b) in
    (ground arith, ground (arith, q))

-- The attributes and the locals after the first half of a round.
abbrev pub begun : TokenLocals → TokenState → TokenLocals
begun l s = record l {
  loop = l.loop + 1;
  interval = if s.attr.changed then s.attr.tv_nsec else l.interval;
  add_per_cycle = if s.attr.changed then some s.attr.add_per_cycle else l.add_per_cycle;
}

abbrev pub cleared : TokenState → TokenState
cleared s = record s { attr = record s.attr { changed = false; launch_times = 0 } }

pub begin_round_lem :
    (l : TokenLocals) (s : TokenState)
    → l.loop + 1 < 2 ^ 31
    → begin_round l s ≡ ok (begun l s) (cleared s)
unfolding begin_round
begin_round_lem l s h =
    let low : ((l.loop == 2 ^ 31 - 1) ≡ false) = ground arith in
    elim (Bool-cases s.attr.changed) [ inl e ↦ simp (low, e) refl | inr e ↦ simp (low, e) refl ]

-- The samples of a round.
abbrev pub sampled : TokenLocals → TokenState → List ℤ
sampled l s = set_sample (l.loop % launch_samples) (as_int32 s.attr.launch_times) l.launch_times

-- With parameters read, a sum that is an `int32_t` and `launch_idx` not negative, the second half of a
-- round posts `add_per_cycle` tokens, as far as the semaphore goes, stores the average of the samples at the place that `launch_idx`
-- names, leaves the other place alone, and moves `launch_idx` on.
pub end_round_lem :
    (l : TokenLocals) (s : TokenState) (n : ℤ)
    → l.add_per_cycle ≡ some n
    → (sum_samples (sampled l s)).0 < 2 ^ 31
    → s.attr.launch_idx < 2 ^ 31
    → let avg : ℕ = average (sampled l s) in
      end_round l s
      ≡ ok
          (record l { launch_times = sampled l s })
          (record s {
            tokens = posted s.tokens (times n);
            attr = record s.attr {
              avg_launchs_0 = if s.attr.launch_idx % 2 == 0 then avg else s.attr.avg_launchs_0;
              avg_launchs_1 = if s.attr.launch_idx % 2 == 0 then s.attr.avg_launchs_1 else avg;
              launch_idx = s.attr.launch_idx + 1;
            };
          })
unfolding end_round
end_round_lem l s n e fits idx = rw e (ground arith)

-- Two processes share the attributes. Whatever they hold, once the thread of one has begun a round,
-- the thread of the other starts with a number of tokens that nothing has written.
pub end_round-begin_round_unset :
    (l : TokenLocals) (s : TokenState)
    → l.loop + 1 < 2 ^ 31
    → and_then (begin_round l s) (λ _ t. and_then (begin_round initial_locals t) end_round) ≡ fault
unfolding begin_round end_round
end_round-begin_round_unset l s h = ground arith

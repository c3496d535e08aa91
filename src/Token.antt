-- ===== src/Token.antt =====
-- The loop of `token_post` of src/ioctl_hook.c, cut in two at `wait_duration`, while which other
-- threads run.
pub mod Loop
pub mod Round
pub mod Samples
use nv_resource_controller.Prelude.{
  ℕ, zero, suc, ◌+◌, ◌-◌, ◌/◌, ◌%◌, ◌^◌, Bool, true, false, Option, none, some, List, [], ◌∷◌, ◌==◌,
  ltb, leb, if◌then◌else◌,
}
use nv_resource_controller.Prelude.Int.{ℤ, pos, negsuc}
use nv_resource_controller.Hook.Types.{TokenAttr}
use nv_resource_controller.Prelude.Run.{Cmd, ok, fault, pure, ◌>>=◌, ◌>>◌}

-- What the thread shares: `dev->attr` and the semaphore `dev->tokens`.
pub record TokenState : Type 0 where
  pub attr : TokenAttr
  pub tokens : ℕ

-- Its local variables. `add_per_cycle` of `params` is `none` as long as nothing has written it.
pub record TokenLocals : Type 0 where
  pub loop : ℕ
  pub interval : ℕ
  pub add_per_cycle : Option ℤ
  pub launch_times : List ℤ

-- `LAUNCH_SAMPLES`
abbrev pub launch_samples : ℕ
launch_samples = 10

-- As they are when the thread starts.
abbrev zeros : ℕ → List ℤ
zeros zero = []
zeros (suc n) = pos 0 ∷ zeros n

abbrev pub initial_locals : TokenLocals
initial_locals = record {
  loop = 0;
  interval = 0;
  add_per_cycle = none;
  launch_times = zeros launch_samples;
}

-- `loop++`, for an `int`
next_loop : TokenLocals → Cmd TokenState TokenLocals
next_loop l = if l.loop == 2 ^ 31 - 1 then (λ s. fault) else pure (record l { loop = l.loop + 1 })

-- `if (unlikely(atomic_load(&dev->attr->changed))) { ... }`
take_changes : TokenLocals → Cmd TokenState TokenLocals
take_changes l s =
    if s.attr.changed
    then ok (record l { interval = s.attr.tv_nsec; add_per_cycle = some s.attr.add_per_cycle })
        (record s { attr = record s.attr { changed = false } })
    else ok l s

clear_launch_times : Cmd TokenState (Unit {0})
clear_launch_times s = ok tt (record s { attr = record s.attr { launch_times = 0 } })

-- From the head of the loop to `wait_duration`.
unfoldable pub begin_round : TokenLocals → Cmd TokenState TokenLocals
unfolding next_loop take_changes clear_launch_times
begin_round l = do l' ← next_loop l; l'' ← take_changes l'; clear_launch_times; pure l''

-- How often `for (i = 0; i < n; i++)` runs.
abbrev pub times : ℤ → ℕ
times (pos n) = n
times (negsuc n) = 0

-- `SEM_VALUE_MAX`, the largest `int`: a `sem_post` beyond it fails, which the loop does not look at.
abbrev pub sem_value_max : ℕ
sem_value_max = 2 ^ 31 - 1

-- The value of the semaphore after `n` calls of `sem_post`.
abbrev pub posted : (tokens n : ℕ) → ℕ
posted tokens n = if leb (tokens + n) sem_value_max then tokens + n else sem_value_max

-- The `for` of `sem_post(&dev->tokens)`
post_tokens : Option ℤ → Cmd TokenState (Unit {0})
post_tokens none s = fault
post_tokens (some n) s = ok tt (record s { tokens = posted s.tokens (times n) })

-- A 32-bit pattern as an `int32_t`.
abbrev pub as_int32 : ℕ → ℤ
as_int32 n = if ltb n (2 ^ 31) then pos n else negsuc (2 ^ 32 - 1 - n)

unfoldable pub set_sample : ℕ → ℤ → List ℤ → List ℤ
set_sample i n [] = []
set_sample zero n (x ∷ xs) = n ∷ xs
set_sample (suc i) n (x ∷ xs) = x ∷ set_sample i n xs

-- `sum_launch` and `j` after the loop over the samples.
unfoldable pub sum_samples : List ℤ → ℕ × ℕ
sum_samples [] = (0, 0)
sum_samples (negsuc n ∷ xs) = sum_samples xs
sum_samples (pos zero ∷ xs) = sum_samples xs
sum_samples (pos (suc n) ∷ xs) = let r = sum_samples xs in (suc n + r.0, r.1 + 1)

-- `sum_launch / (j + 1)`, and 1 in place of 0.
unfoldable pub average : List ℤ → ℕ
unfolding sum_samples
average xs = let avg = (sum_samples xs).0 / ((sum_samples xs).1 + 1) in if avg == 0 then 1 else avg

-- `avg_launchs[launch_idx % 2] = avg`: a negative odd `launch_idx` gives the index -1.
store_average : ℕ → Cmd TokenState (Unit {0})
store_average avg s =
    if s.attr.launch_idx % 2 == 0
    then ok tt (record s { attr = record s.attr { avg_launchs_0 = avg } })
    else if ltb s.attr.launch_idx (2 ^ 31)
    then ok tt (record s { attr = record s.attr { avg_launchs_1 = avg } })
    else fault

-- `atomic_fetch_add(&dev_params->launch_idx, 1)`
next_launch_idx : Cmd TokenState (Unit {0})
next_launch_idx s =
    ok tt (record s { attr = record s.attr { launch_idx = (s.attr.launch_idx + 1) % 2 ^ 32 } })

-- The sum is an `int32_t`, which must not overflow.
store_samples : TokenLocals → List ℤ → Cmd TokenState TokenLocals
unfolding average store_average next_launch_idx
store_samples l samples = if leb (2 ^ 31) (sum_samples samples).0 then (λ s. fault) else do
  store_average (average samples)
  next_launch_idx
  pure (record l { launch_times = samples })

sample : TokenLocals → Cmd TokenState TokenLocals
unfolding store_samples set_sample
sample l s =
    store_samples l
      (set_sample (l.loop % launch_samples) (as_int32 s.attr.launch_times) l.launch_times) s

-- From `wait_duration` to the end of the loop.
unfoldable pub end_round : TokenLocals → Cmd TokenState TokenLocals
unfolding post_tokens sample
end_round l = post_tokens l.add_per_cycle >> sample l

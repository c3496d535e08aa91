-- ===== src/Monitor.antt =====
-- src/server_monitor.c: how the monitor sets the pace of the launches.
pub mod Nvml
pub mod Pace
pub mod Watch
use nv_resource_controller.Prelude.{
  ℕ, ◌+◌, ◌-◌, ◌*◌, ◌%◌, ◌^◌, Bool, true, false, not, ◌&&◌, Option, none, some, ltb, leb, ◌==◌,
  if◌then◌else◌,
}
use nv_resource_controller.Prelude.Int.{ℤ, pos, negsuc, ◌+ℤ◌, ◌-ℤ◌, ltb_ℤ, abs, in_int}
use nv_resource_controller.Prelude.Run.{Cmd, ok, fault, pure, ◌>>=◌, ◌>>◌}
use nv_resource_controller.Hook.Types.{TokenAttr}

-- `float`, as far as the monitor computes with it. `to_int` is `none` where C leaves the conversion
-- undefined.
pub record Float : Type 1 where
  pub W : Type 0
  pub of_int : ℤ → W
  pub mul : W → W → W
  pub div : W → W → W
  pub add : W → W → W
  pub gt : W → W → Bool
  pub to_int : W → Option ℤ

-- `DEFAULT_WAIT_DURATION_MILLSEC * 1000UL * 1000UL`
abbrev pub default_wait_nsec : ℕ
default_wait_nsec = 100 * 1000 * 1000

-- `MODTIMES_PER_SEC * 5`
abbrev pub sample_ticks : ℕ
sample_ticks = 50

-- `MIN_SAMPLE_UTIL`
abbrev pub min_sample_util : ℤ
min_sample_util = pos 3

-- `new_cycle > 1 ? new_cycle : 1`
abbrev pub at_least_one : ℤ → ℤ
at_least_one n = if ltb_ℤ (pos 1) n then n else pos 1

-- The result of a conversion, and of arithmetic on `int`.
unfoldable pub converted : Option ℤ → Cmd TokenAttr ℤ
converted none s = fault
converted (some n) s = ok n s

unfoldable pub int : ℤ → Cmd TokenAttr ℤ
int n s = if in_int n then ok n s else fault

-- The first block of `init_attr`, with `sem_post(&attr->ready)`.
first_init : ℤ → Cmd TokenAttr (Unit {0})
first_init limit a = ok tt (record a {
  core_limit = limit;
  mod_times = 0;
  add_per_cycle = pos 1;
  avg_launchs_0 = 0;
  avg_launchs_1 = 0;
  launch_idx = 0;
  tv_nsec = default_wait_nsec;
  inited = true;
  ready = a.ready + 1;
})

-- `params->core_limit = limit; params->mod_times = 0;`
set_core_limit : ℤ → Cmd TokenAttr (Unit {0})
set_core_limit limit a = ok tt (record a { core_limit = limit; mod_times = 0 })

set_add_per_cycle : ℤ → Cmd TokenAttr (Unit {0})
set_add_per_cycle n a = ok tt (record a { add_per_cycle = n })

unfoldable pub same_limit : ℤ → ℤ → Bool
same_limit a b = not (ltb_ℤ a b) && not (ltb_ℤ b a)

get_attr : Cmd TokenAttr TokenAttr
get_attr a = ok a a

unfoldable pub set_changed : Cmd TokenAttr (Unit {0})
set_changed a = ok tt (record a { changed = true })

-- `cur_avg_launchs` and `last_avg_launchs`. A negative `launch_idx` gives the index -1 to one of the
-- two, and `INT_MAX + 1` is undefined.
unfoldable pub averages : Cmd TokenAttr (ℕ × ℕ)
averages a =
    if not (ltb a.launch_idx (2 ^ 31 - 1))
    then fault
    else if a.launch_idx % 2 == 0
    then ok (a.avg_launchs_0, a.avg_launchs_1) a
    else ok (a.avg_launchs_1, a.avg_launchs_0) a

-- `params->mod_times++`
unfoldable pub next_mod_times : Cmd TokenAttr ℕ
next_mod_times a =
    if a.mod_times == 2 ^ 31 - 1
    then fault
    else ok (a.mod_times + 1) (record a { mod_times = a.mod_times + 1 })

-- `old_cycle <= MIN_SAMPLE_UTIL`
unfoldable pub warm_up : ℤ → Cmd TokenAttr (Unit {0})
unfolding set_add_per_cycle set_changed
warm_up old_cycle =
    if ltb_ℤ min_sample_util old_cycle
    then pure tt
    else (set_add_per_cycle (old_cycle +ℤ pos 1) >> set_changed)

-- `cycle_signed`, and its product with a number that is not negative
abbrev pub cycle_signed : ℤ → ℤ
cycle_signed err = if ltb_ℤ (pos 0) err then pos 1 else negsuc 0

abbrev pub signed : ℤ → ℤ → ℤ
signed err delta = if ltb_ℤ (pos 0) err then delta else pos 0 -ℤ delta

-- `delta_cycle < 0 ? 1 : delta_cycle`
abbrev pub not_negative : ℤ → ℤ
not_negative delta = if ltb_ℤ delta (pos 0) then pos 1 else delta

module _ (f : Float) where
  -- `(float)add_per_cycle * (float)core_limit / (float)limit`, read after `core_limit` has been set
  abbrev pub rescaled : TokenAttr → ℤ → f.W
  rescaled a limit =
      f.div (f.mul (f.of_int a.add_per_cycle) (f.of_int a.core_limit)) (f.of_int limit)

  -- The second block: another limit.
  unfoldable pub change_limit : ℤ → Cmd TokenAttr (Unit {0})
  unfolding set_core_limit get_attr converted set_add_per_cycle
  change_limit limit = do
    set_core_limit limit
    a ← get_attr
    new_cycle ← converted (f.to_int (rescaled a limit))
    set_add_per_cycle (at_least_one new_cycle)

  unfoldable pub init_attr : ℤ → Cmd TokenAttr (Unit {0})
  unfolding get_attr first_init same_limit change_limit set_changed
  init_attr limit = do
    a ← get_attr
    (if not a.inited then first_init limit else pure tt)
    a' ← get_attr
    (if not (same_limit a'.core_limit limit) then change_limit limit else pure tt)
    set_changed

  abbrev pub of_nat : ℕ → f.W
  of_nat n = f.of_int (pos n)

  -- `(abs(err) / util_per_kernel) / 4`
  abbrev pub delta_of : ℤ → (util : ℤ) → (cur : ℕ) → f.W
  delta_of err util cur =
      f.div (f.div (of_nat (abs err)) (f.div (f.of_int util) (of_nat cur))) (of_nat 4)

  -- `avg_delta_ratio` and `cycle_delta_ratio`
  abbrev pub avg_delta_ratio : (cur last : ℕ) → f.W
  avg_delta_ratio cur last = f.div (of_nat (abs (pos cur -ℤ pos last))) (of_nat (last + 1))

  abbrev pub cycle_delta_ratio : (new_cycle old_cycle : ℤ) → f.W
  cycle_delta_ratio new_cycle old_cycle =
      f.div (of_nat (abs (new_cycle -ℤ old_cycle))) (f.of_int old_cycle)

  -- `old_cycle + (float)last_avg_launchs * avg_delta_ratio * cycle_signed`
  abbrev pub limited_cycle : (err old_cycle : ℤ) → (cur last : ℕ) → f.W
  limited_cycle err old_cycle cur last =
      f.add (f.of_int old_cycle)
        (f.mul (f.mul (of_nat last) (avg_delta_ratio cur last)) (f.of_int (cycle_signed err)))

  -- Is it an overload?
  abbrev pub overload : (new_cycle old_cycle : ℤ) → (cur last : ℕ) → Bool
  overload new_cycle old_cycle cur last =
      not (cur == last) && f.gt (cycle_delta_ratio new_cycle old_cycle) (avg_delta_ratio cur last)

  -- Every `sample_ticks` ticks.
  unfoldable pub adjust : (err util old_cycle : ℤ) → (cur last : ℕ) → Cmd TokenAttr (Unit {0})
  unfolding converted int set_add_per_cycle set_changed
  adjust err util old_cycle cur last = do
    magnitude ← int (pos (abs err))
    delta ← converted (f.to_int (delta_of err util cur))
    new_cycle ← int (old_cycle +ℤ signed err (not_negative delta))
    new_cycle' ←
        (if overload new_cycle old_cycle cur last
          then converted (f.to_int (limited_cycle err old_cycle cur last))
          else pure new_cycle)
    set_add_per_cycle (if ltb_ℤ new_cycle' (pos 1) then pos 1 else new_cycle')
    set_changed

  -- From the test of `attr->changed` on.
  unfoldable pub delta_step : (util limit : ℤ) → Cmd TokenAttr (Unit {0})
  unfolding averages get_attr int next_mod_times
  delta_step util limit = do
    (cur, last) ← averages
    a ← get_attr
    err ← int (limit -ℤ util)
    mod_times ← next_mod_times
    (if leb mod_times sample_ticks
        then warm_up a.add_per_cycle
        else if mod_times % sample_ticks == 0
        then adjust err util a.add_per_cycle cur last
        else pure tt)

  unfoldable pub delta_change : (util limit : ℤ) → Cmd TokenAttr (Unit {0})
  delta_change util limit a = if a.changed then ok tt a else delta_step util limit a

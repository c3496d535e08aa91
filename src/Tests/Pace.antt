-- ===== src/Tests/Pace.antt =====
-- A monitor of the group "ab" on whole numbers, with one process under load.
use nv_resource_controller.Prelude.{
  All, ℕ, ◌*◌, ◌/◌, ◌≡◌, refl, ap, true, false, Option, none, some, List, [], ◌∷◌, ◌++◌, ◌==◌,
  Bool-cases, inl, inr, if◌then◌else◌, arith,
}
use nv_resource_controller.Prelude.Int.{ℤ, pos, ◌+ℤ◌, ltb_ℤ}
use nv_resource_controller.Prelude.Run.{ok, Returns}
use nv_resource_controller.Hook.Types.{TokenAttr}
use nv_resource_controller.Monitor.{Float, init_attr, delta_change}
use nv_resource_controller.Monitor.Pace.{
  IsExact, IsRunning, Converts, IsTicked, init_attr_unscaled, delta_change-IsTicked,
}
use nv_resource_controller.Monitor.Nvml.{
  Sample, UtilCalls, max_cgroup_id_len, micros, util_of, get_gpu_util,
}
use nv_resource_controller.Monitor.Nvml.Sampled.{
  id_read, first_sample, Gives, load_of, FitsInt, get_gpu_util_lem,
}
use nv_resource_controller.Monitor.Watch.{Turn, run_turn}
use nv_resource_controller.Monitor.Watch.Turns.{seen, Turned, run_turn_lem}
use nv_resource_controller.Prelude.Text.{Text, c_string, strstr, starts_with, eq_text}
use nv_resource_controller.Hook.Memory.{missing, holds, update}
use nv_resource_controller.Util.Cgroup.{devices, last_slash, read_lines, get_cgroup_id}
use nv_resource_controller.Util.Wait.{Timespec, interrupted}
use nv_resource_controller.Tests.Tokens.{attr}

-- Whole numbers for `float`
abbrev times_ℤ : ℤ → ℤ → ℤ
times_ℤ (pos a) (pos b) = pos (a * b)
times_ℤ a b = pos 0

abbrev div_ℤ : ℤ → ℤ → ℤ
div_ℤ (pos a) (pos b) = pos (a / b)
div_ℤ a b = pos 0

abbrev pub float : Float
float = record {
  W = ℤ;
  of_int = λ n. n;
  mul = times_ℤ;
  div = div_ℤ;
  add = λ a b. a +ℤ b;
  gt = λ a b. ltb_ℤ b a;
  to_int = λ n. some n;
}

exact : IsExact float
exact n m h small = ap (λ q. some (pos q)) (grind arith)

-- 50 % of the load, and a pace of 4.
abbrev used : TokenAttr
used = record attr { changed = false; mod_times = 49; avg_launchs_0 = 6; avg_launchs_1 = 3 }

init_attr_unscaled_example :
    init_attr float (pos 100) used
    ≡ ok tt (record used { core_limit = pos 100; mod_times = 0; changed = true })
init_attr_unscaled_example =
    init_attr_unscaled float used 4 100 50 exact refl refl refl (omega arith) (omega arith)
      (omega arith) (omega arith)

-- A tick that adjusts, 20 % below the limit
abbrev due : TokenAttr
due = record attr { changed = false; mod_times = 99; avg_launchs_0 = 3; avg_launchs_1 = 6 }

running : IsRunning (pos 30) (pos 50) due
running = record { idx = omega arith; ticks = omega arith; err = refl; cycle = omega arith }

converts : Converts float (pos 30) (pos 50) due
converts = record {
  magnitude = refl;
  delta = pos 1;
  delta_lem = refl;
  fits = refl;
  capped = pos 4;
  capped_lem = refl;
}

delta_change-IsTicked_example :
    Returns (λ _ t. IsTicked due t) (delta_change float (pos 30) (pos 50) due)
delta_change-IsTicked_example = delta_change-IsTicked float (pos 30) (pos 50) due running converts

-- "ab", the group of process 5
abbrev pub group : Text
group = 97 ∷ 98 ∷ []

abbrev id_of : ℕ → Option Text
id_of pid = if pid == 5 then some group else none

-- "2:devices:/k/ab" with its 0
abbrev pub line : List ℕ
line = 50 ∷ 58 ∷ devices ++ 58 ∷ 47 ∷ 107 ∷ 47 ∷ 97 ∷ 98 ∷ 0 ∷ []

abbrev samples : List Sample
samples =
    record { pid = 5; time_stamp = 1; sm_util = 90 }
    ∷ record { pid = 4; time_stamp = 8_000_000; sm_util = 70 }
    ∷ record { pid = 5; time_stamp = 9_000_000; sm_util = 30 }
    ∷ []

abbrev sys : UtilCalls
sys = record {
  process_utilization = λ since. (pos 0, samples);
  cgroup_lines = λ pid. if pid == 5 then some (line ∷ []) else none;
}

reads :
    (pid : ℕ) (t : Text)
    → get_cgroup_id (sys.cgroup_lines pid) max_cgroup_id_len t ≡ id_read (id_of pid) t
unfolding get_cgroup_id read_lines strstr starts_with c_string last_slash
reads pid t = elim (Bool-cases (pid == 5)) [ inl e ↦ rw e refl | inr e ↦ rw e refl ]

abbrev last_time : Timespec
last_time = record { tv_sec = 7; tv_nsec = 0 }

load : util_of (first_sample id_of group (micros last_time) samples) ≡ pos 30
unfolding eq_text
load = refl

fitting : All FitsInt samples
fitting = (omega arith, (omega arith, (omega arith, tt)))

get_gpu_util_lem_example :
    Gives
      (load_of (first_sample id_of group 7_000_000 samples))
      (get_gpu_util sys group last_time [])
get_gpu_util_lem_example =
    get_gpu_util_lem sys group id_of reads last_time samples [] (omega arith) refl fitting

-- An interrupted turn, in which the token thread reads the last change.
abbrev turn : Turn
turn = record {
  last_time = last_time;
  naps = interrupted (record { tv_sec = 0; tv_nsec = 5 }) ∷ [];
  others = λ a. record a { changed = false };
  sys = sys;
}

in_range :
    (util : ℤ) → util ≡ pos 30 → IsRunning util (pos 50) due × Converts float util (pos 50) due
in_range util e = rw e (running, converts)

run_turn_lem_example :
    Returns
      (λ _ t. Turned 3 (seen id_of group turn samples) due t)
      (run_turn float 3 group
        (pos 50)
        turn
        (update (λ _. missing) 3 (holds (record due { changed = true }))))
run_turn_lem_example =
    run_turn_lem float 3 group (pos 50) turn id_of samples
      (update (λ _. missing) 3 (holds (record due { changed = true })))
      (record due { changed = true }) reads refl refl
      (λ there. in_range (seen id_of group turn samples) load)

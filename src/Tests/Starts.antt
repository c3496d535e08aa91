-- ===== src/Tests/Starts.antt =====
-- Processes under a limit on launches that start, with and without a monitor that finds them.
use nv_resource_controller.Prelude.{
  ℕ, ◌≡◌, refl, true, false, none, some, List, [], ◌∷◌, ◌++◌, ◌==◌, length, if◌then◌else◌, arith,
  ◌≢◌,
}
use nv_resource_controller.Prelude.Int.{pos}
use nv_resource_controller.Prelude.Run.{ok, blocked, IfReturns}
use nv_resource_controller.Prelude.Text.{
  Text, c_string, strstr, starts_with, eq_text, eq_text-equal,
}
use nv_resource_controller.Hook.Types.{TokenAttr}
use nv_resource_controller.Hook.Paths.{shm_path}
use nv_resource_controller.Hook.Memory.{Object, missing, empty, holds}
use nv_resource_controller.Util.Cgroup.{devices, last_slash, read_lines, get_cgroup_id}
use nv_resource_controller.Init.State.{InitCalls, zeroed_attr}
use nv_resource_controller.Init.Ready.{IsServed, taken}
use nv_resource_controller.Init.Second.{first_started, init_tokens_second}
use nv_resource_controller.Group.{here}
use nv_resource_controller.Init.Tokens.{init_tokens}
use nv_resource_controller.Cuda.Launch.{interrupted}
use nv_resource_controller.Monitor.{default_wait_nsec, init_attr, same_limit, set_changed}
use nv_resource_controller.Monitor.Watch.{MainCalls, MonitorState, main}
use nv_resource_controller.Monitor.Watch.Apart.{main-elsewhere}
use nv_resource_controller.Tests.Machine.{shm_calls}
use nv_resource_controller.Tests.Pace.{float, group, line}
use nv_resource_controller.Tests.Setup.{sys, state}

-- The monitor sets the attributes up for 50 % while the process waits, after an interruption.
abbrev pub set_up : TokenAttr → TokenAttr
set_up a = record a {
  core_limit = pos 50;
  mod_times = 0;
  add_per_cycle = pos 1;
  avg_launchs_0 = 0;
  avg_launchs_1 = 0;
  launch_idx = 0;
  tv_nsec = default_wait_nsec;
  inited = true;
  ready = 1;
  changed = true;
}

abbrev pub limited_calls : InitCalls
limited_calls = record sys {
  cgroup_lines = some (line ∷ []);
  waits = interrupted ∷ [];
  monitor = set_up;
}

group_read : get_cgroup_id (some (line ∷ [])) 4096 [] ≡ ok (pos 0) group
unfolding get_cgroup_id read_lines strstr starts_with c_string last_slash
group_read = refl

pub served : IsServed limited_calls group
served = record {
  id_read = group_read;
  up = record { excl = refl; open' = refl; truncate = refl; map = refl };
  ready = refl;
  tokens = refl;
  waits = tt;
}

pub there : (o : Object TokenAttr) → o ≡ missing → o ≢ empty
there o e = ground arith

pub set_up_lem : init_attr float (pos 50) zeroed_attr ≡ ok tt (set_up zeroed_attr)
unfolding init_attr same_limit set_changed
set_up_lem = refl

-- Another process takes what was posted.
abbrev second : InitCalls
second = record limited_calls { monitor = λ a. taken (set_up a) }

init_tokens_second_example : init_tokens second state ≡ blocked
init_tokens_second_example =
    init_tokens_second second group float (pos 50) state (set_up zeroed_attr)
      (first_started (pos 50) (set_up zeroed_attr))
      (record {
        id_read = group_read;
        up = record { excl = refl; open' = refl; truncate = refl; map = refl };
        ready = refl;
        tokens = refl;
        waits = tt;
      })
      (λ j. there missing refl) refl set_up_lem here refl

-- An id of 16 bytes
abbrev long_id : Text
long_id = 97 ∷ 97 ∷ 97 ∷ 97 ∷ 97 ∷ 97 ∷ 97 ∷ 97 ∷ 97 ∷ 97 ∷ 97 ∷ 97 ∷ 97 ∷ 97 ∷ 97 ∷ 97 ∷ []

abbrev long_line : List ℕ
long_line = 50 ∷ 58 ∷ devices ++ 58 ∷ 47 ∷ 107 ∷ 47 ∷ (long_id ++ 0 ∷ [])

long_read : get_cgroup_id (some (long_line ∷ [])) 4096 [] ≡ ok (pos 0) long_id
unfolding get_cgroup_id read_lines strstr starts_with c_string last_slash
long_read = refl

abbrev alone : InitCalls
alone = record sys { cgroup_lines = some (long_line ∷ []) }

IsServed-alone : IsServed alone long_id
IsServed-alone = record {
  id_read = long_read;
  up = record { excl = refl; open' = refl; truncate = refl; map = refl };
  ready = refl;
  tokens = refl;
  waits = tt;
}

abbrev key : Text → ℕ
key path = if eq_text path (shm_path 7 long_id) then 1 else 0

itself : eq_text (shm_path 7 long_id) (shm_path 7 long_id) ≡ true
unfolding eq_text shm_path
itself = refl

only : (path : Text) → key path ≡ key (shm_path 7 long_id) → path ≡ shm_path 7 long_id
only path e =
    let one : (key (shm_path 7 long_id) ≡ 1) = rw itself refl in
    eq_text-equal path (shm_path 7 long_id) (ground (arith, one))

-- A monitor that is up, for which the name of the long group alone names object 1.
abbrev pub monitor : MainCalls
monitor = record {
  linker = record { handle = some 1; dlsym = λ h name. some 2 };
  strtol = λ text. pos (length text);
  nvml_init_ret = pos 0;
  logs = record { logger_level = none; strtoul = λ text. 0 };
  watch = record {
    handle_ret = λ minor. pos 0;
    attr_key = key;
    attr_calls = shm_calls;
    malloc_fails = false;
    max_clock_ret = pos 0;
  };
}

abbrev pub monitor_state : MonitorState
monitor_state = record {
  hdr = record {
    nvml_init = none;
    nvml_device_get_handle_by_index = none;
    nvml_shutdown = none;
    nvml_device_get_process_utilization = none;
    nvml_device_get_clock = none;
  };
  attrs = λ j. if j == 1 then holds zeroed_attr else missing;
}

-- "m", "7777777", the first 15 bytes of the id, "50": `strtol` gives the lengths.
abbrev short_id : Text
short_id = 97 ∷ 97 ∷ 97 ∷ 97 ∷ 97 ∷ 97 ∷ 97 ∷ 97 ∷ 97 ∷ 97 ∷ 97 ∷ 97 ∷ 97 ∷ 97 ∷ 97 ∷ []

abbrev sevens : Text
sevens = 55 ∷ 55 ∷ 55 ∷ 55 ∷ 55 ∷ 55 ∷ 55 ∷ []

abbrev args : List Text
args = (109 ∷ []) ∷ sevens ∷ short_id ∷ (53 ∷ 48 ∷ []) ∷ []

main-elsewhere_example :
    IfReturns
      (λ _ t. t.attrs (key (shm_path 7 long_id)) ≡ monitor_state.attrs (key (shm_path 7 long_id)))
      (main float monitor [] args monitor_state)
main-elsewhere_example =
    main-elsewhere float monitor [] 7 long_id (omega arith) (omega arith) only args monitor_state

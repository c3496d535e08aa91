-- ===== src/Tests/Setup.antt =====
-- The first process on a device, limited to 512 MiB.
use nv_resource_controller.Prelude.{◌*◌, ◌^◌, ◌≡◌, ◌≢◌, refl, false, none, some, [], arith}
use nv_resource_controller.Prelude.Int.{pos, negsuc}
use nv_resource_controller.Prelude.Run.{ok, Returns}
use nv_resource_controller.Hook.Memory.{Object, missing, empty}
use nv_resource_controller.Hook.Types.{FbInfo}
use nv_resource_controller.Env.{
  get_limit, sscanf, take_digits, take_word, get_mem_limit, get_core_limit,
}
use nv_resource_controller.Util.Iec.{iec_to_bytes}
use nv_resource_controller.Init.{init_device_prop}
use nv_resource_controller.Init.State.{InitCalls, InitState, no_entry}
use nv_resource_controller.Init.Setup.{IsSetUp, init_device_prop-IsSetUp}
use nv_resource_controller.Tests.Machine.{platform, memory, shm_calls}
use nv_resource_controller.Tests.Limits.{double, env}

abbrev pub sys : InitCalls
sys = record {
  env = env;
  fb_calls = shm_calls;
  getpid = 42;
  lstat = λ pid. no_entry;
  cgroup_lines = none;
  attr_key = λ path. 3;
  attr_calls = shm_calls;
  ready_fails = false;
  waits = [];
  monitor = λ a. a;
  tokens_fails = false;
}

abbrev pub state : InitState platform
state = record {
  mem = record {
    dev = record memory.dev { minor = 9; mem_limited = false; fb_info = none };
    shm = λ j. missing;
  };
  attrs = λ j. missing;
  attr = none;
  tokens = none;
  thread = false;
}

there : (o : Object FbInfo) → o ≡ missing → o ≢ empty
there o e = ground arith

pub limit_read :
    get_mem_limit double env (record { minor = some 9; limit = none })
    ≡ ok (pos 0) (record { minor = some 0; limit = some (512 * 2 ^ 20) })
unfolding get_mem_limit get_limit sscanf take_digits take_word iec_to_bytes
limit_read = refl

pub no_core :
    get_core_limit env (record { minor = none; limit = none })
    ≡ ok (negsuc 0) (record { minor = none; limit = none })
unfolding get_core_limit get_limit
no_core = refl

init_device_prop-IsSetUp_example :
    Returns
      (λ _ t.
        IsSetUp sys
          (512 * 2 ^ 20)
          (omega arith)
          0
          (record { pid = 42; total_mem = 512 * 2 ^ 20; free_mem = 512 * 2 ^ 20 })
          t)
      (init_device_prop double sys state)
init_device_prop-IsSetUp_example =
    init_device_prop-IsSetUp sys (512 * 2 ^ 20) (omega arith) double state 0 limit_read no_core
      (record { excl = refl; open' = refl; truncate = refl; map = refl })
      (record { unlocked = refl; nothing = refl; core = refl; sized = λ j. there missing refl })
      (omega arith)

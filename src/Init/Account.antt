-- ===== src/Init/Account.antt =====
-- The part of `_init_device_prop` for the memory limit.
use nv_resource_controller.Prelude.{ℕ, Bool, true, false, Option, none, some, ◌==◌, if◌then◌else◌}
use nv_resource_controller.Prelude.Int.{ℤ}
use nv_resource_controller.Prelude.Run.{Cmd, ok, fault, exited, pure, in_state, ◌>>=◌, ◌>>◌}
use nv_resource_controller.Platform.{Platform}
use nv_resource_controller.Hook.Types.{FbInfo}
use nv_resource_controller.Hook.Memory.{Object, missing, empty, holds, update}
use nv_resource_controller.Util.ShmAddr.{Addr, null, map_failed, mapped, create_shm_addr}
use nv_resource_controller.Util.Iec.{Double}
use nv_resource_controller.Env.{Limits, get_mem_limit}
use nv_resource_controller.Ioctl.Control.{zeroed_fb}
use nv_resource_controller.Init.State.{Lstat, exists, no_entry, other_error, InitCalls, InitState}

-- `need_init`
abbrev owner_gone : Lstat → Bool
owner_gone exists = false
owner_gone no_entry = true
owner_gone other_error = false

abbrev pub need_init : InitCalls → FbInfo → Bool
need_init sys fb = if fb.pid == 0 then true else owner_gone (sys.lstat fb.pid)

module _ {os : Platform} where
  -- `get_mem_limit(&gpu_device.minor, &total_mem)`: its result and `total_mem`
  put_limits : InitState os → Limits → InitState os
  put_limits s l = record s {
    mem = record s.mem {
      dev = record s.mem.dev { minor = elim l.minor [ none ↦ s.mem.dev.minor | some n ↦ n ] };
    };
  }

  unfoldable pub read_mem_limit : Double → InitCalls → Cmd (InitState os) (ℤ × Option ℕ)
  unfolding put_limits
  read_mem_limit d sys s =
      in_state
        ((get_mem_limit d sys.env >>= λ ret l. ok (ret, l.limit) l)
          (record { minor = some s.mem.dev.minor; limit = none }))
        (put_limits s)

  set_mem_limited : Cmd (InitState os) (Unit {0})
  set_mem_limited s =
      ok tt (record s { mem = record s.mem { dev = record s.mem.dev { mem_limited = true } } })

  -- `create_shm_addr` of the account, and the test of the pointer
  mapped_fb : Addr → Cmd (InitState os) ℕ
  mapped_fb null s = exited
  mapped_fb map_failed s = fault
  mapped_fb (mapped k) s =
      ok k (record s { mem = record s.mem { dev = record s.mem.dev { fb_info = some k } } })

  open_fb : InitCalls → Cmd (InitState os) ℕ
  unfolding mapped_fb create_shm_addr
  open_fb sys s =
      let r = create_shm_addr zeroed_fb sys.fb_calls s.mem.dev.minor s.mem.shm in
      mapped_fb r.addr (record s { mem = record s.mem { shm = r.shm } })

  fb_of : Object FbInfo → Cmd (InitState os) FbInfo
  fb_of missing s = fault
  fb_of empty s = fault
  fb_of (holds fb) s = ok fb s

  -- `total_mem` may not have been written.
  fill_fb : ℕ → ℕ → Option ℕ → Cmd (InitState os) (Unit {0})
  fill_fb k pid none s = fault
  fill_fb k pid (some total_mem) s = ok tt (record s {
    mem = record s.mem {
      shm =
          update s.mem.shm k
            (holds (record { pid = pid; total_mem = total_mem; free_mem = total_mem }));
    };
  })

  init_fb : InitCalls → ℕ → Option ℕ → Cmd (InitState os) (Unit {0})
  unfolding fb_of fill_fb
  init_fb sys k total_mem s =
      ((fb_of (s.mem.shm k) >>= λ fb.
      if need_init sys fb then fill_fb k sys.getpid total_mem else pure tt))
        s

  -- `INIT_LIST_HEAD` of both lists
  init_lists : Cmd (InitState os) (Unit {0})
  init_lists s = ok tt (record s {
    mem = record s.mem {
      dev = record s.mem.dev {
        rm_mem_list = os.rm.init_list_head;
        heap_mem_list = os.heap.init_list_head;
      };
    };
  })

  -- For the memory limit, once it has been read.
  unfoldable pub init_memory : InitCalls → Option ℕ → Cmd (InitState os) (Unit {0})
  unfolding set_mem_limited open_fb init_fb init_lists
  init_memory sys total_mem = do
    set_mem_limited
    k ← open_fb sys
    init_fb sys k total_mem
    init_lists

-- ===== src/Init/Setup.antt =====
-- The account that `_init_device_prop` leaves.
use nv_resource_controller.Prelude.{
  ℕ, ◌^◌, ◌<◌, ◌≡◌, refl, Bool, ◌||◌, ◌==◌, true, false, none, some, [], if◌then◌else◌, arith,
  Bool-cases, inl, inr,
}
use nv_resource_controller.Prelude.Int.{pos, negsuc}
use nv_resource_controller.Prelude.Run.{ok, Returns, Returns-and_then}
use nv_resource_controller.Platform.{Platform}
use nv_resource_controller.Hook.Types.{FbInfo}
use nv_resource_controller.Hook.Memory.{holds, Memory, Shm, update}
use nv_resource_controller.Util.ShmAddr.Up.{
  IsUp, opened, AllSized, create_shm_addr-Opens, AllSized-Opens,
}
use nv_resource_controller.Util.Iec.{Double}
use nv_resource_controller.Env.{get_mem_limit, get_core_limit}
use nv_resource_controller.Ioctl.Control.{zeroed_fb}
use nv_resource_controller.Ioctl.Account.{Inv, IsSteady}
use nv_resource_controller.Init.{init_device_prop}
use nv_resource_controller.Init.State.{Lstat, exists, no_entry, other_error, InitCalls, InitState}
use nv_resource_controller.Init.Account.{need_init, read_mem_limit, init_memory}
use nv_resource_controller.Init.Tokens.{read_core_limit}

-- Is there no process any more that owns the account?
abbrev pub gone : Lstat → Bool
gone no_entry = true
gone exists = false
gone other_error = false

abbrev pub ownerless : InitCalls → FbInfo → Bool
ownerless sys fb = (fb.pid == 0) || gone (sys.lstat fb.pid)

need_init-ownerless : (sys : InitCalls) (fb : FbInfo) → need_init sys fb ≡ ownerless sys fb
need_init-ownerless sys fb = ground arith

-- The account of the device once the process is there: a new one, where there was none or its owner is
-- gone, the one that is there otherwise.
abbrev pub taken_over : InitCalls → ℕ → FbInfo → FbInfo
taken_over sys total_mem fb =
    if ownerless sys fb
    then record { pid = sys.getpid; total_mem = total_mem; free_mem = total_mem }
    else fb

-- A process that has done nothing yet.
pub record IsNew {os : Platform} (s : InitState os) : Type 0 where
  pub unlocked : s.mem.dev.mu ≡ false
  pub nothing : s.mem.dev.alloc_mem ≡ 0
  pub core : s.mem.dev.core_limited ≡ false
  pub sized : AllSized s.mem.shm

-- Memory with empty lists and nothing allocated.
Inv-new :
    {os : Platform} (k : ℕ) (fb : FbInfo) (m : Memory os)
    → m.dev.fb_info ≡ some k
    → m.shm k ≡ holds fb
    → m.dev.alloc_mem ≡ 0
    → m.dev.heap_mem_list ≡ os.heap.init_list_head
    → m.dev.rm_mem_list ≡ os.rm.init_list_head
    → fb.free_mem < 2 ^ 64
    → AllSized m.shm
    → Inv k fb.free_mem m
Inv-new {os} k fb m mapped held zero heap rm fits sized =
    let no_heap : (os.heap.entries m.dev.heap_mem_list ≡ []) = rw heap os.heap.entries-init in
    let no_rm : (os.rm.entries m.dev.rm_mem_list ≡ []) = rw rm os.rm.entries-init in
    record {
      fb = fb;
      mapped = mapped;
      held = held;
      quota = rw zero (omega arith);
      charged = rw (no_heap, zero) refl;
      free_word = fits;
      words = rw no_heap tt;
      heap_distinct = rw no_heap tt;
      rm_distinct = rw no_rm tt;
      sized = sized;
    }

AllSized-update :
    {D : Type 0} (shm : Shm D) (k : ℕ) (d : D) → AllSized shm → AllSized (update shm k (holds d))
AllSized-update shm k d sized j = ground (arith, sized j)

module _ {os : Platform} (sys : InitCalls) (total_mem : ℕ) (word : total_mem < 2 ^ 64) where
  -- What is read through the mapping of the account.
  abbrev pub account_of : ℕ → InitState os → FbInfo
  account_of k s = opened zeroed_fb (s.mem.shm k)

  -- The memory limit is on and the other is not, the account is the one taken over, and it is in
  -- order with nothing allocated.
  pub record IsSetUp (k : ℕ) (fb : FbInfo) (t : InitState os) : Type 0 where
    pub switched_on : t.mem.dev.mem_limited ≡ true
    pub core : t.mem.dev.core_limited ≡ false
    pub account : t.mem.shm k ≡ holds fb
    pub steady : IsSteady k fb.free_mem t.mem

  init_memory-IsSetUp :
      (s : InitState os)
      → IsUp sys.fb_calls
      → IsNew s
      → (account_of s.mem.dev.minor s).free_mem < 2 ^ 64
      → Returns
          (λ _ t.
            IsSetUp s.mem.dev.minor (taken_over sys total_mem (account_of s.mem.dev.minor s)) t)
          (init_memory sys (some total_mem) s)
  unfolding init_memory
  init_memory-IsSetUp s up new fits =
      let o = create_shm_addr-Opens zeroed_fb sys.fb_calls up s.mem.dev.minor s.mem.shm new.sized in
      let fb : FbInfo = account_of s.mem.dev.minor s in
      let sized = AllSized-Opens o new.sized in
      let total : FbInfo = record {
        pid = sys.getpid;
        total_mem = total_mem;
        free_mem = total_mem;
      } in
      elim (Bool-cases (ownerless sys fb)) [
        | inl e ↦
            rw (o.addr, o.object, need_init-ownerless sys fb, e)
              (record {
                switched_on = refl;
                core = new.core;
                account = ground arith;
                steady = (
                  new.unlocked,
                  Inv-new _ total _ refl (ground arith) new.nothing refl refl word
                      (AllSized-update _ s.mem.dev.minor total sized),
                );
              })
        | inr e ↦
            rw (o.addr, o.object, need_init-ownerless sys fb, e)
              (record {
                switched_on = refl;
                core = new.core;
                account = o.object;
                steady =
                    (new.unlocked, Inv-new _ fb _ refl o.object new.nothing refl refl fits sized);
              })
      ]

  -- A new process with a memory limit and no limit on launches, where no call on shared memory fails:
  -- `_init_device_prop` leaves the account of its device in order, with nothing allocated. It is a new
  -- account of `total_mem` bytes where there was none or where its owner is gone, and is left as it is
  -- otherwise.
  pub init_device_prop-IsSetUp :
      (d : Double) (s : InitState os) (k : ℕ)
      → get_mem_limit d sys.env (record { minor = some s.mem.dev.minor; limit = none })
        ≡ ok (pos 0) (record { minor = some k; limit = some total_mem })
      → get_core_limit sys.env (record { minor = none; limit = none })
        ≡ ok (negsuc 0) (record { minor = none; limit = none })
      → IsUp sys.fb_calls
      → IsNew s
      → (account_of k s).free_mem < 2 ^ 64
      → Returns
          (λ _ t. IsSetUp k (taken_over sys total_mem (account_of k s)) t)
          (init_device_prop d sys s)
  unfolding init_device_prop read_mem_limit read_core_limit
  init_device_prop-IsSetUp d s k e c up new fits =
      let s' : InitState os = record s {
        mem = record s.mem { dev = record s.mem.dev { minor = k } };
      } in
      let new' : IsNew s' = record {
        unlocked = new.unlocked;
        nothing = new.nothing;
        core = new.core;
        sized = new.sized;
      } in
      rw e (
        Returns-and_then (λ _ t. IsSetUp k (taken_over sys total_mem (account_of k s)) t)
          (λ _ t. IsSetUp k (taken_over sys total_mem (account_of k s)) t)
          (init_memory sys (some total_mem) s') _ (init_memory-IsSetUp s' up new' fits)
          λ _ t h. rw c (simp (h.core) h))

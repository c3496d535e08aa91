-- ===== src/Processes/Join.antt =====
-- A process that starts while others use the device.
use nv_resource_controller.Prelude.{
  ℕ, ◌+◌, ◌%◌, ◌^◌, ◌<◌, ◌≡◌, refl, sym, ap, ◌∙◌, none, some, ◌∷◌, if◌then◌else◌, arith, subst,
}
use nv_resource_controller.Prelude.Int.{pos, negsuc}
use nv_resource_controller.Prelude.Run.{ok, Returns, Returns-mono}
use nv_resource_controller.Platform.{Platform}
use nv_resource_controller.Hook.Types.{FbInfo}
use nv_resource_controller.Hook.Memory.{holds}
use nv_resource_controller.Util.ShmAddr.Up.{IsUp}
use nv_resource_controller.Util.Iec.{Double}
use nv_resource_controller.Env.{get_mem_limit, get_core_limit}
use nv_resource_controller.Init.{init_device_prop}
use nv_resource_controller.Init.State.{InitCalls, InitState}
use nv_resource_controller.Init.Setup.{
  IsNew, IsSetUp, account_of, taken_over, ownerless, init_device_prop-IsSetUp,
}
use nv_resource_controller.Processes.{Processes, total_alloc}
use nv_resource_controller.Processes.Shared.{IsShared, IsOrderly-IsSteady}

module _ {os : Platform} (sys : InitCalls) (total_mem : ℕ) (word : total_mem < 2 ^ 64) where
  -- The processes with the new one.
  abbrev pub joined : InitState os → Processes os → Processes os
  joined u s = record { devs = u.mem.dev ∷ s.devs; shm = u.mem.shm }

  -- What is free and what all have recorded, once the new process is there: as much as before if the
  -- owner of the account is there, and else `total_mem` on top of what the others have.
  abbrev pub quota_joined : {k q : ℕ} {s : Processes os} → IsShared k q s → ℕ
  quota_joined {q = q} {s = s} i =
      if ownerless sys i.fb then (total_mem + total_alloc s.devs) % 2 ^ 64 else q

  IsShared-IsSetUp :
      (k q : ℕ) (s : Processes os) (i : IsShared k q s) (t : InitState os)
      → IsSetUp sys total_mem word k (taken_over sys total_mem i.fb) t
      → IsShared k (quota_joined i) (joined t s)
  IsShared-IsSetUp k q s i t h =
      let (unlocked, j) = h.steady in
      let fb : FbInfo = taken_over sys total_mem i.fb in
      let read : (holds j.fb ≡ holds fb) = sym j.held ∙ h.account in
      let free : (j.fb.free_mem ≡ fb.free_mem) = cc in
      let nothing : (t.mem.dev.alloc_mem ≡ 0) =
        omega (arith, free, j.quota, j.charged, j.free_word) in
      record {
        orderly = (IsOrderly-IsSteady k _ t.mem h.steady, i.orderly);
        fb = taken_over sys total_mem i.fb;
        held = h.account;
        free_word = ground arith;
        sized = j.sized;
        quota = rw nothing (ground (arith, i.quota));
      }

  -- A new process with a memory limit and no limit on launches joins the processes of a device, where
  -- no call on shared memory fails: all are in order again. If the owner of the account is gone, the
  -- account is made anew for `total_mem` bytes, and what the others hold is not taken off.
  pub init_device_prop-joins :
      (d : Double) (k q : ℕ) (s : Processes os) (u : InitState os) (i : IsShared k q s)
      → u.mem.shm ≡ s.shm
      → get_mem_limit d sys.env (record { minor = some u.mem.dev.minor; limit = none })
        ≡ ok (pos 0) (record { minor = some k; limit = some total_mem })
      → get_core_limit sys.env (record { minor = none; limit = none })
        ≡ ok (negsuc 0) (record { minor = none; limit = none })
      → IsUp sys.fb_calls
      → IsNew u
      → Returns (λ _ t. IsShared k (quota_joined i) (joined t s)) (init_device_prop d sys u)
  init_device_prop-joins d k q s u i same limit no_core up new =
      let held : (u.mem.shm k ≡ holds i.fb) = ap (λ shm. shm k) same ∙ i.held in
      let account : (account_of sys total_mem word k u ≡ i.fb) = rw held refl in
      Returns-mono (λ _ t. IsSetUp sys total_mem word k (taken_over sys total_mem i.fb) t)
        (λ _ t. IsShared k (quota_joined i) (joined t s)) (init_device_prop d sys u)
        (subst
          (λ fb.
            Returns (λ _ t. IsSetUp sys total_mem word k (taken_over sys total_mem fb) t)
              (init_device_prop d sys u))
          account
          (init_device_prop-IsSetUp sys total_mem word d u k limit no_core up new
            (rw held i.free_word)))
        λ _ t h. IsShared-IsSetUp k q s i t h

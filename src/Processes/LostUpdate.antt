-- ===== src/Processes/LostUpdate.antt =====
-- Two charges of two processes at once: `gpu_device.mu` of src/ioctl_hook.c is a mutex of one process,
-- and does not keep another from the account in shared memory.
use nv_resource_controller.Prelude.{ℕ, ◌+◌, ◌-◌, ◌%◌, ◌^◌, ◌<◌, ◌≡◌, refl, true, some, ◌==◌, arith}
use nv_resource_controller.Prelude.Run.{Cmd, Returns, in_state, ◌>>=◌, ◌>>◌}
use nv_resource_controller.Platform.{Platform}
use nv_resource_controller.Hook.Types.{DeviceMem, FbInfo}
use nv_resource_controller.Hook.Memory.{holds, Device, Memory, Shm, load_fb, store_fb}
use nv_resource_controller.Ioctl.Alloc.{add_heap, add_alloc_mem, charge}

module _ {os : Platform} where
  -- `charge` up to the value that is read for `gpu_device.fb_info->free_mem -= size`, and from there.
  unfoldable pub charge_load : ℕ → DeviceMem → Cmd (Memory os) FbInfo
  unfolding add_heap load_fb
  charge_load p entry = add_heap p entry >> load_fb

  unfoldable pub charge_store : DeviceMem → FbInfo → Cmd (Memory os) (Unit {0})
  unfolding store_fb add_alloc_mem
  charge_store entry fb =
      store_fb (record fb { free_mem = (fb.free_mem + 2 ^ 64 - entry.size) % 2 ^ 64 })
      >> add_alloc_mem entry.size

  -- One after the other, the two are the charge.
  charge_lem :
      (p : ℕ) (entry : DeviceMem) (m : Memory os)
      → charge p entry m ≡ (charge_load p entry >>= charge_store entry) m
  unfolding charge charge_load charge_store
  charge_lem p entry m = refl

-- Two processes.
pub record Pair (os : Platform) : Type 0 where
  pub a : Device os
  pub b : Device os
  pub shm : Shm FbInfo

module _ {os : Platform} where
  in_a : {A : Type 0} → Cmd (Memory os) A → Cmd (Pair os) A
  in_a act s =
      in_state (act (record { dev = s.a; shm = s.shm })) (λ m. record s { a = m.dev; shm = m.shm })

  in_b : {A : Type 0} → Cmd (Memory os) A → Cmd (Pair os) A
  in_b act s =
      in_state (act (record { dev = s.b; shm = s.shm })) (λ m. record s { b = m.dev; shm = m.shm })

  -- The charge of process b falls between the reading and the writing of process a.
  unfoldable pub load_charge_store : (p r : ℕ) → (a b : DeviceMem) → Cmd (Pair os) (Unit {0})
  unfolding in_a in_b
  load_charge_store p r a b = do
    fb ← in_a (charge_load p a)
    in_b (charge r b)
    in_a (charge_store a fb)

  -- What is free and what both have recorded.
  abbrev pub accounted : FbInfo → Pair os → ℕ
  accounted fb s = (fb.free_mem + s.a.alloc_mem + s.b.alloc_mem) % 2 ^ 64

  -- Two processes map the account, and process b is charged while process a is: b has recorded its
  -- allocation and the account says nothing of it, so that what is free and what both have recorded
  -- come to as many bytes more as b has got.
  pub load_charge_store_loses :
      (k : ℕ) (fb : FbInfo) (s : Pair os) (p r : ℕ) (a b : DeviceMem)
      → s.a.fb_info ≡ some k
      → s.b.fb_info ≡ some k
      → s.shm k ≡ holds fb
      → a.size < 2 ^ 64
      → Returns
          (λ _ t.
            let left : FbInfo = record fb { free_mem = (fb.free_mem + 2 ^ 64 - a.size) % 2 ^ 64 } in
            (t.shm k ≡ holds left)
            × (t.b.alloc_mem ≡ (s.b.alloc_mem + b.size) % 2 ^ 64)
            × (accounted left t ≡ (accounted fb s + b.size) % 2 ^ 64))
          (load_charge_store p r a b s)
  unfolding load_charge_store charge_load charge_store charge load_fb store_fb
  load_charge_store_loses k fb s p r a b ma mb held word =
      let same : ((k == k) ≡ true) = ground arith in
      simp (ma, mb, held, same) (refl, refl, omega arith)

-- ===== src/Ioctl/Control/Reported.antt =====
-- What an application is told, from the object list and from the account.
use nv_resource_controller.Prelude.{
  ℕ, ◌≡◌, ◌≢◌, refl, zero, suc, true, false, some, arith, ◌==◌, if◌then◌else◌,
}
use nv_resource_controller.Prelude.Int.{ℤ, pos, negsuc, is_nonzero}
use nv_resource_controller.Prelude.Run.{and_then, Returns, ok}
use nv_resource_controller.Platform.{Platform}
use nv_resource_controller.Platform.ListApi.{has}
use nv_resource_controller.Hook.Types.{FbInfo, RmMem}
use nv_resource_controller.Hook.Memory.{Memory}
use nv_resource_controller.Ioctl.Params.{AllocParams, AllocParms}
use nv_resource_controller.Ioctl.Alloc.{
  no_device, find_device, post_device_rm_alloc, post_ctrl_rm_alloc,
}
use nv_resource_controller.Ioctl.Control.{fb_kib, fill}
use nv_resource_controller.Ioctl.Control.Steady.{device_at}

nonzero_of_ne : (n : ℤ) → n ≢ pos 0 → is_nonzero n ≡ true
nonzero_of_ne (pos zero) ne = absurd (ne refl)
nonzero_of_ne (pos (suc n)) ne = refl
nonzero_of_ne (negsuc n) ne = refl

-- If `readlink` never returns 0 (it returns -1, or the length of a target that is not empty), free
-- memory is never read from the account: an entry that asks for it gets what an entry that asks for
-- the heap size gets.
pub heap_free_as_heap_size :
    (os : Platform) (readlink : ℕ → ℤ) (fb : FbInfo) (value : ℕ)
    → ((pid : ℕ) → readlink pid ≢ pos 0)
    → let r : ℕ × ℕ = fb_kib readlink fb in
      (fill os r.0 r.1 (record { index = os.abi.index_heap_free; value = value })).value
      ≡ (fill os r.0 r.1 (record { index = os.abi.index_heap_size; value = value })).value
unfolding fill
heap_free_as_heap_size os readlink fb value ne = ground (
  arith,
  nonzero_of_ne (readlink fb.pid) (ne fb.pid),
  os.abi.total_ram-ne-heap_free,
  os.abi.total_ram-ne-heap_size,
  os.abi.heap_size-ne-heap_free,
)

module _ {os : Platform} where
  -- Memory with one more object recorded.
  abbrev recorded : ℕ → RmMem → Memory os → Memory os
  recorded p entry m = record m {
    dev = record m.dev { rm_mem_list = os.rm.list_add p entry m.dev.rm_mem_list };
  }

  post_device_rm_alloc_lem :
      (m : Memory os) (p : ℕ) (api : AllocParams) (parms : AllocParms)
      → m.dev.mu ≡ false
      → api.p_alloc_parms ≡ some parms
      → post_device_rm_alloc (some p) api m
        ≡ ok (pos 0) (recorded p (record { object = api.h_object_new; device_id = parms.as_int }) m)
  unfolding post_device_rm_alloc
  post_device_rm_alloc_lem m p api parms u n = rw n (ground arith)

  post_ctrl_rm_alloc_lem :
      (m : Memory os) (r : ℕ) (api : AllocParams)
      → m.dev.mu ≡ false
      → device_at api.h_object_parent m ≢ no_device
      → post_ctrl_rm_alloc (some r) api m
        ≡ ok (pos 0) (
            recorded r
              (record { object = api.h_object_new; device_id = device_at api.h_object_parent m })
              m)
  unfolding post_ctrl_rm_alloc
  post_ctrl_rm_alloc_lem m r api u known = ground arith

  device_at-recorded :
      (m : Memory os) (p : ℕ) (entry : RmMem) (handle : ℕ)
      → has p (os.rm.entries m.dev.rm_mem_list) ≡ false
      → device_at handle (recorded p entry m)
        ≡ (if entry.object == handle then entry.device_id else device_at handle m)
  unfolding find_device
  device_at-recorded m p entry handle new = rw (os.rm.entries-add p entry m.dev.rm_mem_list new)

module _ {os : Platform} (m : Memory os) where
  -- With the mutex free and nodes at new addresses, a device object is recorded under its id (not
  -- -1), and an object made below it under the same id: both handles are found again.
  pub device_at-ctrl :
      (p r : ℕ) (dev sub : AllocParams) (parms : AllocParms)
      → m.dev.mu ≡ false
      → has p (os.rm.entries m.dev.rm_mem_list) ≡ false
      → has r (os.rm.entries m.dev.rm_mem_list) ≡ false
      → r ≢ p
      → dev.p_alloc_parms ≡ some parms
      → parms.as_int ≢ no_device
      → sub.h_object_parent ≡ dev.h_object_new
      → Returns
          (λ ret m'.
            (ret ≡ pos 0)
            × (device_at sub.h_object_new m' ≡ parms.as_int)
            × (device_at dev.h_object_new m' ≡ parms.as_int))
          (and_then (post_device_rm_alloc (some p) dev m) (λ _. post_ctrl_rm_alloc (some r) sub))
  device_at-ctrl p r dev sub parms u new new' ne n known par =
      let e : RmMem = record { object = dev.h_object_new; device_id = parms.as_int } in
      let t : Memory os = recorded p e m in
      let id : (device_at sub.h_object_parent t ≡ parms.as_int) =
        ground (arith, device_at-recorded m p e sub.h_object_parent new) in
      let e' : RmMem = record {
        object = sub.h_object_new;
        device_id = device_at sub.h_object_parent t;
      } in
      let fresh : (has r (os.rm.entries t.dev.rm_mem_list) ≡ false) =
        rw (os.rm.entries-add p e m.dev.rm_mem_list new) (ground arith) in
      rw
        (
          post_device_rm_alloc_lem m p dev parms u n,
          post_ctrl_rm_alloc_lem t r sub u (ground arith),
        )
        (
          refl,
          ground (arith, device_at-recorded t r e' sub.h_object_new fresh),
          ground (
            arith,
            device_at-recorded t r e' dev.h_object_new fresh,
            device_at-recorded m p e dev.h_object_new new,
          ),
        )

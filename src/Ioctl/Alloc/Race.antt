-- ===== src/Ioctl/Alloc/Race.antt =====
-- Two requests, each checked before either is charged: the check and the charge of src/ioctl_hook.c
-- take the mutex separately, with the driver's `ioctl` between them.
use nv_resource_controller.Prelude.{
  ℕ, ◌+◌, ◌-◌, ◌^◌, ◌≤◌, ◌<◌, ◌≡◌, ◌≢◌, Bool, true, false, ◌||◌, some, arith,
}
use nv_resource_controller.Prelude.Int.{pos}
use nv_resource_controller.Prelude.Run.{Cmd, ok, pure, Returns, ◌>>=◌, ◌>>◌}
use nv_resource_controller.Platform.{Platform}
use nv_resource_controller.Hook.Types.{FbInfo}
use nv_resource_controller.Hook.Memory.{holds, Memory}
use nv_resource_controller.Ioctl.Params.{HeapParams}
use nv_resource_controller.Ioctl.Account.{IsReady}
use nv_resource_controller.Ioctl.Pre.{pre_vid_heap_alloc}
use nv_resource_controller.Ioctl.Pre.Check.{exceeds, pre_vid_heap_alloc_lem}
use nv_resource_controller.Ioctl.Alloc.{post_vid_heap_alloc}
use nv_resource_controller.Ioctl.Alloc.Charge.{
  charged_fb, charged_memory, heap_entry, post_vid_heap_alloc_lem,
}

-- A request that fits alone, and that the driver grants as it was made.
pub record FitsAlone (ok_status alloc : ℕ) (fb : FbInfo) (api : HeapParams) : Type 0 where
  pub function : api.function ≡ alloc
  pub status : api.status ≡ ok_status
  pub aligned : api.alloc_size.alignment ≢ 0
  pub fits : exceeds api.alloc_size.size api.alloc_size.alignment fb ≡ false
  pub size : api.alloc_size.size ≤ fb.free_mem

-- Both charges, unless one of the checks has refused.
unfoldable pub charge_both :
    {os : Platform} → Bool → (p r : ℕ) → HeapParams → HeapParams → Cmd (Memory os) (Unit {0})
charge_both true p r a b = pure tt
charge_both false p r a b = do
  post_vid_heap_alloc (some p) a
  post_vid_heap_alloc (some r) b
  pure tt

-- Two threads: the check of each comes before the charge of either.
unfoldable pub check_check_charge_charge :
    {os : Platform} → (p r : ℕ) → HeapParams → HeapParams → Cmd (Memory os) (Unit {0})
unfolding charge_both
check_check_charge_charge p r a b = do
  (_, _, low) ← pre_vid_heap_alloc a
  (_, _, low') ← pre_vid_heap_alloc b
  charge_both (low || low') p r a b

checked :
    {os : Platform} {k : ℕ} {fb : FbInfo} (m : Memory os) (a : HeapParams)
    → IsReady k fb m
    → FitsAlone os.abi.nv_ok os.abi.function_alloc_size fb a
    → pre_vid_heap_alloc a m ≡ ok (pos 0, a, false) m
checked m a ready f = ground (arith, pre_vid_heap_alloc_lem {m = m} a ready, f.fits)

-- On a ready account, whenever two requests that the driver grants as they are fit alone and not
-- together, both are let through, and the account then says that `2 ^ 64` bytes less the excess are
-- free, which is no less than `2 ^ 64` less what there was.
pub race_wraps :
    {os : Platform} {k : ℕ} {fb : FbInfo} (m : Memory os) (p r : ℕ) (a b : HeapParams)
    → IsReady k fb m
    → fb.free_mem < 2 ^ 64
    → FitsAlone os.abi.nv_ok os.abi.function_alloc_size fb a
    → FitsAlone os.abi.nv_ok os.abi.function_alloc_size fb b
    → fb.free_mem < a.alloc_size.size + b.alloc_size.size
    → let left : ℕ = 2 ^ 64 + fb.free_mem - (a.alloc_size.size + b.alloc_size.size) in
      Returns
        (λ _ m'. (m'.shm k ≡ holds (record fb { free_mem = left })) × (2 ^ 64 ≤ left + fb.free_mem))
        (check_check_charge_charge p r a b m)
unfolding check_check_charge_charge
race_wraps {k} {fb} m p r a b ready word fa gb over =
    let t = charged_memory k fb p (heap_entry a) m in
    let ready' : IsReady k (charged_fb fb a.alloc_size.size) t = record {
      unlocked = ready.unlocked;
      mapped = ready.mapped;
      held = ground arith;
    } in
    rw
      (
        checked m a ready fa,
        checked m b ready gb,
        post_vid_heap_alloc_lem {m = m} p a ready fa.status fa.aligned,
        post_vid_heap_alloc_lem {m = t} r b ready' gb.status gb.aligned,
      )
      (ground arith, omega arith)

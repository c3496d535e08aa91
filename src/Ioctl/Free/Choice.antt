-- ===== src/Ioctl/Free/Choice.antt =====
-- Which allocation a freed handle gives back, and an allocation followed by its release.
use nv_resource_controller.Prelude.{
  ℕ, ◌^◌, ◌<◌, ◌≡◌, ◌≢◌, false, true, Option, none, some, arith, ◌∙◌,
}
use nv_resource_controller.Prelude.Int.{pos}
use nv_resource_controller.Prelude.Run.{ok, and_then, Returns}
use nv_resource_controller.Platform.{Platform}
use nv_resource_controller.Platform.ListApi.{has}
use nv_resource_controller.Hook.Types.{DeviceMem, FbInfo, nvidia_ctl_minor}
use nv_resource_controller.Hook.Memory.{holds, Memory}
use nv_resource_controller.Ioctl.Params.{FreeParams, HeapParams}
use nv_resource_controller.Ioctl.Account.{IsReady, Inv, IsSteady, IsReady-Inv, heap_entries, set_mu}
use nv_resource_controller.Ioctl.Alloc.{post_vid_heap_alloc}
use nv_resource_controller.Ioctl.Alloc.Charge.{
  charged_fb, charged_memory, heap_entry, post_vid_heap_alloc_lem,
}
use nv_resource_controller.Ioctl.Free.{free_page, locked_free, post_rm_free}
use nv_resource_controller.Ioctl.Free.Entries.{first_match, last, or_else, seek_lem}
use nv_resource_controller.Ioctl.Free.Release.{freed_memory, free_heap_page-some}

-- The object is neither the client nor a child of it, and the driver has freed it.
pub record IsHeapFree (ok_status : ℕ) (api : FreeParams) : Type 0 where
  pub status : api.status ≡ ok_status
  pub not_root : api.h_object_old ≢ api.h_root
  pub not_child : api.h_root ≢ api.h_object_parent

module _ {os : Platform} where
  -- The entry that `post_rm_free` settles on for such a handle.
  abbrev pub chosen : ℕ → Memory os → Option (ℕ × DeviceMem)
  chosen page m =
      or_else (first_match (λ e. e.object) page (heap_entries m)) (last none (heap_entries m))

module _ {os : Platform} {k : ℕ} {fb : FbInfo} where
  -- On the control descriptor and a ready account, for a handle as in `IsHeapFree` where the list
  -- is not empty, `post_rm_free` gives back the first allocation recorded for the handle; where
  -- none is recorded, it gives back the last one of the list, whosever it is.
  pub post_rm_free-chosen :
      (m : Memory os) (api : FreeParams) (p : ℕ) (entry : DeviceMem)
      → IsReady k fb m
      → IsHeapFree os.abi.nv_ok api
      → chosen api.h_object_old m ≡ some (p, entry)
      → post_rm_free nvidia_ctl_minor api m ≡ ok (pos 0) (freed_memory k fb p entry m)
  unfolding post_rm_free locked_free free_page
  post_rm_free-chosen m api p entry r h e = ground (
    arith,
    h.not_root,
    h.not_child,
    free_heap_page-some {k = k} {fb = fb} (set_mu true m) api.h_object_old p entry r.mapped r.held,
    seek_lem (λ e. e.object) api.h_object_old none (heap_entries m),
  )

-- What an allocation and its release leave of the account.
abbrev pub IsBack : {os : Platform} → ℕ → FbInfo → Memory os → Memory os → Type 0
IsBack k fb m m' =
    (heap_entries m' ≡ heap_entries m)
    × (m'.dev.alloc_mem ≡ m.dev.alloc_mem)
    × (m'.shm k ≡ holds fb)
    × (m'.dev.mu ≡ false)

module _ {os : Platform} {k q : ℕ} (m : Memory os) (i : Inv k q m) (p : ℕ) (entry : DeviceMem) where
  freed-charged :
      entry.size < 2 ^ 64
      → has p (heap_entries m) ≡ false
      → m.dev.mu ≡ false
      → IsBack k i.fb m
          (freed_memory k (charged_fb i.fb entry.size) p entry (charged_memory k i.fb p entry m))
  freed-charged w new u =
      let added = os.heap.entries-add p entry m.dev.heap_mem_list new in
      let chain = os.heap.list_add p entry m.dev.heap_mem_list in
      let left =
        os.heap.entries-del p chain (rw added (new, i.heap_distinct)) (rw added (ground arith)) in
      (left ∙ rw added (ground arith), ground (arith, i.charged), ground (arith, i.free_word), u)

  chosen-charged :
      has p (heap_entries m) ≡ false
      → chosen entry.object (charged_memory k i.fb p entry m) ≡ some (p, entry)
  unfolding first_match
  chosen-charged new = rw (os.heap.entries-add p entry m.dev.heap_mem_list new) (ground arith)

-- From an account in order, with a node at a new address, an allocation on the heap that the driver
-- has granted (its alignment not 0, its size a word) and the release of its handle cancel: the
-- list, both counters and the mutex are as before.
pub post_rm_free-post_vid_heap_alloc :
    {os : Platform} {k q : ℕ} (m : Memory os) (p : ℕ) (api : HeapParams) (freed : FreeParams)
    → (s : IsSteady k q m) → has p (heap_entries m) ≡ false
    → api.status ≡ os.abi.nv_ok
    → api.alloc_size.alignment ≢ 0
    → api.alloc_size.size < 2 ^ 64
    → IsHeapFree os.abi.nv_ok freed
    → freed.h_object_old ≡ api.alloc_size.h_memory
    → Returns
        (λ _ m'. IsBack k s.1.fb m m')
        (and_then (post_vid_heap_alloc (some p) api m) (λ _. post_rm_free nvidia_ctl_minor freed))
post_rm_free-post_vid_heap_alloc {os} {k} {q} m p api freed s new st al w h e =
    let entry = heap_entry api in
    let m' = charged_memory k s.1.fb p entry m in
    let ready : IsReady k (charged_fb s.1.fb entry.size) m' = record {
      unlocked = s.0;
      mapped = (s.1).mapped;
      held = ground arith;
    } in
    let hit : chosen freed.h_object_old m' ≡ some (p, entry) =
      rw e (chosen-charged m s.1 p entry new) in
    rw
      (
        post_vid_heap_alloc_lem {m = m} p api (IsReady-Inv s.0 s.1) st al,
        post_rm_free-chosen m' freed p entry ready h hit,
      )
      (freed-charged m s.1 p entry w new s.0)

-- ===== src/Ioctl/Alloc/Steady.antt =====
-- The handlers after an allocation: each returns with the mutex free and the account in order, as
-- long as `malloc` succeeds where a charge is made.
use nv_resource_controller.Prelude.{
  ℕ, ◌^◌, ◌<◌, ◌≤◌, ◌≡◌, ◌≢◌, Bool, refl, sym, ◌∙◌, inl, inr, true, false, arith, Bool-cases, ◌==◌,
  Option, none, some, not, ◌&&◌, ◌∷◌,
}
use nv_resource_controller.Prelude.Int.{pos}
use nv_resource_controller.Prelude.Run.{ok, Returns}
use nv_resource_controller.Platform.{Platform}
use nv_resource_controller.Platform.ListApi.{has}
use nv_resource_controller.Hook.Types.{DeviceMem}
use nv_resource_controller.Hook.Memory.{Memory, lock}
use nv_resource_controller.Ioctl.Params.{AllocParams, AllocParms, MemoryParams, HeapParams}
use nv_resource_controller.Ioctl.Account.{
  Inv, IsSteady, Inv-set_mu, set_mu, Inv-rm, heap_entries, IsReady-Inv,
}
use nv_resource_controller.Ioctl.Ledger.{Moves, same, charged, allocations, ledger}
use nv_resource_controller.Ioctl.Alloc
use nv_resource_controller.Ioctl.Alloc.{
  new_rm, device_alloc, ctrl_entry, memory_alloc, memory_charge, find_device,
}
use nv_resource_controller.Ioctl.Alloc.{
  post_device_rm_alloc, post_ctrl_rm_alloc, post_memory_rm_alloc, post_rm_alloc,
  post_vid_heap_alloc, post_rm_vid_heap_control,
}
use nv_resource_controller.Ioctl.Alloc.Charge.{
  Inv-charged_memory, charge_lem, post_vid_heap_alloc_lem, heap_entry,
}

-- `pAllocParms` is not null, and the size behind it is a word.
abbrev pub HasParms : AllocParams → Type 0
HasParms api =
    (parms : AllocParms) × (api.p_alloc_parms ≡ some parms) × (parms.as_memory.size < 2 ^ 64)

-- What the driver has granted, where it says so, is at most `b` bytes.
abbrev pub GrantsHeap : (ok_status b : ℕ) → HeapParams → Type 0
GrantsHeap ok_status b api =
    api.status ≡ ok_status → api.alloc_size.alignment ≢ 0 → api.alloc_size.size ≤ b

abbrev pub GrantsAlloc : (ok_status b : ℕ) → AllocParams → Type 0
GrantsAlloc ok_status b api =
    (parms : AllocParms)
    → api.p_alloc_parms ≡ some parms
    → api.status ≡ ok_status
    → parms.as_memory.alignment ≢ 0
    → parms.as_memory.size ≤ b

-- The size behind `pAllocParms` is a word.
pub parms-word :
    (ok_status : ℕ) (api : AllocParams) → HasParms api → GrantsAlloc ok_status (2 ^ 64) api
parms-word ok_status api (parms, e, w) parms' e' _ _ =
    let same_parms : (some parms ≡ some parms') = sym e ∙ e' in
    let sizes_same : (parms.as_memory.size ≡ parms'.as_memory.size) = cc in
    omega (arith, w, sizes_same)

module _ {os : Platform} where
  -- What `malloc` returns is a null pointer, or the address of no node of the two lists.
  abbrev pub IsFresh : Option ℕ → Memory os → Type 0
  IsFresh none m = Unit {0}
  IsFresh (some p) m =
      (has p (heap_entries m) ≡ false) × (has p (os.rm.entries m.dev.rm_mem_list) ≡ false)

  IsFresh-set_mu :
      (fresh : Option ℕ) (b : Bool) (m : Memory os) → IsFresh fresh m → IsFresh fresh (set_mu b m)
  IsFresh-set_mu none b m f = tt
  IsFresh-set_mu (some p) b m f = f

  skipped :
      (p : ℕ) (api : HeapParams) (m : Memory os)
      → (api.status == os.abi.nv_ok && not (api.alloc_size.alignment == 0)) ≡ false
      → post_vid_heap_alloc (some p) api m ≡ ok (pos 0, api) m
  unfolding post_vid_heap_alloc
  skipped p api m e = ground arith

  -- The allocations with a new one, whose node is at `p`.
  one_more :
      (p : ℕ) (entry : DeviceMem) (m : Memory os)
      → has p (heap_entries m) ≡ false
      → allocations (os.heap.entries (os.heap.list_add p entry m.dev.heap_mem_list))
        ≡ entry ∷ ledger m
  one_more p entry m new = rw (os.heap.entries-add p entry m.dev.heap_mem_list new) refl

  module _ {k q : ℕ} (b : ℕ) where
    stay : (m : Memory os) → IsSteady k q m → Moves k q b m m
    stay m s = (s, same refl)

    new_rm-Moves :
        (fresh : Option ℕ) (object device_id : ℕ) (m : Memory os)
        → Inv k q m
        → IsFresh fresh m
        → Returns (λ _ m'. Moves k q b m m') (new_rm fresh object device_id m)
    unfolding new_rm
    new_rm-Moves none object device_id m i f = ((refl, Inv-set_mu false i), same refl)
    new_rm-Moves (some p) object device_id m i f = (
      (
        refl,
        Inv-set_mu false
            (Inv-rm i _ (rw (os.rm.entries-add p _ m.dev.rm_mem_list f.1) (f.1, i.rm_distinct))),
      ),
      same refl,
    )

    device_alloc-Moves :
        (fresh : Option ℕ) (api : AllocParams) (parms : AllocParms) (m : Memory os)
        → IsSteady k q m
        → IsFresh fresh m
        → Returns (λ _ m'. Moves k q b m m') (device_alloc fresh api (some parms) m)
    unfolding device_alloc lock
    device_alloc-Moves fresh api parms m s f = rw (s.0) (
        new_rm-Moves fresh api.h_object_new parms.as_int (set_mu true m) (Inv-set_mu true s.1)
          (IsFresh-set_mu fresh true m f))

    ctrl_entry-Moves :
        (fresh : Option ℕ) (object device_id : ℕ) (m : Memory os)
        → Inv k q m
        → IsFresh fresh m
        → Returns (λ _ m'. Moves k q b m m') (ctrl_entry fresh object device_id m)
    unfolding ctrl_entry
    ctrl_entry-Moves fresh object device_id m i f =
        elim (Bool-cases (device_id == Alloc.no_device)) [
          | inl e ↦ rw e ((refl, Inv-set_mu false i), same refl)
          | inr e ↦ rw e (new_rm-Moves fresh object device_id m i f)
        ]

    post_ctrl_rm_alloc-Moves :
        (fresh : Option ℕ) (api : AllocParams) (m : Memory os)
        → IsSteady k q m
        → IsFresh fresh m
        → Returns (λ _ m'. Moves k q b m m') (post_ctrl_rm_alloc fresh api m)
    unfolding post_ctrl_rm_alloc
    post_ctrl_rm_alloc-Moves fresh api m s f = rw (s.0) (
        ctrl_entry-Moves fresh api.h_object_new _ (set_mu true m) (Inv-set_mu true s.1)
          (IsFresh-set_mu fresh true m f))

    memory_charge-Moves :
        (p : ℕ) (params : MemoryParams) (m : Memory os)
        → Inv k q m
        → params.size < 2 ^ 64
        → params.size ≤ b
        → has p (heap_entries m) ≡ false
        → Returns (λ _ m'. Moves k q b m m') (memory_charge (some p) params m)
    unfolding memory_charge
    memory_charge-Moves p params m i w small new =
        let entry : DeviceMem = record { object = params.owner; size = params.size } in
        rw (charge_lem p entry m i.mapped i.held) (
          (refl, Inv-set_mu false (Inv-charged_memory p entry i w new)),
          charged entry small (one_more p entry m new),
        )

    memory_alloc-Moves :
        (p : ℕ) (parms : AllocParms) (m : Memory os)
        → IsSteady k q m
        → parms.as_memory.size < 2 ^ 64
        → (parms.as_memory.alignment ≢ 0 → parms.as_memory.size ≤ b)
        → IsFresh (some p) m
        → Returns (λ _ m'. Moves k q b m m') (memory_alloc (some p) (some parms) m)
    unfolding memory_alloc
    memory_alloc-Moves p parms m s w small f = elim (Bool-cases (parms.as_memory.alignment == 0)) [
      | inl e ↦ rw e (s, same refl)
      | inr e ↦
          rw (e, s.0)
            (memory_charge-Moves p parms.as_memory (set_mu true m) (Inv-set_mu true s.1) w
              (small (ground arith)) f.0)
    ]

    post_vid_heap_alloc-Moves :
        (p : ℕ) (api : HeapParams) (m : Memory os)
        → IsSteady k q m
        → IsFresh (some p) m
        → api.alloc_size.size < 2 ^ 64
        → GrantsHeap os.abi.nv_ok b api
        → Returns (λ _ m'. Moves k q b m m') (post_vid_heap_alloc (some p) api m)
    post_vid_heap_alloc-Moves p api m s f w small =
        elim (Bool-cases (api.status == os.abi.nv_ok && not (api.alloc_size.alignment == 0))) [
          | inl e ↦
              rw
                (post_vid_heap_alloc_lem {m = m} p api (IsReady-Inv s.0 s.1) (ground arith)
                  (ground arith))
                (
                  (s.0, Inv-charged_memory p (heap_entry api) s.1 w f.0),
                  charged (heap_entry api) (small (ground arith) (ground arith))
                      (one_more p (heap_entry api) m f.0),
                )
          | inr e ↦ rw (skipped p api m e) (s, same refl)
        ]

    post_device_rm_alloc-Moves :
        (fresh : Option ℕ) (api : AllocParams) (m : Memory os)
        → IsSteady k q m
        → IsFresh fresh m
        → HasParms api
        → Returns (λ _ m'. Moves k q b m m') (post_device_rm_alloc fresh api m)
    unfolding post_device_rm_alloc
    post_device_rm_alloc-Moves fresh api m s f (parms, e, w) =
        rw e (device_alloc-Moves fresh api parms m s f)

    post_memory_rm_alloc-Moves :
        (p : ℕ) (api : AllocParams) (m : Memory os)
        → IsSteady k q m
        → IsFresh (some p) m
        → HasParms api
        → GrantsAlloc os.abi.nv_ok b api
        → Returns (λ _ m'. Moves k q b m m') (post_memory_rm_alloc (some p) api m)
    unfolding post_memory_rm_alloc
    post_memory_rm_alloc-Moves p api m s f (parms, e, w) small =
        elim (Bool-cases (api.status == os.abi.nv_ok)) [
          | inl good ↦
              rw (good, e) (memory_alloc-Moves p parms m s w (small parms e (ground arith)) f)
          | inr failed ↦ rw failed (s, same refl)
        ]

    -- `post_rm_alloc` keeps the account on every class of object.
    pub post_rm_alloc-Moves :
        (p : ℕ) (api : AllocParams) (m : Memory os)
        → IsSteady k q m
        → IsFresh (some p) m
        → HasParms api
        → (api.h_class ≡ os.abi.class_memory_local_user → GrantsAlloc os.abi.nv_ok b api)
        → Returns (λ _ m'. Moves k q b m m') (post_rm_alloc (some p) api m)
    unfolding post_rm_alloc
    post_rm_alloc-Moves p api m s f h small =
        let memory : (api.h_class ≡ os.abi.class_memory_local_user
            → Returns (λ _ m'. Moves k q b m m') (post_memory_rm_alloc (some p) api m)) =
          λ c. post_memory_rm_alloc-Moves p api m s f h (small c) in
        ground (
          arith,
          post_device_rm_alloc-Moves (some p) api m s f h,
          post_ctrl_rm_alloc-Moves (some p) api m s f,
          memory,
          stay m s,
        )

    -- So does `post_rm_vid_heap_control`.
    pub post_rm_vid_heap_control-Moves :
        (p minor : ℕ) (api : HeapParams) (m : Memory os)
        → IsSteady k q m
        → IsFresh (some p) m
        → api.alloc_size.size < 2 ^ 64
        → (api.function ≡ os.abi.function_alloc_size → GrantsHeap os.abi.nv_ok b api)
        → Returns (λ _ m'. Moves k q b m m') (post_rm_vid_heap_control (some p) minor api m)
    unfolding post_rm_vid_heap_control
    post_rm_vid_heap_control-Moves p minor api m s f w small =
        let heap : (api.function ≡ os.abi.function_alloc_size
            → Returns (λ _ m'. Moves k q b m m') (post_vid_heap_alloc (some p) api m)) =
          λ c. post_vid_heap_alloc-Moves p api m s f w (small c) in
        ground (arith, heap, stay m s)

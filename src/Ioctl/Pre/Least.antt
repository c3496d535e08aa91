-- ===== src/Ioctl/Pre/Least.antt =====
-- The check of `pre_vid_heap_alloc` without its bit mask: what it refuses, and what the block then says.
use native.Mathlib.Nat.{mul-le-mul_right, one-le-pow}
use nv_resource_controller.Prelude.{
  ◌⊎◌, leb, ℕ, ◌+◌, ◌*◌, ◌^◌, ◌≤◌, ◌<◌, ◌≡◌, ◌==◌, refl, ◌∙◌, true, false, arith, Bool-cases, inl,
  inr,
}
use nv_resource_controller.Prelude.Int.{pos}
use nv_resource_controller.Prelude.Run.{ok}
use nv_resource_controller.Platform.{Platform}
use nv_resource_controller.Hook.Types.{FbInfo}
use nv_resource_controller.Hook.Memory.{Memory}
use nv_resource_controller.Ioctl.Params.{HeapParams}
use nv_resource_controller.Ioctl.Align.{align_up}
use nv_resource_controller.Ioctl.Align.Rounding.{align_up_least}
use nv_resource_controller.Ioctl.Account.{IsReady}
use nv_resource_controller.Ioctl.Pre.{pre_vid_heap_alloc}
use nv_resource_controller.Ioctl.Pre.Check.{exceeds, pre_vid_heap_alloc_lem}

-- A multiple of `w` that is below the next one is no greater.
multiple_below : (d e w : ℕ) → d * w < e * w + w → d * w ≤ e * w
multiple_below d e w h = elim (Bool-cases (leb d e)) [
  | inl l ↦ mul-le-mul_right w (ground (arith, l))
  | inr g ↦
      let more : (e + 1 ≤ d) = ground (arith, g) in
      absurd (omega (arith, h, mul-le-mul_right w more))
]

-- There is room for `size` bytes in whole pieces of `w` bytes.
abbrev pub HasRoom : (size w free : ℕ) → Type 0
HasRoom size w free = (d : ℕ) × (size ≤ d * w) × (d * w ≤ free)

-- The block with the refusal and the account written into it.
abbrev pub told_no : Platform → FbInfo → HeapParams → HeapParams
told_no os fb api = record api {
  status = os.abi.nv_err_no_memory;
  total = fb.total_mem;
  free = fb.free_mem;
}

module _ {os : Platform} {c : ℕ} {fb : FbInfo} {m : Memory os} where
  -- A sized request with a power of two as its alignment, that does not wrap when it is rounded, on a
  -- ready account: `pre_vid_heap_alloc` lets it through, with the block as it was, exactly where some
  -- multiple of the alignment holds the size and is no more than what is free. Otherwise it refuses
  -- it: the block says `NV_ERR_NO_MEMORY`, and the total and the free memory of the account. No
  -- memory is changed.
  pub pre_vid_heap_alloc_least :
      (api : HeapParams) (k : ℕ)
      → IsReady c fb m
      → api.function ≡ os.abi.function_alloc_size
      → api.alloc_size.alignment ≡ 2 ^ k
      → k < 64
      → api.alloc_size.size + 2 ^ k ≤ 2 ^ 64
      → (HasRoom api.alloc_size.size (2 ^ k) fb.free_mem
          × (pre_vid_heap_alloc api m ≡ ok (pos 0, api, false) m))
        ⊎ (¬ HasRoom api.alloc_size.size (2 ^ k) fb.free_mem
            × (pre_vid_heap_alloc api m ≡ ok (pos 0, told_no os fb api, true) m))
  pre_vid_heap_alloc_least api k r f a small fits =
      let size : ℕ = api.alloc_size.size in
      let least = align_up_least size k small fits in
      let low = exceeds size api.alloc_size.alignment fb in
      let sized : ((api.function == os.abi.function_alloc_size) ≡ true) = ground (arith, f) in
      elim (Bool-cases low) [
        | inl e ↦ inr (
          λ room.
              let below =
                multiple_below least.2.0 room.0 (2 ^ k)
                  (omega (arith, least.1, least.2.1, room.1)) in
              let full : (fb.free_mem < align_up size (2 ^ k)) = ground (arith, e) in
              absurd (omega (arith, full, below, least.2.1, room.2)),
          pre_vid_heap_alloc_lem {m = m} api r ∙ rw (sized, e) refl,
        )
        | inr e ↦ inl (
          (
            least.2.0,
            omega (arith, least.0, least.2.1),
            ground (arith, e, least.2.1, a, one-le-pow k 2),
          ),
          pre_vid_heap_alloc_lem {m = m} api r ∙ rw (sized, e) refl,
        )
      ]

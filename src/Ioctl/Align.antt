-- ===== src/Ioctl/Align.antt =====
-- The rounding of `pre_vid_heap_alloc` and `pre_rm_alloc`, on 64-bit words.
pub mod Mask
pub mod Rounding
use nv_resource_controller.Prelude.{ℕ, ◌+◌, ◌-◌, ◌%◌, ◌^◌, bit_and}

-- `~x`
abbrev pub complement : ℕ → ℕ
complement x = 2 ^ 64 - 1 - x

-- `(size + alignment - 1) & ~(alignment - 1)`, where `alignment` is not 0
unfoldable pub align_up : ℕ → ℕ → ℕ
align_up size alignment = bit_and ((size + alignment - 1) % 2 ^ 64) (complement (alignment - 1))

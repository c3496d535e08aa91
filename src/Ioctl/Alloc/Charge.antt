-- ===== src/Ioctl/Alloc/Charge.antt =====
-- The charge of an allocation: what `post_vid_heap_alloc` and `post_memory_rm_alloc` do to memory.
use nv_resource_controller.Prelude.{ℕ, ◌+◌, ◌-◌, ◌%◌, ◌^◌, ◌<◌, ◌≡◌, ◌≢◌, false, some, arith}
use nv_resource_controller.Prelude.Int.{pos}
use nv_resource_controller.Prelude.Run.{ok}
use nv_resource_controller.Platform.{Platform}
use nv_resource_controller.Platform.ListApi.{has}
use nv_resource_controller.Hook.Types.{DeviceMem, FbInfo}
use nv_resource_controller.Hook.Memory.{holds, Memory, update}
use nv_resource_controller.Ioctl.Account.{IsReady, Inv, heap_entries}
use nv_resource_controller.Ioctl.Params.{HeapParams}
use nv_resource_controller.Ioctl.Alloc.{charge, post_vid_heap_alloc}

abbrev pub charged_fb : FbInfo → ℕ → FbInfo
charged_fb fb size = record fb { free_mem = (fb.free_mem + 2 ^ 64 - size) % 2 ^ 64 }

-- The entry that `post_vid_heap_alloc` makes.
abbrev pub heap_entry : HeapParams → DeviceMem
heap_entry api = record { object = api.alloc_size.h_memory; size = api.alloc_size.size }

module _ {os : Platform} where
  -- Memory after the charge of `entry`, whose node is at `p`.
  abbrev pub charged_memory : ℕ → FbInfo → ℕ → DeviceMem → Memory os → Memory os
  charged_memory k fb p entry m = record m {
    dev = record m.dev {
      alloc_mem = (m.dev.alloc_mem + entry.size) % 2 ^ 64;
      heap_mem_list = os.heap.list_add p entry m.dev.heap_mem_list;
    };
    shm = update m.shm k (holds (charged_fb fb entry.size));
  }

  pub charge_lem :
      {k : ℕ} {fb : FbInfo} (p : ℕ) (entry : DeviceMem) (m : Memory os)
      → m.dev.fb_info ≡ some k
      → m.shm k ≡ holds fb
      → charge p entry m ≡ ok tt (charged_memory k fb p entry m)
  unfolding charge
  charge_lem p entry m at held = ground arith

  module _ {k : ℕ} {fb : FbInfo} {m : Memory os} where
    pub post_vid_heap_alloc_lem :
        (p : ℕ) (api : HeapParams)
        → IsReady k fb m
        → api.status ≡ os.abi.nv_ok
        → api.alloc_size.alignment ≢ 0
        → post_vid_heap_alloc (some p) api m
          ≡ ok
              (
                pos 0,
                record api {
                  total = fb.total_mem;
                  free = (charged_fb fb api.alloc_size.size).free_mem;
                },
              )
              (charged_memory k fb p (heap_entry api) m)
    unfolding post_vid_heap_alloc charge
    post_vid_heap_alloc_lem p api r s a = ground arith

  pub Inv-charged_memory :
      {k q : ℕ} {m : Memory os} (p : ℕ) (entry : DeviceMem)
      → (i : Inv k q m) → entry.size < 2 ^ 64
      → has p (heap_entries m) ≡ false
      → Inv k q (charged_memory k i.fb p entry m)
  Inv-charged_memory {k} {q} {m} p entry i w new =
      let added = os.heap.entries-add p entry m.dev.heap_mem_list new in
      record {
        fb = charged_fb i.fb entry.size;
        mapped = i.mapped;
        held = ground arith;
        quota = omega arith;
        charged = rw added (omega arith);
        free_word = omega arith;
        words = rw added (w, i.words);
        heap_distinct = rw added (new, i.heap_distinct);
        rm_distinct = i.rm_distinct;
        sized = λ j. ground (arith, i.sized j);
      }

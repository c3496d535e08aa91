-- ===== src/Ioctl/Free/Release.antt =====
-- What `free_heap_page` and `free_device_page` do to memory, and that the account stays in order.
use nv_resource_controller.Prelude.{
  ℕ, ◌+◌, ◌-◌, ◌%◌, ◌^◌, ◌≡◌, refl, inl, inr, none, some, arith, Option-cases,
}
use nv_resource_controller.Prelude.Run.{ok, Returns}
use nv_resource_controller.Platform.{Platform}
use nv_resource_controller.Platform.ListApi.{ListApi, Distinct}
use nv_resource_controller.Hook.Types.{DeviceMem, FbInfo}
use nv_resource_controller.Hook.Memory.{holds, Memory, update}
use nv_resource_controller.Ioctl.Account.{Inv, Inv-rm, heap_entries}
use nv_resource_controller.Ioctl.Ledger.{LedgerStep, same, released, split, allocations, ledger}
use nv_resource_controller.Ioctl.Free.{seek, free_heap_page, free_device_page}
use nv_resource_controller.Ioctl.Free.Entries.{
  At, At-seek-none, has-At, Distinct-remove, AllWords-remove, word_of_At, sizes-remove,
}

-- The account with `size` given back.
abbrev pub freed_fb : FbInfo → ℕ → FbInfo
freed_fb fb size = record fb { free_mem = (fb.free_mem + size) % 2 ^ 64 }

Distinct-list_del :
    {A : Type 0} (list : ListApi A) (c : list.Chain) (p : ℕ) (a : A)
    → Distinct (list.entries c)
    → At (p, a) (list.entries c)
    → Distinct (list.entries (list.list_del p c))
Distinct-list_del list c p a d at =
    rw (list.entries-del p c d (has-At (p, a) _ at)) (Distinct-remove p _ d)

module _ {os : Platform} where
  -- Memory after the entry at `p` has been given back.
  abbrev pub freed_memory : ℕ → FbInfo → ℕ → DeviceMem → Memory os → Memory os
  freed_memory k fb p entry m = record m {
    dev = record m.dev {
      alloc_mem = (m.dev.alloc_mem + 2 ^ 64 - entry.size) % 2 ^ 64;
      heap_mem_list = os.heap.list_del p m.dev.heap_mem_list;
    };
    shm = update m.shm k (holds (freed_fb fb entry.size));
  }

  -- The mutex does not matter to the two functions: their caller holds it.
  pub free_heap_page-some :
      {k : ℕ} {fb : FbInfo} (m : Memory os) (page p : ℕ) (entry : DeviceMem)
      → m.dev.fb_info ≡ some k
      → m.shm k ≡ holds fb
      → seek (λ e. e.object) page none (heap_entries m) ≡ some (p, entry)
      → free_heap_page page m ≡ ok tt (freed_memory k fb p entry m)
  unfolding free_heap_page
  free_heap_page-some m page p entry at held e = rw e (ground arith)

  pub free_heap_page-none :
      (m : Memory os) (page : ℕ)
      → seek (λ e. e.object) page none (heap_entries m) ≡ none
      → free_heap_page page m ≡ ok tt m
  unfolding free_heap_page
  free_heap_page-none m page e = rw e

  pub Inv-freed_memory :
      {k q : ℕ} {m : Memory os} (p : ℕ) (entry : DeviceMem)
      → (i : Inv k q m) → At (p, entry) (heap_entries m)
      → Inv k q (freed_memory k i.fb p entry m)
  Inv-freed_memory {k} {q} {m} p entry i at =
      let xs = heap_entries m in
      let left =
        os.heap.entries-del p m.dev.heap_mem_list i.heap_distinct (has-At (p, entry) xs at) in
      let size = sizes-remove (p, entry) xs at i.heap_distinct in
      let word = word_of_At (p, entry) xs at i.words in
      record {
        fb = freed_fb i.fb entry.size;
        mapped = i.mapped;
        held = ground arith;
        quota = omega arith;
        charged = rw left (omega arith);
        free_word = omega arith;
        words = rw left (AllWords-remove p xs i.words);
        heap_distinct = rw left (Distinct-remove p xs i.heap_distinct);
        rm_distinct = i.rm_distinct;
        sized = λ j. ground (arith, i.sized j);
      }

  -- The allocations without the one whose node is at `p`.
  one_less :
      {k q : ℕ} (m : Memory os) (p : ℕ) (entry : DeviceMem)
      → Inv k q m
      → At (p, entry) (heap_entries m)
      → LedgerStep 0
          (ledger m)
          (allocations (os.heap.entries (os.heap.list_del p m.dev.heap_mem_list)))
  one_less m p entry i at =
      let r = split p entry (heap_entries m) i.heap_distinct at in
      let left =
        os.heap.entries-del p m.dev.heap_mem_list i.heap_distinct
          (has-At (p, entry) (heap_entries m) at) in
      released r.before r.after entry r.whole (rw left r.left)

  -- Whatever the handle, the account stays in order, with at most one allocation less.
  pub free_heap_page-Inv :
      {k q : ℕ} {m : Memory os} (page : ℕ)
      → Inv k q m
      → Returns
          (λ _ m'. Inv k q m' × (m'.dev.mu ≡ m.dev.mu) × LedgerStep 0 (ledger m) (ledger m'))
          (free_heap_page page m)
  free_heap_page-Inv {m} page i =
      elim (Option-cases (seek (λ e. e.object) page none (heap_entries m))) [
        | inl e ↦ rw (free_heap_page-none m page e) (i, refl, same refl)
        | inr ((p, entry), e) ↦ rw (free_heap_page-some m page p entry i.mapped i.held e) (
          Inv-freed_memory p entry i
              (At-seek-none (λ e. e.object) page (heap_entries m) (p, entry) e),
          refl,
          one_less m p entry i (At-seek-none (λ e. e.object) page (heap_entries m) (p, entry) e),
        )
      ]

  pub free_device_page-Inv :
      {k q : ℕ} {m : Memory os} (page : ℕ)
      → Inv k q m
      → Returns
          (λ _ m'. Inv k q m' × (m'.dev.mu ≡ m.dev.mu) × LedgerStep 0 (ledger m) (ledger m'))
          (free_device_page page m)
  unfolding free_device_page
  free_device_page-Inv {m} page i =
      elim (Option-cases (seek (λ e. e.object) page none (os.rm.entries m.dev.rm_mem_list))) [
        | inl e ↦ rw e (i, refl, same refl)
        | inr ((p, entry), e) ↦ rw e (
          Inv-rm i _ (
              Distinct-list_del os.rm m.dev.rm_mem_list p entry i.rm_distinct
                (At-seek-none (λ e. e.object) page _ (p, entry) e)),
          refl,
          same refl,
        )
      ]

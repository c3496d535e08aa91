-- ===== src/Ioctl/Account.antt =====
-- When the account of src/ioctl_hook.c is in order: the mutex is free, `fb_info` points at a shared
-- object that holds an account, and the lists and counters agree.
use nv_resource_controller.Prelude.{
  ℕ, ◌+◌, ◌%◌, ◌^◌, ◌<◌, ◌≡◌, ◌≢◌, Bool, false, some, List, [], ◌∷◌,
}
use nv_resource_controller.Platform.{Platform}
use nv_resource_controller.Platform.ListApi.{Distinct}
use nv_resource_controller.Hook.Types.{DeviceMem, FbInfo}
use nv_resource_controller.Hook.Memory.{empty, holds, Memory}

-- What the allocations of a list come to.
abbrev pub sizes : List (ℕ × DeviceMem) → ℕ
sizes [] = 0
sizes ((_, entry) ∷ xs) = entry.size + sizes xs

-- The sizes are 64-bit words.
abbrev pub AllWords : List (ℕ × DeviceMem) → Type 0
AllWords [] = Unit {0}
AllWords ((_, entry) ∷ xs) = (entry.size < 2 ^ 64) × AllWords xs

module _ {os : Platform} where
  -- The object with number `k` is the mapped account, and it reads `fb`.
  pub record IsReady (k : ℕ) (fb : FbInfo) (m : Memory os) : Type 0 where
    pub unlocked : m.dev.mu ≡ false
    pub mapped : m.dev.fb_info ≡ some k
    pub held : m.shm k ≡ holds fb

  abbrev pub heap_entries : Memory os → List (ℕ × DeviceMem)
  heap_entries m = os.heap.entries m.dev.heap_mem_list

  -- The account is in order, whoever has the mutex. `q` is what free and allocated memory come to
  -- together, as 64-bit words.
  pub record Inv (k q : ℕ) (m : Memory os) : Type 0 where
    pub fb : FbInfo
    pub mapped : m.dev.fb_info ≡ some k
    pub held : m.shm k ≡ holds fb
    pub quota : (fb.free_mem + m.dev.alloc_mem) % 2 ^ 64 ≡ q
    pub charged : m.dev.alloc_mem ≡ sizes (heap_entries m) % 2 ^ 64
    pub free_word : fb.free_mem < 2 ^ 64
    pub words : AllWords (heap_entries m)
    pub heap_distinct : Distinct (heap_entries m)
    pub rm_distinct : Distinct (os.rm.entries m.dev.rm_mem_list)
    pub sized : (j : ℕ) → m.shm j ≢ empty

  -- In order, and the mutex is free: what a handler finds and leaves.
  abbrev pub IsSteady : ℕ → ℕ → Memory os → Type 0
  IsSteady k q m = (m.dev.mu ≡ false) × Inv k q m

  abbrev pub set_mu : Bool → Memory os → Memory os
  set_mu b m = record m { dev = record m.dev { mu = b } }

  pub Inv-set_mu : {k q : ℕ} {m : Memory os} (b : Bool) → Inv k q m → Inv k q (set_mu b m)
  Inv-set_mu b i = record {
    fb = i.fb;
    mapped = i.mapped;
    held = i.held;
    quota = i.quota;
    charged = i.charged;
    free_word = i.free_word;
    words = i.words;
    heap_distinct = i.heap_distinct;
    rm_distinct = i.rm_distinct;
    sized = i.sized;
  }

  pub IsReady-Inv :
      {k q : ℕ} {m : Memory os} → m.dev.mu ≡ false → (i : Inv k q m) → IsReady k i.fb m
  IsReady-Inv u i = record { unlocked = u; mapped = i.mapped; held = i.held }

  -- Another device list changes nothing in the account.
  pub Inv-rm :
      {k q : ℕ} {m : Memory os} (i : Inv k q m) (c : os.rm.Chain)
      → Distinct (os.rm.entries c)
      → Inv k q (record m { dev = record m.dev { rm_mem_list = c } })
  Inv-rm i c d = record {
    fb = i.fb;
    mapped = i.mapped;
    held = i.held;
    quota = i.quota;
    charged = i.charged;
    free_word = i.free_word;
    words = i.words;
    heap_distinct = i.heap_distinct;
    rm_distinct = d;
    sized = i.sized;
  }

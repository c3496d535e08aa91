-- ===== src/Processes/Shared.antt =====
-- The account that several processes share.
use nv_resource_controller.Prelude.{
  ℕ, ◌+◌, ◌%◌, ◌^◌, ◌<◌, ◌≡◌, ◌≢◌, refl, subst, false, some, List, [], ◌∷◌, ◌++◌, arith,
}
use nv_resource_controller.Platform.{Platform}
use nv_resource_controller.Platform.ListApi.{Distinct}
use nv_resource_controller.Hook.Types.{FbInfo}
use nv_resource_controller.Hook.Memory.{empty, holds, Device, Memory, Shm}
use nv_resource_controller.Ioctl.Account.{IsSteady, sizes, AllWords}
use nv_resource_controller.Dlfcn.Ioctl.Steady.{Call-IsSteady}
use nv_resource_controller.Processes.{
  Processes, seen_by, total_alloc, Step, step, Reach, here, later,
}

module _ {os : Platform} where
  -- What one process has to itself is in order: its mutex is free, it maps object `k`, and its
  -- counter says what its list comes to.
  pub record IsOrderly (k : ℕ) (d : Device os) : Type 0 where
    pub unlocked : d.mu ≡ false
    pub mapped : d.fb_info ≡ some k
    pub charged : d.alloc_mem ≡ sizes (os.heap.entries d.heap_mem_list) % 2 ^ 64
    pub words : AllWords (os.heap.entries d.heap_mem_list)
    pub heap_distinct : Distinct (os.heap.entries d.heap_mem_list)
    pub rm_distinct : Distinct (os.rm.entries d.rm_mem_list)

  abbrev pub AllOrderly : ℕ → List (Device os) → Type 0
  AllOrderly k [] = Unit {0}
  AllOrderly k (d ∷ ds) = IsOrderly k d × AllOrderly k ds

  -- Every process is in order, the account is there, and what is free and what all of them have
  -- recorded come to `q` together, as 64-bit words.
  pub record IsShared (k q : ℕ) (s : Processes os) : Type 0 where
    pub orderly : AllOrderly k s.devs
    pub fb : FbInfo
    pub held : s.shm k ≡ holds fb
    pub free_word : fb.free_mem < 2 ^ 64
    pub sized : (j : ℕ) → s.shm j ≢ empty
    pub quota : (fb.free_mem + total_alloc s.devs) % 2 ^ 64 ≡ q

  -- One process with the account: what it has and what is free are as much as they are.
  pub IsSteady-process :
      (k : ℕ) (fb : FbInfo) (shm : Shm FbInfo) (d : Device os)
      → IsOrderly k d
      → shm k ≡ holds fb
      → fb.free_mem < 2 ^ 64
      → ((j : ℕ) → shm j ≢ empty)
      → IsSteady k ((fb.free_mem + d.alloc_mem) % 2 ^ 64) (seen_by d shm)
  IsSteady-process k fb shm d o held word sized = (
    o.unlocked,
    record {
      fb = fb;
      mapped = o.mapped;
      held = held;
      quota = refl;
      charged = o.charged;
      free_word = word;
      words = o.words;
      heap_distinct = o.heap_distinct;
      rm_distinct = o.rm_distinct;
      sized = sized;
    },
  )

  pub IsOrderly-IsSteady : (k q : ℕ) (m : Memory os) → IsSteady k q m → IsOrderly k m.dev
  IsOrderly-IsSteady k q m (unlocked, i) = record {
    unlocked = unlocked;
    mapped = i.mapped;
    charged = i.charged;
    words = i.words;
    heap_distinct = i.heap_distinct;
    rm_distinct = i.rm_distinct;
  }

  -- The process between others, and with another `gpu_device` in its place.
  pub IsOrderly-at :
      (k : ℕ) (before after : List (Device os)) (d : Device os)
      → AllOrderly k (before ++ d ∷ after)
      → IsOrderly k d
  IsOrderly-at k [] after d h = h.0
  IsOrderly-at k (b ∷ before) after d h = IsOrderly-at k before after d h.1

  pub AllOrderly-put :
      (k : ℕ) (before after : List (Device os)) (d e : Device os)
      → AllOrderly k (before ++ d ∷ after)
      → IsOrderly k e
      → AllOrderly k (before ++ e ∷ after)
  AllOrderly-put k [] after d e h o = (o, h.1)
  AllOrderly-put k (b ∷ before) after d e h o = (h.0, AllOrderly-put k before after d e h.1 o)

  total_alloc-put :
      (before after : List (Device os)) (d e : Device os)
      → total_alloc (before ++ d ∷ after) + e.alloc_mem
        ≡ total_alloc (before ++ e ∷ after) + d.alloc_mem
  total_alloc-put [] after d e = omega arith
  total_alloc-put (b ∷ before) after d e = omega (arith, total_alloc-put before after d e)

  IsShared-Step : (k q : ℕ) (s t : Processes os) → Step s t → IsShared k q s → IsShared k q t
  IsShared-Step k q s t (step before after d m e c) i =
      let orderly = subst (AllOrderly k) e i.orderly in
      let before_call =
        IsSteady-process k i.fb s.shm d (IsOrderly-at k before after d orderly) i.held i.free_word
          i.sized in
      let (unlocked, j) = Call-IsSteady (seen_by d s.shm) m c before_call in
      let rest = total_alloc-put before after d m.dev in
      let all = subst (λ ds. (i.fb.free_mem + total_alloc ds) % 2 ^ 64 ≡ q) e i.quota in
      record {
        orderly =
            AllOrderly-put k before after d m.dev orderly (IsOrderly-IsSteady k _ m (unlocked, j));
        fb = j.fb;
        held = j.held;
        free_word = j.free_word;
        sized = j.sized;
        quota = omega (arith, rest, all, j.quota);
      }

  -- However the calls of several processes follow each other, each served as in `IsServed` and not
  -- interrupted by another, every process stays in order, and what is free and what all of them have
  -- recorded come to the same.
  pub IsShared-Reach : (k q : ℕ) (s t : Processes os) → Reach s t → IsShared k q s → IsShared k q t
  IsShared-Reach k q s t here i = i
  IsShared-Reach k q s t (later {t = u} reach st) i =
      IsShared-Step k q u t st (IsShared-Reach k q s u reach i)

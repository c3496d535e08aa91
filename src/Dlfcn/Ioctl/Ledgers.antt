-- ===== src/Dlfcn/Ioctl/Ledgers.antt =====
-- The calls of `ioctl` in one process as steps of a ledger.
use nv_resource_controller.Prelude.{
  ℕ, ◌+◌, ◌-◌, ◌%◌, ◌^◌, ◌<◌, ◌≡◌, refl, sym, ap, subst, ◌∙◌, List, [], ◌∷◌, arith,
}
use nv_resource_controller.Prelude.Run.{Returns}
use nv_resource_controller.Platform.{Platform}
use nv_resource_controller.Hook.Types.{DeviceMem, FbInfo}
use nv_resource_controller.Hook.Memory.{Memory, holds}
use nv_resource_controller.Ioctl.Account.{IsSteady, sizes, heap_entries}
use nv_resource_controller.Ioctl.Ledger.{LedgerStep, Moves, allocations, ledger}
use nv_resource_controller.Dlfcn.Ioctl.Served.{Trusts-KeepsForm}
use nv_resource_controller.Dlfcn.Ioctl.Moves.{ioctl-Moves}
use nv_resource_controller.Dlfcn.Ioctl.Steady.{Call, call, History, here, next, History-IsSteady}

-- What the library promises: a quota, and the allocations that are charged to it.
pub record Ledger : Type 0 where
  pub quota : ℕ
  pub charges : List DeviceMem

abbrev pub total : List DeviceMem → ℕ
total [] = 0
total (e ∷ es) = e.size + total es

-- What is left of the quota, as a 64-bit word.
abbrev pub free_of : Ledger → ℕ
free_of l = (l.quota + 2 ^ 64 - total l.charges % 2 ^ 64) % 2 ^ 64

-- The memory of a process stands for a ledger: the mutex is free, the recorded allocations are its
-- charges, and the shared account says what is left of it.
pub record Represents {os : Platform} (k : ℕ) (l : Ledger) (m : Memory os) : Type 0 where
  pub steady : IsSteady k l.quota m
  pub charges : ledger m ≡ l.charges
  pub fb : FbInfo
  pub held : m.shm k ≡ holds fb
  pub free : fb.free_mem ≡ free_of l

pub total_lem : (xs : List (ℕ × DeviceMem)) → total (allocations xs) ≡ sizes xs
total_lem [] = refl
total_lem ((p, e) ∷ xs) = ap (λ n. e.size + n) (total_lem xs)

left_over :
    (free alloc total q : ℕ)
    → (free + alloc) % 2 ^ 64 ≡ q
    → alloc ≡ total % 2 ^ 64
    → free < 2 ^ 64
    → free ≡ (q + 2 ^ 64 - total % 2 ^ 64) % 2 ^ 64
left_over free alloc total q e h w = omega arith

module _ {os : Platform} {k : ℕ} where
  -- An account in order stands for its own allocations.
  pub Represents-ledger :
      (q : ℕ) (m : Memory os)
      → IsSteady k q m
      → Represents k (record { quota = q; charges = ledger m }) m
  Represents-ledger q m s =
      let i = s.1 in
      record {
        steady = s;
        charges = refl;
        fb = i.fb;
        held = i.held;
        free =
            left_over i.fb.free_mem m.dev.alloc_mem (sizes (heap_entries m)) q i.quota i.charged
              i.free_word
            ∙ ap (λ n. (q + 2 ^ 64 - n % 2 ^ 64) % 2 ^ 64) (sym (total_lem (heap_entries m)));
      }

  Call-step :
      (l : Ledger) (m m' : Memory os)
      → IsSteady k l.quota m
      → Call m m'
      → Represents k (record l { charges = ledger m' }) m'
        × LedgerStep (2 ^ 64) (ledger m) (ledger m')
  Call-step l m m' s (call sys driver p init fd cmd arg arg' ret v f w e) =
      let h = subst (Returns (λ _ t. Moves k l.quota (2 ^ 64) m t)) e (
        ioctl-Moves k l.quota (2 ^ 64) sys driver p v init fd cmd arg m (s, f, w)
          (Trusts-KeepsForm os s.1.fb driver v.keeps)) in
      (Represents-ledger l.quota m' h.0, h.1)

module _ {os : Platform} (k : ℕ) where
  -- A history of calls follows a ledger: after each call the memory stands for the ledger with the
  -- same quota and the allocations that are then recorded, and these are the ones from before the
  -- call, but for one that has been charged or one that has been given back.
  abbrev pub Follows : {m m' : Memory os} → Ledger → History m m' → Type 0
  Follows {m} l here = Represents k l m
  Follows l (next {t} {u} h c) =
      Follows l h
      × Represents k (record l { charges = ledger u }) u
      × LedgerStep (2 ^ 64) (ledger t) (ledger u)

  -- From memory that stands for a ledger, every history of calls, as in `Call`, follows it.
  pub History-Follows :
      (l : Ledger) (m m' : Memory os) → Represents k l m → (h : History m m') → Follows l h
  History-Follows l m m' r here = r
  History-Follows l m m' r (next {t} h c) =
      let s = Call-step l t m' (History-IsSteady m t r.steady h) c in
      (History-Follows l m t r h, s.0, s.1)

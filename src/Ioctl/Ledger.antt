-- ===== src/Ioctl/Ledger.antt =====
-- The allocations that a process has recorded, without their addresses: what the handlers of
-- src/ioctl_hook.c do to them.
use nv_resource_controller.Prelude.{
  ℕ, ◌≡◌, ◌≤◌, ap, true, Bool-cases, ==_iff, inl, inr, false, List, [], ◌∷◌, ◌++◌, map, arith, ◌==◌,
}
use nv_resource_controller.Platform.{Platform}
use nv_resource_controller.Platform.ListApi.{has, Distinct, remove}
use nv_resource_controller.Hook.Types.{DeviceMem}
use nv_resource_controller.Hook.Memory.{Memory}
use nv_resource_controller.Ioctl.Account.{Inv, IsSteady, heap_entries}
use nv_resource_controller.Ioctl.Free.Entries.{At, has-At}

-- One allocation of at most `b` bytes more, one less, or none.
pub data LedgerStep (b : ℕ) (xs ys : List DeviceMem) : Type 0 where
  same : ys ≡ xs → LedgerStep b xs ys
  charged : (e : DeviceMem) → e.size ≤ b → ys ≡ e ∷ xs → LedgerStep b xs ys
  released :
      (before after : List DeviceMem) (e : DeviceMem)
      → xs ≡ before ++ e ∷ after
      → ys ≡ before ++ after
      → LedgerStep b xs ys

pub LedgerStep-mono :
    {a b : ℕ} {xs ys : List DeviceMem} → a ≤ b → LedgerStep a xs ys → LedgerStep b xs ys
LedgerStep-mono h (same e) = same e
LedgerStep-mono h (charged e small eq) = charged e (omega arith) eq
LedgerStep-mono h (released before after e whole left) = released before after e whole left

abbrev pub allocations : List (ℕ × DeviceMem) → List DeviceMem
allocations xs = map (λ x. x.1) xs

-- A list with the entry at `p`, and the list without it.
pub record Split (p : ℕ) (e : DeviceMem) (xs : List (ℕ × DeviceMem)) : Type 0 where
  pub before : List DeviceMem
  pub after : List DeviceMem
  pub whole : allocations xs ≡ before ++ e ∷ after
  pub left : allocations (remove p xs) ≡ before ++ after

other :
    (p q : ℕ) (xs : List (ℕ × DeviceMem)) → has q xs ≡ false → has p xs ≡ true → (p == q) ≡ false
other p q xs h k = elim (Bool-cases (p == q)) [
  | inl e ↦ absurd (ground (arith, (==_iff p q).0 e, h, k))
  | inr e ↦ e
]

pub split :
    (p : ℕ) (e : DeviceMem) (xs : List (ℕ × DeviceMem)) → Distinct xs → At (p, e) xs → Split p e xs
split p e [] d a = absurd a
split p e ((q, x) ∷ xs) d (inl h) = record {
  before = [];
  after = allocations xs;
  whole = ap (λ y. y.1 ∷ allocations xs) h;
  left = ground (arith, ap (λ y. y.0) h);
}
split p e ((q, x) ∷ xs) d (inr a) =
    let r : Split p e xs = split p e xs d.1 a in
    record {
      before = x ∷ r.before;
      after = r.after;
      whole = ap (λ ys. x ∷ ys) r.whole;
      left = rw (other p q xs d.0 (has-At (p, e) xs a)) (ap (λ ys. x ∷ ys) r.left);
    }

module _ {os : Platform} where
  abbrev pub ledger : Memory os → List DeviceMem
  ledger m = allocations (heap_entries m)

  -- The account is in order, with at most one allocation more, of at most `b` bytes, or less than in
  -- `m`.
  abbrev pub Moves : ℕ → ℕ → ℕ → Memory os → Memory os → Type 0
  Moves k q b m m' = IsSteady k q m' × LedgerStep b (ledger m) (ledger m')

  -- The same, whoever has the mutex.
  abbrev pub Kept : ℕ → ℕ → ℕ → Memory os → Memory os → Type 0
  Kept k q b m m' = Inv k q m' × LedgerStep b (ledger m) (ledger m')

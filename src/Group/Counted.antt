-- ===== src/Group/Counted.antt =====
-- How many kernels a process launches: `rate_limit` of src/cuda_hook.c and `token_post` of
-- src/ioctl_hook.c, with the other processes of the group and the monitor.
use nv_resource_controller.Prelude.{
  ℕ, ◌+◌, ◌*◌, ◌≤◌, ◌≡◌, sym, subst, ◌∙◌, Bool, true, false, Option, some, List, [], ◌∷◌,
  if◌then◌else◌, arith, ◌==◌, Bool-cases, Option-cases, inl, inr,
}
use nv_resource_controller.Prelude.Int.{ℤ, is_nonzero}
use nv_resource_controller.Prelude.Run.{IfReturns}
use nv_resource_controller.Cuda.{HookState}
use nv_resource_controller.Cuda.Launch.{Wait, interrupted, failed, sem_wait, rate_limit}
use nv_resource_controller.Token.{TokenLocals, times}
use nv_resource_controller.Monitor.{Float}
use nv_resource_controller.Group.{
  Group, Step, set, tick, begin, finish, launch, other_begins, other_finishes, other_launches,
  Reach, here, later,
}
use nv_resource_controller.Group.Going.{HasBegun-begun, HasPosted-finished}

-- A kernel goes to the driver where `rate_limit` returns 0.
abbrev pub let_through : ℤ → ℕ
let_through ret = if is_nonzero ret then 0 else 1

-- Under the limit a launch that is let through takes a token.
rate_limit-takes :
    (waits : List Wait) (k : HookState)
    → k.core_limited ≡ true
    → IfReturns (λ ret k'. k'.tokens + let_through ret ≤ k.tokens) (rate_limit waits k)
unfolding rate_limit sem_wait
rate_limit-takes [] k on = elim (Bool-cases (k.tokens == 0)) [
  | inl e ↦ rw (on, e) tt
  | inr e ↦ elim (Option-cases k.launch_times) [
    | inl u ↦ rw (on, e, u) tt
    | inr (n, u) ↦ rw (on, e, u) (ground arith)
  ]
]
rate_limit-takes (interrupted ∷ waits) k on = rate_limit-takes waits k on
rate_limit-takes (failed ∷ waits) k on = elim (Option-cases k.launch_times) [
  | inl u ↦ rw (on, u) tt
  | inr (n, u) ↦ rw (on, u) (omega arith)
]

-- A value that has been read, or the one from before.
read_below :
    {P : ℕ} (b : Bool) (cycle : ℤ) (old : Option ℤ) (n : ℤ)
    → times cycle ≤ P
    → ((m : ℤ) → old ≡ some m → times m ≤ P)
    → (if b then some cycle else old) ≡ some n
    → times n ≤ P
read_below {P} true cycle old n h k e =
    let same : (cycle ≡ n) = cc in subst (λ m. times m ≤ P) same h
read_below false cycle old n h k e = k n e

-- What the token thread of the process has read is at most `P` tokens in a cycle.
abbrev pub ReadBelow : ℕ → TokenLocals → Type 0
ReadBelow P l = (n : ℤ) → l.add_per_cycle ≡ some n → times n ≤ P

module _ {f : Float} where
  -- The kernels that a step of the process launches, the rounds that it ends, and that its launches
  -- are under the limit.
  unfoldable pub launched : {g h : Group} → Step f g h → ℕ
  launched (launch waits k k' {ret} {s} e r e' only) = let_through ret
  launched (set limit e) = 0
  launched (tick util limit e) = 0
  launched (begin e) = 0
  launched (finish e) = 0
  launched (other_begins tokens l l' e) = 0
  launched (other_finishes tokens l l' e) = 0
  launched (other_launches n) = 0

  unfoldable pub ended : {g h : Group} → Step f g h → ℕ
  ended (finish e) = 1
  ended (launch waits k k' {ret} {s} e r e' only) = 0
  ended (set limit e) = 0
  ended (tick util limit e) = 0
  ended (begin e) = 0
  ended (other_begins tokens l l' e) = 0
  ended (other_finishes tokens l l' e) = 0
  ended (other_launches n) = 0

  unfoldable pub IsLimited : {g h : Group} → Step f g h → Type 0
  IsLimited (launch waits k k' {ret} {s} e r e' only) = k.core_limited ≡ true
  IsLimited (set limit e) = Unit {0}
  IsLimited (tick util limit e) = Unit {0}
  IsLimited (begin e) = Unit {0}
  IsLimited (finish e) = Unit {0}
  IsLimited (other_begins tokens l l' e) = Unit {0}
  IsLimited (other_finishes tokens l l' e) = Unit {0}
  IsLimited (other_launches n) = Unit {0}

  unfoldable pub all_launched : {g h : Group} → Reach f g h → ℕ
  all_launched here = 0
  all_launched (later reach step) = all_launched reach + launched step

  unfoldable pub all_ended : {g h : Group} → Reach f g h → ℕ
  all_ended here = 0
  all_ended (later reach step) = all_ended reach + ended step

  -- All launches are under the limit, and no tokens of a cycle in the attributes are ever more than
  -- `P`.
  unfoldable pub KeepsBelow : {g h : Group} → ℕ → Reach f g h → Type 0
  KeepsBelow {g} P here = times g.shared.attr.add_per_cycle ≤ P
  KeepsBelow {g} {h} P (later reach step) =
      KeepsBelow P reach × IsLimited step × (times h.shared.attr.add_per_cycle ≤ P)

  step-counted :
      (P : ℕ) (g h : Group) (step : Step f g h)
      → times g.shared.attr.add_per_cycle ≤ P
      → IsLimited step
      → ReadBelow P g.locals
      → ReadBelow P h.locals × (h.shared.tokens + launched step ≤ g.shared.tokens + P * ended step)
  unfolding launched ended IsLimited
  step-counted P g h (set limit e) pace on read = (read, omega arith)
  step-counted P g h (tick util limit e) pace on read = (read, omega arith)
  step-counted P g h (other_begins tokens l l' e) pace on read = (read, omega arith)
  step-counted P g h (other_finishes tokens l l' e) pace on read = (read, omega arith)
  step-counted P g h (other_launches n) pace on read = (read, omega arith)
  step-counted P g h (begin {l} {s} e) pace on read =
      let b = HasBegun-begun g.locals l g.shared s e in
      (
        λ n r. read_below g.shared.attr.changed _ _ n pace read (sym b.locals ∙ r),
        omega (arith, b.tokens),
      )
  step-counted P g h (finish {l} {s} e) pace on read =
      let p = HasPosted-finished g.locals l g.shared s e in
      (λ n r. read n (sym p.locals ∙ r), omega (arith, p.posted, read p.n p.read))
  step-counted P g h (launch waits k k' {ret} {s} e r e' only) pace on read =
      let taken =
        subst (IfReturns (λ ret' k''. k''.tokens + let_through ret' ≤ k.tokens)) r
          (rate_limit-takes waits k on) in
      (read, omega (arith, taken, e.tokens, e'.tokens))

  KeepsBelow-pace :
      (P : ℕ) (g h : Group) (reach : Reach f g h)
      → KeepsBelow P reach
      → times h.shared.attr.add_per_cycle ≤ P
  unfolding KeepsBelow
  KeepsBelow-pace P g h here b = b
  KeepsBelow-pace P g h (later reach step) b = b.2

  reach-counted :
      (P : ℕ) (g h : Group) (reach : Reach f g h)
      → KeepsBelow P reach
      → ReadBelow P g.locals
      → ReadBelow P h.locals
        × (h.shared.tokens + all_launched reach ≤ g.shared.tokens + P * all_ended reach)
  unfolding KeepsBelow all_launched all_ended
  reach-counted P g h here b read = (read, omega arith)
  reach-counted P g h (later {h = t} reach step) b read =
      let before = reach-counted P g t reach b.0 read in
      let now = step-counted P t h step (KeepsBelow-pace P g t reach b.0) b.1 before.0 in
      (now.0, grind (arith, before.1, now.1))

  -- However the rounds of a token thread, the launches of its process under the limit, the other
  -- processes of the group and the monitor follow each other, as long as neither the attributes nor
  -- what the thread has read say more than `P` tokens in a cycle: the kernels that the process has
  -- launched are no more than the tokens at the start and `P` for each round that its thread has
  -- ended, less the tokens that are left.
  pub all_launched-Reach :
      (P : ℕ) (g h : Group) (reach : Reach f g h)
      → KeepsBelow P reach
      → ReadBelow P g.locals
      → h.shared.tokens + all_launched reach ≤ g.shared.tokens + P * all_ended reach
  all_launched-Reach P g h reach b read = (reach-counted P g h reach b read).1

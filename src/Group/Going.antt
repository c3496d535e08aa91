-- ===== src/Group/Going.antt =====
-- The pace that a token thread reads is positive, and so is what it posts.
use nv_resource_controller.Prelude.{
  ◌+◌, ◌-◌, ◌%◌, ◌^◌, ◌≤◌, ◌≡◌, refl, sym, subst, ◌∙◌, Bool, true, false, Option, some, ltb, leb,
  ◌==◌, if◌then◌else◌, Bool-cases, Option-cases, inl, inr, arith,
}
use nv_resource_controller.Prelude.Int.{ℤ, pos_part}
use nv_resource_controller.Prelude.Run.{ok, IfReturns}
use nv_resource_controller.Hook.Types.{TokenAttr}
use nv_resource_controller.Token.{
  TokenState, TokenLocals, begin_round, end_round, times, sum_samples,
}
use nv_resource_controller.Token.Round.{sampled}
use nv_resource_controller.Monitor.{Float}
use nv_resource_controller.Group.{
  Group, Step, set, tick, begin, finish, launch, other_begins, other_finishes, other_launches,
  Reach, here, later,
}
use nv_resource_controller.Group.Paced.{
  IsPaced, IsKept, IsKept-IsPaced, IsPaced-IsKept, init_attr-Keeps, delta_change-Keeps,
}

-- A process of the group whose thread has read nothing or a positive pace.
pub record IsGoing (g : Group) : Type 0 where
  pub attr : IsPaced g.shared.attr
  pub locals : (n : ℤ) → g.locals.add_per_cycle ≡ some n → 1 ≤ pos_part n

-- The pace is what it was, and still counts as set up.
IsPaced-same :
    (a b : TokenAttr)
    → b.inited ≡ a.inited
    → b.add_per_cycle ≡ a.add_per_cycle
    → IsPaced a
    → IsPaced b
IsPaced-same a b i c p = record { inited = i ∙ p.inited; cycle = rw c p.cycle }

-- What the first half of a round leaves.
pub record HasBegun (l : TokenLocals) (s : TokenState) (l' : TokenLocals) (t : TokenState)
    : Type 0 where
  pub inited : t.attr.inited ≡ s.attr.inited
  pub cycle : t.attr.add_per_cycle ≡ s.attr.add_per_cycle
  pub ready : t.attr.ready ≡ s.attr.ready
  pub tokens : t.tokens ≡ s.tokens
  pub locals :
      l'.add_per_cycle ≡ (if s.attr.changed then some s.attr.add_per_cycle else l.add_per_cycle)

pub begin_round-HasBegun :
    (l : TokenLocals) (s : TokenState) → IfReturns (HasBegun l s) (begin_round l s)
unfolding begin_round
begin_round-HasBegun l s = elim (Bool-cases (l.loop == 2 ^ 31 - 1)) [
  | inl e ↦ rw e tt
  | inr e ↦ elim (Bool-cases s.attr.changed) [
    | inl e' ↦
        simp (e, e')
          (record {
            inited = refl;
            cycle = refl;
            ready = refl;
            tokens = refl;
            locals = simp e' refl;
          })
    | inr e' ↦
        simp (e, e')
          (record {
            inited = refl;
            cycle = refl;
            ready = refl;
            tokens = refl;
            locals = simp e' refl;
          })
  ]
]

-- What the second half of a round leaves: it has posted no more than the tokens of a cycle.
pub record HasPosted (l : TokenLocals) (s : TokenState) (l' : TokenLocals) (t : TokenState)
    : Type 0 where
  pub inited : t.attr.inited ≡ s.attr.inited
  pub cycle : t.attr.add_per_cycle ≡ s.attr.add_per_cycle
  pub ready : t.attr.ready ≡ s.attr.ready
  pub locals : l'.add_per_cycle ≡ l.add_per_cycle
  pub n : ℤ
  pub read : l.add_per_cycle ≡ some n
  pub posted : t.tokens ≤ s.tokens + times n

pub end_round-HasPosted :
    (l : TokenLocals) (s : TokenState) → IfReturns (HasPosted l s) (end_round l s)
unfolding end_round
end_round-HasPosted l s = elim (Option-cases l.add_per_cycle) [
  | inl e ↦ simp e tt
  | inr (n, e) ↦ elim (Bool-cases (leb (2 ^ 31) (sum_samples (sampled l s)).0)) [
    | inl big ↦ simp (e, big) tt
    | inr fits ↦ elim (Bool-cases (s.attr.launch_idx % 2 == 0)) [
      | inl even ↦
          simp (e, fits, even)
            (record {
              inited = refl;
              cycle = refl;
              ready = refl;
              locals = sym e;
              n = n;
              read = e;
              posted = ground arith;
            })
      | inr odd ↦ elim (Bool-cases (ltb s.attr.launch_idx (2 ^ 31))) [
        | inl low ↦
            simp (e, fits, odd, low)
              (record {
                inited = refl;
                cycle = refl;
                ready = refl;
                locals = sym e;
                n = n;
                read = e;
                posted = ground arith;
              })
        | inr high ↦ simp (e, fits, odd, high) tt
      ]
    ]
  ]
]

pub HasBegun-begun :
    (l l' : TokenLocals) (s t : TokenState) → begin_round l s ≡ ok l' t → HasBegun l s l' t
HasBegun-begun l l' s t e = subst (IfReturns (HasBegun l s)) e (begin_round-HasBegun l s)

-- A token thread's half of a round, seen from any process.
IsPaced-begun :
    (l l' : TokenLocals) (s t : TokenState)
    → begin_round l s ≡ ok l' t
    → IsPaced s.attr
    → IsPaced t.attr
IsPaced-begun l l' s t e p =
    let h = HasBegun-begun l l' s t e in IsPaced-same s.attr t.attr h.inited h.cycle p

pub HasPosted-finished :
    (l l' : TokenLocals) (s t : TokenState) → end_round l s ≡ ok l' t → HasPosted l s l' t
HasPosted-finished l l' s t e = subst (IfReturns (HasPosted l s)) e (end_round-HasPosted l s)

IsPaced-finished :
    (l l' : TokenLocals) (s t : TokenState)
    → end_round l s ≡ ok l' t
    → IsPaced s.attr
    → IsPaced t.attr
IsPaced-finished l l' s t e p =
    let h = HasPosted-finished l l' s t e in IsPaced-same s.attr t.attr h.inited h.cycle p

-- One of two values that are positive, where they are there.
chosen :
    (b : Bool) (cycle : ℤ) (old : Option ℤ) (n : ℤ)
    → 1 ≤ pos_part cycle
    → ((m : ℤ) → old ≡ some m → 1 ≤ pos_part m)
    → (if b then some cycle else old) ≡ some n
    → 1 ≤ pos_part n
chosen true cycle old n h k e = let same : (cycle ≡ n) = cc in subst (λ m. 1 ≤ pos_part m) same h
chosen false cycle old n h k e = k n e

-- What the thread has read after the first half of a round.
begun_locals :
    (g : Group) (l : TokenLocals) (s : TokenState)
    → begin_round g.locals g.shared ≡ ok l s
    → IsGoing g
    → (n : ℤ) → l.add_per_cycle ≡ some n
    → 1 ≤ pos_part n
begun_locals g l s e p n r =
    let h = HasBegun-begun g.locals l g.shared s e in
    chosen g.shared.attr.changed g.shared.attr.add_per_cycle g.locals.add_per_cycle n p.attr.cycle
      p.locals (sym h.locals ∙ r)

module _ (f : Float) where
  IsGoing-Step : (g h : Group) → Step f g h → IsGoing g → IsGoing h
  IsGoing-Step g h (set limit {b} e) p = record {
    attr = IsPaced-IsKept _ b (
        subst (IfReturns (λ _ t. IsKept _ t)) e
          (init_attr-Keeps _ f limit g.shared.attr (IsKept-IsPaced g.shared.attr p.attr)));
    locals = p.locals;
  }
  IsGoing-Step g h (tick util limit {b} e) p = record {
    attr = IsPaced-IsKept _ b (
        subst (IfReturns (λ _ t. IsKept _ t)) e
          (delta_change-Keeps _ f util limit g.shared.attr (IsKept-IsPaced g.shared.attr p.attr)));
    locals = p.locals;
  }
  IsGoing-Step g h (begin {l} {s} e) p = record {
    attr = IsPaced-begun g.locals l g.shared s e p.attr;
    locals = begun_locals g l s e p;
  }
  IsGoing-Step g h (finish {l} {s} e) p =
      let q = HasPosted-finished g.locals l g.shared s e in
      record {
        attr = IsPaced-finished g.locals l g.shared s e p.attr;
        locals = λ n r. p.locals n (sym q.locals ∙ r);
      }
  IsGoing-Step g h (launch waits k k' {ret} {s} e ret' e' only) p = record {
    attr = rw only (IsPaced-same g.shared.attr _ refl refl p.attr);
    locals = p.locals;
  }
  IsGoing-Step g h (other_begins tokens l l' {s} e) p = record {
    attr = IsPaced-begun l l' _ s e p.attr;
    locals = p.locals;
  }
  IsGoing-Step g h (other_finishes tokens l l' {s} e) p = record {
    attr = IsPaced-finished l l' _ s e p.attr;
    locals = p.locals;
  }
  IsGoing-Step g h (other_launches n) p = record {
    attr = IsPaced-same g.shared.attr _ refl refl p.attr;
    locals = p.locals;
  }

  -- Once the monitor has set the attributes up, with a pace of at least 1, no sequence of steps
  -- makes the pace less than 1, nor what the token thread has read of it.
  pub IsGoing-Reach : (g h : Group) → IsGoing g → Reach f g h → IsGoing h
  IsGoing-Reach g h p here = p
  IsGoing-Reach g h p (later {h = k} reach step) = IsGoing-Step k h step (IsGoing-Reach g k p reach)

-- ===== src/Group/Paced.antt =====
-- The monitor keeps the pace positive.
use nv_resource_controller.Prelude.{
  ℕ, ◌-◌, ◌%◌, ◌^◌, ◌≤◌, ◌≡◌, refl, true, Option, none, some, ltb, leb, ◌==◌, if◌then◌else◌, arith,
  Bool-cases, Option-cases, inl, inr,
}
use nv_resource_controller.Prelude.Int.{ℤ, pos, pos_part, ◌+ℤ◌, ◌-ℤ◌, ltb_ℤ, abs, in_int}
use nv_resource_controller.Prelude.Run.{Run, Cmd, IfReturns, IfReturns-and_then, pure, ◌>>=◌, ◌>>◌}
use nv_resource_controller.Hook.Types.{TokenAttr}
use nv_resource_controller.Monitor.{
  Float, sample_ticks, init_attr, delta_change, delta_step, change_limit, adjust, warm_up, averages,
  converted, int, same_limit, rescaled, set_changed, at_least_one, delta_of, signed, not_negative,
  overload, limited_cycle, next_mod_times,
}

-- Attributes that a monitor has set up, with at least one token in a cycle.
pub record IsPaced (a : TokenAttr) : Type 0 where
  pub inited : a.inited ≡ true
  pub cycle : 1 ≤ pos_part a.add_per_cycle

-- The same, with `r` posted on `ready`.
pub record IsKept (r : ℕ) (a : TokenAttr) : Type 0 where
  pub inited : a.inited ≡ true
  pub cycle : 1 ≤ pos_part a.add_per_cycle
  pub ready : a.ready ≡ r

pub IsKept-IsPaced : (a : TokenAttr) → IsPaced a → IsKept a.ready a
IsKept-IsPaced a p = record { inited = p.inited; cycle = p.cycle; ready = refl }

pub IsPaced-IsKept : (r : ℕ) (a : TokenAttr) → IsKept r a → IsPaced a
IsPaced-IsKept r a p = record { inited = p.inited; cycle = p.cycle }

at_least_one-positive : (n : ℤ) → 1 ≤ pos_part (at_least_one n)
at_least_one-positive n = ground arith

module _ (r : ℕ) where
  abbrev pub Keeps : {A : Type 0} → Run TokenAttr A → Type 0
  Keeps run = IfReturns (λ _ t. IsKept r t) run

  -- A conversion that is not defined does not return.
  Keeps-converted :
      (o : Option ℤ) (k : ℤ → Cmd TokenAttr (Unit {0})) (a : TokenAttr)
      → ((n : ℤ) → Keeps (k n a))
      → Keeps ((converted o >>= k) a)
  unfolding converted
  Keeps-converted none k a h = tt
  Keeps-converted (some n) k a h = h n

  Keeps-int :
      (n : ℤ) (k : ℤ → Cmd TokenAttr (Unit {0})) (a : TokenAttr)
      → Keeps (k n a)
      → Keeps ((int n >>= k) a)
  unfolding int
  Keeps-int n k a h = elim (Bool-cases (in_int n)) [ inl e ↦ rw e h | inr e ↦ rw e tt ]

  module _ (f : Float) where
    change_limit-Keeps :
        (limit : ℤ) (a : TokenAttr) → IsKept r a → Keeps ((change_limit f limit >> set_changed) a)
    unfolding change_limit set_changed
    change_limit-Keeps limit a p =
        elim (Option-cases
          (f.to_int (rescaled f (record a { core_limit = limit; mod_times = 0 }) limit))) [
            | inl e ↦ rw e tt
            | inr (n, e) ↦
                rw e
                  (record { inited = p.inited; cycle = at_least_one-positive n; ready = p.ready })
          ]

    pub init_attr-Keeps : (limit : ℤ) (a : TokenAttr) → IsKept r a → Keeps (init_attr f limit a)
    unfolding init_attr
    init_attr-Keeps limit a p = elim (Bool-cases (same_limit a.core_limit limit)) [
      | inl e ↦ rw (p.inited, e) (record { inited = refl; cycle = p.cycle; ready = p.ready })
      | inr e ↦
          rw (p.inited, e)
            (change_limit-Keeps limit (record a { inited = true })
              (record { inited = refl; cycle = p.cycle; ready = p.ready }))
    ]

    -- The end of an adjustment that comes to `n` tokens.
    adjusted :
        (n : ℤ) (a : TokenAttr)
        → IsKept r a
        → IsKept r
            (record a { add_per_cycle = if ltb_ℤ n (pos 1) then pos 1 else n; changed = true })
    adjusted n a p = record { inited = p.inited; cycle = ground arith; ready = p.ready }

    adjust-Keeps :
        (err util old : ℤ) (cur last : ℕ) (a : TokenAttr)
        → IsKept r a
        → Keeps (adjust f err util old cur last a)
    unfolding adjust
    adjust-Keeps err util old cur last a p = Keeps-int (pos (abs err)) _ a (
        Keeps-converted (f.to_int (delta_of f err util cur)) _ a λ delta.
          Keeps-int (old +ℤ signed err (not_negative delta)) _ a
            (elim (Bool-cases (overload f (old +ℤ signed err (not_negative delta)) old cur last)) [
              | inl e ↦ rw e (
                  Keeps-converted (f.to_int (limited_cycle f err old cur last)) _ a
                    λ n. adjusted n a p)
              | inr e ↦ rw e (adjusted (old +ℤ signed err (not_negative delta)) a p)
            ]))

    averages-Keeps : (a : TokenAttr) → IsKept r a → Keeps (averages a)
    unfolding averages
    averages-Keeps a p = elim (Bool-cases (ltb a.launch_idx (2 ^ 31 - 1))) [
      | inl e ↦ elim (Bool-cases (a.launch_idx % 2 == 0)) [
        | inl e' ↦ rw (e, e') p
        | inr e' ↦ rw (e, e') p
      ]
      | inr e ↦ rw e tt
    ]

    next_mod_times-Keeps : (a : TokenAttr) → IsKept r a → Keeps (next_mod_times a)
    unfolding next_mod_times
    next_mod_times-Keeps a p = elim (Bool-cases (a.mod_times == 2 ^ 31 - 1)) [
      | inl e ↦ rw e tt
      | inr e ↦ simp e (record { inited = p.inited; cycle = p.cycle; ready = p.ready })
    ]

    warm_up-Keeps :
        (old : ℤ) (a : TokenAttr) → 1 ≤ pos_part old → IsKept r a → Keeps (warm_up old a)
    unfolding warm_up
    warm_up-Keeps old a h p = elim (Bool-cases (ltb_ℤ (pos 3) old)) [
      | inl e ↦ rw e p
      | inr e ↦ rw e (record { inited = p.inited; cycle = ground arith; ready = p.ready })
    ]

    -- A tick, once it has been counted.
    counted-Keeps :
        (err util old : ℤ) (cur last n : ℕ) (a : TokenAttr)
        → 1 ≤ pos_part old
        → IsKept r a
        → Keeps (
            (if leb n sample_ticks
                then warm_up old
                else if n % sample_ticks == 0
                then adjust f err util old cur last
                else pure tt)
              a)
    counted-Keeps err util old cur last n a h p = elim (Bool-cases (leb n sample_ticks)) [
      | inl e ↦ rw e (warm_up-Keeps old a h p)
      | inr e ↦ elim (Bool-cases (n % sample_ticks == 0)) [
        | inl e' ↦ rw (e, e') (adjust-Keeps err util old cur last a p)
        | inr e' ↦ rw (e, e') p
      ]
    ]

    delta_step-Keeps :
        (util limit : ℤ) (a : TokenAttr) → IsKept r a → Keeps (delta_step f util limit a)
    unfolding delta_step
    delta_step-Keeps util limit a p =
        IfReturns-and_then (λ _ t. IsKept r t) (λ _ t. IsKept r t) (averages a) _
          (averages-Keeps a p)
          λ (cur, last) s q. Keeps-int (limit -ℤ util) _ s (
            IfReturns-and_then (λ _ t. IsKept r t) (λ _ t. IsKept r t) (next_mod_times s) _
              (next_mod_times-Keeps s q)
              λ n t r. counted-Keeps (limit -ℤ util) util s.add_per_cycle cur last n t q.cycle r)

    pub delta_change-Keeps :
        (util limit : ℤ) (a : TokenAttr) → IsKept r a → Keeps (delta_change f util limit a)
    unfolding delta_change
    delta_change-Keeps util limit a p = elim (Bool-cases a.changed) [
      | inl e ↦ simp e p
      | inr e ↦ simp e (delta_step-Keeps util limit a p)
    ]

-- ===== src/Monitor/Pace.antt =====
-- What `init_attr` and `delta_change` make of the attributes.
use nv_resource_controller.Prelude.{
  ℕ, ◌+◌, ◌-◌, ◌*◌, ◌%◌, ◌^◌, ◌≤◌, ◌<◌, ◌≡◌, ◌≢◌, refl, Bool, true, false, some, ltb, leb, ◌==◌,
  if◌then◌else◌, arith, Bool-cases, inl, inr,
}
use nv_resource_controller.Prelude.Int.{ℤ, pos, pos_part, ◌+ℤ◌, ◌-ℤ◌, ltb_ℤ, abs, in_int}
use nv_resource_controller.Prelude.Run.{Run, ok, Returns}
use nv_resource_controller.Hook.Types.{TokenAttr}
use nv_resource_controller.Monitor.{
  Float, sample_ticks, init_attr, delta_change, delta_of, limited_cycle, overload, signed,
  not_negative, adjust, warm_up, averages, delta_step,
}

-- Whole numbers whose product is below `2 ^ 24` are multiplied exactly, and the quotient by one of the
-- factors is the other.
abbrev pub IsExact : Float → Type 0
IsExact f =
    (n m : ℕ)
    → 0 < m
    → n * m < 2 ^ 24
    → f.to_int (f.div (f.mul (f.of_int (pos n)) (f.of_int (pos m))) (f.of_int (pos m)))
      ≡ some (pos n)

-- Another limit, greater than 0, for attributes that are in use with at least one token in a cycle, on
-- floating point that is exact where the two numbers have a product below `2 ^ 24`: the tokens of a
-- cycle stay as they are, only the limit, the count of ticks and the flag change.
pub init_attr_unscaled :
    (f : Float) (a : TokenAttr) (n l m : ℕ)
    → IsExact f
    → a.inited ≡ true
    → a.add_per_cycle ≡ pos n
    → a.core_limit ≡ pos m
    → m ≢ l
    → 1 ≤ n
    → 0 < l
    → n * l < 2 ^ 24
    → init_attr f (pos l) a ≡ ok tt (record a { core_limit = pos l; mod_times = 0; changed = true })
unfolding init_attr
init_attr_unscaled f a n l m exact e cycle old ne pn pl fits = ground (arith, exact n l pl fits)

-- The two averages in the order in which `delta_change` reads them.
abbrev pub cur_of : TokenAttr → ℕ
cur_of a = if a.launch_idx % 2 == 0 then a.avg_launchs_0 else a.avg_launchs_1

abbrev pub last_of : TokenAttr → ℕ
last_of a = if a.launch_idx % 2 == 0 then a.avg_launchs_1 else a.avg_launchs_0

-- The conversions of an adjustment are defined and its sums are `int`s.
pub record Converts (f : Float) (util limit : ℤ) (a : TokenAttr) : Type 0 where
  pub magnitude : in_int (pos (abs (limit -ℤ util))) ≡ true
  pub delta : ℤ
  pub delta_lem : f.to_int (delta_of f (limit -ℤ util) util (cur_of a)) ≡ some delta
  pub fits : in_int (a.add_per_cycle +ℤ signed (limit -ℤ util) (not_negative delta)) ≡ true
  pub capped : ℤ
  pub capped_lem :
      f.to_int (limited_cycle f (limit -ℤ util) a.add_per_cycle (cur_of a) (last_of a))
      ≡ some capped

-- Neither the tick count nor the index has come to the end of the `int`s.
pub record IsRunning (util limit : ℤ) (a : TokenAttr) : Type 0 where
  pub idx : a.launch_idx < 2 ^ 31 - 1
  pub ticks : a.mod_times < 2 ^ 31 - 1
  pub err : in_int (limit -ℤ util) ≡ true
  pub cycle : 1 ≤ pos_part a.add_per_cycle

averages_lem : (a : TokenAttr) → a.launch_idx < 2 ^ 31 - 1 → averages a ≡ ok (cur_of a, last_of a) a
unfolding averages
averages_lem a h = ground arith

-- The tokens of a cycle after a tick of the first phase.
abbrev pub warmed : ℤ → ℤ
warmed n = if leb (pos_part n) 3 then n +ℤ pos 1 else n

-- What one tick leaves: at least one token in a cycle, the tick counted, nothing else touched, and the
-- flag raised where the tokens have changed. In the first `sample_ticks` ticks the tokens of a cycle
-- grow by one up to 4.
pub record IsTicked (a t : TokenAttr) : Type 0 where
  pub positive : 1 ≤ pos_part t.add_per_cycle
  pub only : t ≡ record a {
    add_per_cycle = t.add_per_cycle;
    changed = t.changed;
    mod_times = a.mod_times + 1;
  }
  pub unchanged : t.changed ≡ false → t.add_per_cycle ≡ a.add_per_cycle
  pub warm : a.mod_times < sample_ticks → t.add_per_cycle ≡ warmed a.add_per_cycle

-- The attributes with `n` tokens in a cycle and the flag `b`, one tick later.
abbrev ticked : TokenAttr → ℤ → Bool → TokenAttr
ticked a n b = record a { add_per_cycle = n; changed = b; mod_times = a.mod_times + 1 }

IsTicked-ticked :
    (a : TokenAttr) (n : ℤ) (b : Bool)
    → 1 ≤ pos_part n
    → (b ≡ false → n ≡ a.add_per_cycle)
    → (a.mod_times < sample_ticks → n ≡ warmed a.add_per_cycle)
    → IsTicked a (ticked a n b)
IsTicked-ticked a n b p q w = record { positive = p; only = refl; unchanged = q; warm = w }

-- A step that is left out while `b` is set.
IsTicked-unless :
    (a : TokenAttr) (b : Bool) (step : Run TokenAttr (Unit {0}))
    → (b ≡ false → Returns (λ _ t. IsTicked a t) step)
    → Returns (λ _ t. if b then t ≡ a else IsTicked a t) (if b then ok tt a else step)
IsTicked-unless a true step h = refl
IsTicked-unless a false step h = h refl

module _ (f : Float) (util limit : ℤ) (a : TokenAttr) (r : IsRunning util limit a)
    (c : Converts f util limit a) where
  IsTicked-warm_up :
      a.changed ≡ false
      → a.mod_times < sample_ticks
      → Returns
          (λ _ t. IsTicked a t)
          (warm_up a.add_per_cycle (record a { mod_times = a.mod_times + 1 }))
  unfolding warm_up
  IsTicked-warm_up u h = elim (Bool-cases (ltb_ℤ (pos 3) a.add_per_cycle)) [
    | inl e ↦ rw e (
        IsTicked-ticked a a.add_per_cycle a.changed r.cycle (λ _. refl)
          (λ _. ground (arith, r.cycle)))
    | inr e ↦ rw e (
        IsTicked-ticked a (a.add_per_cycle +ℤ pos 1) true (ground (arith, r.cycle)) (λ q. cc)
          (λ _. ground (arith, r.cycle)))
  ]

  -- The tokens after an adjustment that comes to `n`.
  adjusted :
      (n : ℤ)
      → sample_ticks ≤ a.mod_times
      → IsTicked a (ticked a (if ltb_ℤ n (pos 1) then pos 1 else n) true)
  adjusted n h =
      IsTicked-ticked a (if ltb_ℤ n (pos 1) then pos 1 else n) true (ground arith) (λ q. cc)
        (λ w. absurd (omega arith))

  IsTicked-adjust :
      sample_ticks ≤ a.mod_times
      → Returns
          (λ _ t. IsTicked a t)
          (adjust f
            (limit -ℤ util)
            util
            a.add_per_cycle
            (cur_of a)
            (last_of a)
            (record a { mod_times = a.mod_times + 1 }))
  unfolding adjust
  IsTicked-adjust h =
      let n : ℤ = a.add_per_cycle +ℤ signed (limit -ℤ util) (not_negative c.delta) in
      elim (Bool-cases (overload f n a.add_per_cycle (cur_of a) (last_of a))) [
        | inl e ↦ rw (c.magnitude, c.delta_lem, c.fits, e, c.capped_lem) (adjusted c.capped h)
        | inr e ↦ rw (c.magnitude, c.delta_lem, c.fits, e) (adjusted n h)
      ]

  delta_step_lem :
      delta_step f util limit a
      ≡ (if leb (a.mod_times + 1) sample_ticks
            then warm_up a.add_per_cycle
            else if (a.mod_times + 1) % sample_ticks == 0
            then adjust f (limit -ℤ util) util a.add_per_cycle (cur_of a) (last_of a)
            else (λ s. ok tt s))
          (record a { mod_times = a.mod_times + 1 })
  unfolding delta_step
  delta_step_lem =
      let idx : (ltb a.launch_idx (2 ^ 31 - 1) ≡ true) = ground (arith, r.idx) in
      let ticks : ((a.mod_times == 2 ^ 31 - 1) ≡ false) = ground (arith, r.ticks) in
      elim (Bool-cases (a.launch_idx % 2 == 0)) [
        | inl e ↦ rw (idx, e, r.err, ticks) refl
        | inr e ↦ rw (idx, e, r.err, ticks) refl
      ]

  delta_step-IsTicked :
      a.changed ≡ false → Returns (λ _ t. IsTicked a t) (delta_step f util limit a)
  delta_step-IsTicked u =
      rw delta_step_lem (elim (Bool-cases (leb (a.mod_times + 1) sample_ticks)) [
        | inl e ↦ rw e (IsTicked-warm_up u (ground arith))
        | inr e ↦ elim (Bool-cases ((a.mod_times + 1) % sample_ticks == 0)) [
          | inl e' ↦ rw (e, e') (IsTicked-adjust (ground arith))
          | inr e' ↦
              rw (e, e')
                (IsTicked-ticked a a.add_per_cycle a.changed r.cycle (λ _. refl)
                  (λ w. absurd (ground arith)))
        ]
      ])

  -- With a pace of at least 1, and numbers that stay within an `int`: while the token thread has
  -- not read the last change, a tick does nothing, and otherwise it leaves what `IsTicked` says.
  pub delta_change-IsTicked :
      Returns (λ _ t. if a.changed then t ≡ a else IsTicked a t) (delta_change f util limit a)
  unfolding delta_change
  delta_change-IsTicked =
      IsTicked-unless a a.changed (delta_step f util limit a) delta_step-IsTicked

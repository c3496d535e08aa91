-- ===== src/Group/Ready.antt =====
-- What is posted on `ready`.
use nv_resource_controller.Prelude.{◌≡◌, refl, subst, ap, ◌∙◌}
use nv_resource_controller.Prelude.Run.{IfReturns}
use nv_resource_controller.Monitor.{Float}
use nv_resource_controller.Group.{
  Group, Step, set, tick, begin, finish, launch, other_begins, other_finishes, other_launches,
  Reach, here, later,
}
use nv_resource_controller.Group.Paced.{IsKept, IsKept-IsPaced, init_attr-Keeps, delta_change-Keeps}
use nv_resource_controller.Group.Going.{IsGoing, IsGoing-Reach, HasBegun-begun, HasPosted-finished}

module _ (f : Float) where
  ready-Step : (g h : Group) → Step f g h → IsGoing g → h.shared.attr.ready ≡ g.shared.attr.ready
  ready-Step g h (set limit {b} e) p =
      (subst (IfReturns (λ _ t. IsKept _ t)) e
        (init_attr-Keeps _ f limit g.shared.attr (IsKept-IsPaced g.shared.attr p.attr))).ready
  ready-Step g h (tick util limit {b} e) p =
      (subst (IfReturns (λ _ t. IsKept _ t)) e (
        delta_change-Keeps _ f util limit g.shared.attr
          (IsKept-IsPaced g.shared.attr p.attr))).ready
  ready-Step g h (begin {l} {s} e) p = (HasBegun-begun g.locals l g.shared s e).ready
  ready-Step g h (finish {l} {s} e) p = (HasPosted-finished g.locals l g.shared s e).ready
  ready-Step g h (launch waits k k' {ret} {s} e ret' e' only) p = ap (λ t. t.attr.ready) only
  ready-Step g h (other_begins tokens l l' {s} e) p = (HasBegun-begun l l' _ s e).ready
  ready-Step g h (other_finishes tokens l l' {s} e) p = (HasPosted-finished l l' _ s e).ready
  ready-Step g h (other_launches n) p = refl

  -- Once the attributes are set up, with a pace of at least 1, no steps of the group and its monitor
  -- post `ready`.
  pub ready-Reach :
      (g h : Group) → IsGoing g → Reach f g h → h.shared.attr.ready ≡ g.shared.attr.ready
  ready-Reach g h p here = refl
  ready-Reach g h p (later {h = k} reach step) =
      ready-Step k h step (IsGoing-Reach f g k p reach) ∙ ready-Reach g k p reach

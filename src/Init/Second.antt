-- ===== src/Init/Second.antt =====
-- Two processes of a group that wait for the same monitor.
use nv_resource_controller.Prelude.{◌≡◌, refl, sym, ap, ◌∙◌, false, arith}
use nv_resource_controller.Prelude.Int.{ℤ, pos_part}
use nv_resource_controller.Prelude.Run.{ok, blocked}
use nv_resource_controller.Prelude.Text.{Text}
use nv_resource_controller.Platform.{Platform}
use nv_resource_controller.Hook.Types.{TokenAttr}
use nv_resource_controller.Util.ShmAddr.Up.{AllSized}
use nv_resource_controller.Token.{initial_locals}
use nv_resource_controller.Monitor.{Float, init_attr}
use nv_resource_controller.Group.{Group, Reach}
use nv_resource_controller.Group.Going.{IsGoing}
use nv_resource_controller.Group.Ready.{ready-Reach}
use nv_resource_controller.Init.State.{InitCalls, InitState}
use nv_resource_controller.Init.Tokens.{init_tokens}
use nv_resource_controller.Init.Ready.{
  IsServed, waiting_attr, taken, first_attr, init_attr_first, ok-injective, init_tokens_blocked,
}

-- The first process once it has taken what was posted: its token thread starts.
abbrev pub first_started : ℤ → TokenAttr → Group
first_started limit b = record {
  shared = record { attr = taken b; tokens = pos_part limit };
  locals = initial_locals;
}

first_started-IsGoing :
    (limit : ℤ) (a : TokenAttr) → IsGoing (first_started limit (first_attr limit a))
first_started-IsGoing limit a = record {
  attr = record { inited = refl; cycle = omega arith };
  locals = λ n r. ground arith;
}

module _ {os : Platform} (sys : InitCalls) (id : Text) (f : Float) (limit : ℤ) where
  -- While a process waits, the monitor sets the attributes up, another process that waits as well
  -- takes what `init_attr` has posted, and then the group and the monitor go on in any way: the
  -- process waits for ever.
  pub init_tokens_second :
      (s : InitState os) (b : TokenAttr) (h : Group)
      → IsServed sys id
      → AllSized s.attrs
      → (waiting_attr sys id s).inited ≡ false
      → init_attr f limit (waiting_attr sys id s) ≡ ok tt b
      → Reach f (first_started limit b) h
      → sys.monitor (waiting_attr sys id s) ≡ h.shared.attr
      → init_tokens sys s ≡ blocked
  init_tokens_second s b h v sized off e reach met =
      let w : TokenAttr = waiting_attr sys id s in
      let set : (b ≡ first_attr limit w) = ok-injective (sym e ∙ init_attr_first f limit w off) in
      let going : IsGoing (first_started limit b) = rw set (first_started-IsGoing limit w) in
      let none_posted : ((first_started limit b).shared.attr.ready ≡ 0) = rw set refl in
      init_tokens_blocked sys id s v sized off
        (ap (λ a. a.ready) met ∙ ready-Reach f (first_started limit b) h going reach ∙ none_posted)

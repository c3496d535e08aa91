-- ===== src/Group.antt =====
-- The processes of one group under a limit on launches, and their monitor: `rate_limit` of
-- src/cuda_hook.c, `token_post` of src/ioctl_hook.c, `init_attr` and `delta_change` of
-- src/server_monitor.c, one after the other in any order. A process is seen from the inside, the
-- others through what they do to the attributes that all share.
pub mod Going
pub mod Paced
pub mod Progress
pub mod Counted
pub mod Ready
pub mod Undelayed
use nv_resource_controller.Prelude.{ℕ, Bool, true, some, List, ◌≡◌}
use nv_resource_controller.Prelude.Int.{ℤ}
use nv_resource_controller.Prelude.Run.{ok}
use nv_resource_controller.Hook.Types.{TokenAttr}
use nv_resource_controller.Cuda.{HookState}
use nv_resource_controller.Cuda.Launch.{Wait, rate_limit}
use nv_resource_controller.Token.{TokenState, TokenLocals, begin_round, end_round}
use nv_resource_controller.Monitor.{Float, init_attr, delta_change}

-- What the process shares with the others and its launches with its token thread, and the local
-- variables of that thread.
pub record Group : Type 0 where
  pub shared : TokenState
  pub locals : TokenLocals

-- The attributes after a step of someone else.
abbrev pub with_attr : Group → TokenAttr → Group
with_attr g b = record g { shared = record g.shared { attr = b } }

-- What the launches of the process see of it.
pub record Sees (h : HookState) (s : TokenState) : Type 0 where
  pub tokens : h.tokens ≡ s.tokens
  pub launch_times : h.launch_times ≡ some s.attr.launch_times

-- A call that returns. The monitor sets a limit, or looks at the load; the token thread of the
-- process does one half of a round; the process launches a kernel; the token thread of another
-- process does one half of a round, or that process launches a kernel.
pub data Step (f : Float) (g : Group) : Group → Type 0 where
  set :
      (limit : ℤ) {b : TokenAttr}
      → init_attr f limit g.shared.attr ≡ ok tt b
      → Step f g (with_attr g b)
  tick :
      (util limit : ℤ) {b : TokenAttr}
      → delta_change f util limit g.shared.attr ≡ ok tt b
      → Step f g (with_attr g b)
  begin :
      {l : TokenLocals} {s : TokenState}
      → begin_round g.locals g.shared ≡ ok l s
      → Step f g (record { shared = s; locals = l })
  finish :
      {l : TokenLocals} {s : TokenState}
      → end_round g.locals g.shared ≡ ok l s
      → Step f g (record { shared = s; locals = l })
  launch :
      (waits : List Wait) (h h' : HookState) {ret : ℤ} {s : TokenState}
      → Sees h g.shared
      → rate_limit waits h ≡ ok ret h'
      → Sees h' s
      → s ≡ record g.shared {
        tokens = s.tokens;
        attr = record g.shared.attr { launch_times = s.attr.launch_times };
      }
      → Step f g (record g { shared = s })
  other_begins :
      (tokens : ℕ) (l l' : TokenLocals) {s : TokenState}
      → begin_round l (record { attr = g.shared.attr; tokens = tokens }) ≡ ok l' s
      → Step f g (with_attr g s.attr)
  other_finishes :
      (tokens : ℕ) (l l' : TokenLocals) {s : TokenState}
      → end_round l (record { attr = g.shared.attr; tokens = tokens }) ≡ ok l' s
      → Step f g (with_attr g s.attr)
  other_launches : (n : ℕ) → Step f g (with_attr g (record g.shared.attr { launch_times = n }))

-- Any number of steps.
pub data Reach (f : Float) (g : Group) : Group → Type 0 where
  here : Reach f g g
  later : {h k : Group} → Reach f g h → Step f h k → Reach f g k

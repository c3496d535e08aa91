-- ===== src/Tests/Counted.antt =====
-- A process that is given four tokens and takes one of them, after a change of the limit.
use nv_resource_controller.Prelude.{◌+◌, ◌*◌, ◌≤◌, ◌≡◌, refl, true, some, [], arith}
use nv_resource_controller.Prelude.Int.{pos}
use nv_resource_controller.Prelude.Run.{ok}
use nv_resource_controller.Cuda.{HookState}
use nv_resource_controller.Cuda.Launch.{sem_wait, rate_limit}
use nv_resource_controller.Token.{TokenState, end_round, sum_samples, set_sample, average}
use nv_resource_controller.Group.{Group, finish, launch, Reach, later}
use nv_resource_controller.Group.Counted.{
  KeepsBelow, launched, ended, all_launched, all_ended, IsLimited, all_launched-Reach,
}
use nv_resource_controller.Tests.Pace.{float}
use nv_resource_controller.Tests.Group.{waiting, begun, steps}

abbrev filled : TokenState
filled = record {
  attr = record begun.shared.attr { avg_launchs_1 = 1; launch_idx = 4 };
  tokens = 4;
}

abbrev rested : Group
rested = record { shared = filled; locals = begun.locals }

round_ended : end_round begun.locals begun.shared ≡ ok begun.locals filled
unfolding end_round set_sample sum_samples average
round_ended = refl

abbrev used : TokenState
used = record { attr = record filled.attr { launch_times = 1 }; tokens = 3 }

abbrev ready_hooks : HookState
ready_hooks = record { table = []; core_limited = true; tokens = 4; launch_times = some 0 }

abbrev used_hooks : HookState
used_hooks = record ready_hooks { tokens = 3; launch_times = some 1 }

kernel_launched : rate_limit [] ready_hooks ≡ ok (pos 0) used_hooks
unfolding rate_limit sem_wait
kernel_launched = refl

abbrev one_used : Group
one_used = record { shared = used; locals = begun.locals }

abbrev launches : Reach float waiting one_used
launches =
    later {h = rested}
      (later {h = begun} steps (finish {l = begun.locals} {s = filled} round_ended))
      (launch [] ready_hooks used_hooks {ret = pos 0} {s = used}
        (record { tokens = refl; launch_times = refl }) kernel_launched
        (record { tokens = refl; launch_times = refl }) refl)

below : KeepsBelow 4 launches
unfolding KeepsBelow IsLimited
below = ((((omega arith, tt, omega arith), tt, omega arith), tt, omega arith), refl, omega arith)

counts : (all_launched launches ≡ 1) × (all_ended launches ≡ 1)
unfolding all_launched all_ended launched ended
counts = (refl, refl)

all_launched-Reach_example : 3 + all_launched launches ≤ 0 + 4 * all_ended launches
all_launched-Reach_example =
    all_launched-Reach 4 waiting one_used launches below λ n e. ground arith

-- ===== src/Token/Loop/Launches.antt =====
-- Launches that need not wait for a token.
use nv_resource_controller.Prelude.{
  ℕ, ◌+◌, ◌-◌, ◌^◌, ◌≤◌, ◌<◌, ◌≡◌, ◌∙◌, List, [], ◌∷◌, length, arith,
}
use nv_resource_controller.Prelude.Run.{ok}
use nv_resource_controller.Cuda.{HookState}
use nv_resource_controller.Cuda.Launch.{
  Wait, interrupted, failed, AllInterrupted, sem_wait, rate_limit,
}
use nv_resource_controller.Token.Loop.{Limited, launch, launch_each, rest}

-- Only signals interrupt the wait of each launch.
abbrev pub EachInterrupted : List (List Wait) → Type 0
EachInterrupted [] = Unit {0}
EachInterrupted (waits ∷ rest) = AllInterrupted waits × EachInterrupted rest

-- The state after `k` launches
abbrev pub launched_by : ℕ → Limited → Limited
launched_by k s = record {
  shared = record {
    attr = record s.shared.attr { launch_times = s.shared.attr.launch_times + k };
    tokens = s.shared.tokens - k;
  };
  launched = s.launched + k;
}

launch_lem :
    (hooks : HookState) (waits : List Wait) (s : Limited)
    → AllInterrupted waits
    → 1 ≤ s.shared.tokens
    → s.shared.attr.launch_times + 1 < 2 ^ 32
    → launch hooks waits s ≡ ok tt (launched_by 1 s)
unfolding launch rate_limit sem_wait
launch_lem hooks [] s h t w = ground arith
launch_lem hooks (interrupted ∷ waits) s h t w = launch_lem hooks waits s h t w
launch_lem hooks (failed ∷ waits) s h t w = absurd h

pub launch_each_lem :
    (hooks : HookState) (launches : List (List Wait)) (s : Limited)
    → EachInterrupted launches
    → length launches ≤ s.shared.tokens
    → s.shared.attr.launch_times + length launches < 2 ^ 32
    → launch_each hooks launches s ≡ ok tt (launched_by (length launches) s)
unfolding launch_each
launch_each_lem hooks [] s h t w = ground arith
launch_each_lem hooks (waits ∷ launches) s h t w =
    rw (launch_lem hooks waits s h.0 (omega (arith, t)) (omega (arith, w))) (
      launch_each_lem hooks launches (launched_by 1 s) h.1 (omega (arith, t)) (omega (arith, w))
      ∙ ground arith)

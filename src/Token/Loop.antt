-- ===== src/Token/Loop.antt =====
-- `token_post` of src/ioctl_hook.c from its start, with what the other threads of the process and the
-- other processes of the group do while it sleeps.
pub mod Launches
use nv_resource_controller.Prelude.{ℕ, ◌+◌, true, Option, none, some, List, [], ◌∷◌, if◌then◌else◌}
use nv_resource_controller.Prelude.Int.{ℤ, is_nonzero}
use nv_resource_controller.Prelude.Run.{Cmd, ok, pure, in_state, ◌>>=◌, ◌>>◌}
use nv_resource_controller.Hook.Types.{TokenAttr}
use nv_resource_controller.Util.Wait.{Nap, wait_duration}
use nv_resource_controller.Cuda.{HookState}
use nv_resource_controller.Cuda.Launch.{Wait, rate_limit}
use nv_resource_controller.Token.{TokenState, TokenLocals, initial_locals, begin_round, end_round}

-- One round: how the sleep is interrupted, what the other processes and the monitor have made of the
-- attributes by its end, and the launches of this process, each with what comes before its
-- `sem_wait`.
pub record Round : Type 0 where
  pub naps : List Nap
  pub others : TokenAttr → TokenAttr
  pub launches : List (List Wait)

-- What the thread and the launches share, and how many launches have gone to the driver.
pub record Limited : Type 0 where
  pub shared : TokenState
  pub launched : ℕ

-- What `rate_limit` sees of it, in a process with the limit, and what it leaves.
abbrev pub seen : HookState → Limited → HookState
seen hooks s = record hooks {
  core_limited = true;
  tokens = s.shared.tokens;
  launch_times = some s.shared.attr.launch_times;
}

abbrev times_left : ℕ → Option ℕ → ℕ
times_left n none = n
times_left n (some m) = m

abbrev pub left : Limited → HookState → Limited
left s hooks = record s {
  shared = record {
    attr = record s.shared.attr {
      launch_times = times_left s.shared.attr.launch_times hooks.launch_times;
    };
    tokens = hooks.tokens;
  };
}

-- The kernel is launched where `rate_limit` returns 0.
count : ℤ → Cmd Limited (Unit {0})
count ret s = ok tt (record s { launched = if is_nonzero ret then s.launched else s.launched + 1 })

unfoldable pub launch : HookState → List Wait → Cmd Limited (Unit {0})
unfolding count
launch hooks waits =
    (λ s. in_state (rate_limit waits (seen hooks s)) (λ hooks'. left s hooks')) >>= count

unfoldable pub launch_each : HookState → List (List Wait) → Cmd Limited (Unit {0})
launch_each hooks [] = pure tt
launch_each hooks (waits ∷ rest) = launch hooks waits >> launch_each hooks rest

unfoldable pub others_act : (TokenAttr → TokenAttr) → Cmd Limited (Unit {0})
others_act act s = ok tt (record s { shared = record s.shared { attr = act s.shared.attr } })

-- `wait_duration(&interval)`
unfoldable pub rest : TokenLocals → List Nap → Cmd Limited ℤ
rest l naps s =
    in_state (wait_duration (record { tv_sec = 0; tv_nsec = l.interval }) naps []) (λ _. s)

unfoldable pub on_shared : {A : Type 0} → Cmd TokenState A → Cmd Limited A
on_shared act s = in_state (act s.shared) (λ shared. record s { shared = shared })

unfoldable pub run_round : HookState → Round → TokenLocals → Cmd Limited TokenLocals
unfolding on_shared rest others_act launch_each
run_round hooks round l = do
  l' ← on_shared (begin_round l)
  rest l' round.naps
  others_act round.others
  launch_each hooks round.launches
  on_shared (end_round l')

-- The first rounds of the loop, which has no end.
unfoldable pub run_rounds : HookState → List Round → TokenLocals → Cmd Limited TokenLocals
unfolding run_round
run_rounds hooks [] l = pure l
run_rounds hooks (round ∷ rounds) l = run_round hooks round l >>= run_rounds hooks rounds

unfoldable pub token_post : HookState → List Round → Cmd Limited TokenLocals
unfolding run_rounds
token_post hooks rounds = run_rounds hooks rounds initial_locals

-- ===== src/Tests/Loop.antt =====
-- Two rounds of a token thread whose process keeps to the pace.
use nv_resource_controller.Prelude.{refl, true, none, [], ◌∷◌, arith}
use nv_resource_controller.Prelude.Int.{pos}
use nv_resource_controller.Prelude.Run.{Returns}
use nv_resource_controller.Util.Wait.{interrupted}
use nv_resource_controller.Cuda.{HookState}
use nv_resource_controller.Cuda.Launch.{Wait}
use nv_resource_controller.Token.Loop.{Round, Limited, token_post}
use nv_resource_controller.Group.Undelayed.{IsWithin, Keeps, token_post_undelayed}
use nv_resource_controller.Tests.Tokens.{attr}

abbrev hooks : HookState
hooks = record { table = []; core_limited = true; tokens = 0; launch_times = none }

-- A pace of 4, with 10 tokens
abbrev start : Limited
start = record {
  shared = record {
    attr = record attr { changed = true; add_per_cycle = pos 4; launch_idx = 0 };
    tokens = 10;
  };
  launched = 0;
}

-- Three launches, one of which is interrupted
abbrev three : Round
three = record {
  naps = interrupted (record { tv_sec = 0; tv_nsec = 5 }) ∷ [];
  others = λ a. a;
  launches = [] ∷ (Wait.interrupted ∷ []) ∷ [] ∷ [];
}

abbrev none_at_all : Round
none_at_all = record { naps = []; others = λ a. a; launches = [] }

within : IsWithin 4 three
within = record { alone = λ a. refl; interrupted = (tt, (tt, (tt, tt))); few = omega arith }

within' : IsWithin 4 none_at_all
within' = record { alone = λ a. refl; interrupted = tt; few = omega arith }

token_post_undelayed_example :
    Returns
      (λ _ t. Keeps hooks 4 (omega arith) (three ∷ none_at_all ∷ []) start t)
      (token_post hooks (three ∷ none_at_all ∷ []) start)
token_post_undelayed_example =
    token_post_undelayed hooks 4 (omega arith) (three ∷ none_at_all ∷ []) start
      (within, (within', tt)) refl refl (omega arith) (omega arith) (omega arith) (omega arith)

-- ===== src/Tests/Group.antt =====
-- A process that waits for tokens, and a limit that changes between two rounds.
use nv_resource_controller.Prelude.{◌≡◌, refl, true, false, some, [], arith}
use nv_resource_controller.Prelude.Int.{pos}
use nv_resource_controller.Prelude.Run.{ok, Returns}
use nv_resource_controller.Hook.Types.{TokenAttr}
use nv_resource_controller.Cuda.{HookState}
use nv_resource_controller.Cuda.Launch.{rate_limit}
use nv_resource_controller.Token.{initial_locals, begin_round, end_round, sum_samples, set_sample}
use nv_resource_controller.Token.Round.{sampled}
use nv_resource_controller.Monitor.{init_attr}
use nv_resource_controller.Group.{Group, Sees, set, begin, Reach, here, later}
use nv_resource_controller.Group.Going.{IsGoing}
use nv_resource_controller.Group.Progress.{end_round-rate_limit}
use nv_resource_controller.Tests.Tokens.{attr}
use nv_resource_controller.Tests.Pace.{float}

abbrev pub waiting : Group
waiting = record { shared = record { attr = attr; tokens = 0 }; locals = initial_locals }

-- With a limit of 100 in place of 50
abbrev raised : TokenAttr
raised = record attr { core_limit = pos 100; mod_times = 0; changed = true }

abbrev pub begun : Group
begun = record {
  shared = record { attr = record raised { changed = false; launch_times = 0 }; tokens = 0 };
  locals = record initial_locals { loop = 1; interval = 100_000_000; add_per_cycle = some (pos 4) };
}

pub limit_set : init_attr float (pos 100) attr ≡ ok tt raised
unfolding init_attr
limit_set = refl

pub round_begun :
    begin_round initial_locals (record { attr = raised; tokens = 0 }) ≡ ok begun.locals begun.shared
unfolding begin_round
round_begun = refl

abbrev pub steps : Reach float waiting begun
steps = later (later here (set (pos 100) limit_set)) (begin round_begun)

going : IsGoing waiting
going = record {
  attr = record { inited = refl; cycle = omega arith };
  locals = λ n e. ground arith;
}

idle : (sum_samples (sampled begun.locals begun.shared)).0 ≡ 0
unfolding set_sample sum_samples
idle = refl

end_round-rate_limit_example :
    Returns
      (λ _ s. (k : HookState) → Sees k s → Returns (λ ret _. ret ≡ pos 0) (rate_limit [] k))
      (end_round begun.locals begun.shared)
end_round-rate_limit_example =
    end_round-rate_limit float waiting begun (pos 4) going steps refl (omega (arith, idle))
      (omega arith)

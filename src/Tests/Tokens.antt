-- ===== src/Tests/Tokens.antt =====
-- Rounds of `token_post` with ten samples.
use nv_resource_controller.Prelude.{◌≡◌, refl, true, some, arith}
use nv_resource_controller.Prelude.Int.{pos}
use nv_resource_controller.Prelude.Run.{and_then, fault}
use nv_resource_controller.Hook.Types.{TokenAttr}
use nv_resource_controller.Token.{
  TokenState, TokenLocals, initial_locals, begin_round, end_round, average, set_sample, sum_samples,
}
use nv_resource_controller.Token.Round.{sampled, end_round-begin_round_unset}

abbrev pub attr : TokenAttr
attr = record {
  changed = true;
  tv_nsec = 100_000_000;
  add_per_cycle = pos 4;
  avg_launchs_0 = 0;
  avg_launchs_1 = 0;
  launch_idx = 3;
  launch_times = 7;
  inited = true;
  core_limit = pos 50;
  mod_times = 0;
  ready = 0;
}

abbrev pub state : TokenState
state = record { attr = attr; tokens = 2 }

abbrev pub locals : TokenLocals
locals = record initial_locals { loop = 1; add_per_cycle = some (pos 4) }

pub small : (sum_samples (sampled locals state)).0 ≡ 7
unfolding set_sample sum_samples
small = refl

three : average (sampled locals state) ≡ 3
unfolding set_sample average sum_samples
three = refl

end_round-begin_round_unset_example :
    and_then
      (begin_round initial_locals state)
      (λ _ t. and_then (begin_round initial_locals t) end_round)
    ≡ fault
end_round-begin_round_unset_example = end_round-begin_round_unset initial_locals state (omega arith)

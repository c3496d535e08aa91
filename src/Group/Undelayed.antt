-- ===== src/Group/Undelayed.antt =====
-- A process that keeps to the pace is not delayed.
use nv_resource_controller.Prelude.{
  ℕ, ◌+◌, ◌*◌, ◌%◌, ◌^◌, ◌≤◌, ◌<◌, ◌≡◌, refl, true, some, List, [], ◌∷◌, length, if◌then◌else◌,
  arith,
}
use nv_resource_controller.Prelude.Int.{pos}
use nv_resource_controller.Prelude.Run.{Returns, Returns-and_then, Returns-mono, Returns-in_state}
use nv_resource_controller.Hook.Types.{TokenAttr}
use nv_resource_controller.Util.Wait.{wait_duration}
use nv_resource_controller.Util.Wait.Requests.{wait_duration-Returns}
use nv_resource_controller.Cuda.{HookState}
use nv_resource_controller.Token.{
  TokenLocals, times, initial_locals, as_int32, sem_value_max, posted,
}
use nv_resource_controller.Token.Round.{
  AllAtMost, sampled, end_round_lem, begun, cleared, begin_round_lem,
}
use nv_resource_controller.Token.Samples.{sum_fits, set_sample-AllAtMost, length-set_sample}
use nv_resource_controller.Token.Loop.Launches.{EachInterrupted, launched_by, launch_each_lem}
use nv_resource_controller.Token.Loop.{
  Round, Limited, others_act, rest, on_shared, run_round, run_rounds, token_post,
}

-- A round in which nobody else touches the attributes and the process launches no more than `n`.
pub record IsWithin (n : ℕ) (round : Round) : Type 0 where
  pub alone : (a : TokenAttr) → round.others a ≡ a
  pub interrupted : EachInterrupted round.launches
  pub few : length round.launches ≤ n

abbrev pub AllWithin : ℕ → List Round → Type 0
AllWithin n [] = Unit {0}
AllWithin n (round ∷ rounds) = IsWithin n round × AllWithin n rounds

-- How many kernels the rounds launch.
abbrev pub launches_of : List Round → ℕ
launches_of [] = 0
launches_of (round ∷ rounds) = length round.launches + launches_of rounds

-- Before a round: `m` rounds are to come, none of which overflows a counter; the pace is `n`, and
-- there are tokens for a round.
pub record IsCalm (n m : ℕ) (l : TokenLocals) (s : Limited) : Type 0 where
  pub loop : l.loop + m < 2 ^ 31
  pub idx : s.shared.attr.launch_idx + m < 2 ^ 31
  pub pace :
      (if s.shared.attr.changed then some s.shared.attr.add_per_cycle else l.add_per_cycle)
      ≡ some (pos n)
  pub enough : n ≤ s.shared.tokens
  pub room : s.shared.tokens + n * m ≤ sem_value_max
  pub samples : AllAtMost n l.launch_times
  pub ten : length l.launch_times ≤ 10

module _ (hooks : HookState) (n : ℕ) (small : n * 10 < 2 ^ 31) where
  run_round_lem :
      (round : Round) (m : ℕ) (l : TokenLocals) (s : Limited)
      → IsWithin n round
      → IsCalm n (m + 1) l s
      → Returns
          (λ l' t.
            IsCalm n m l' t
            × (t.launched ≡ s.launched + length round.launches)
            × (t.shared.tokens + length round.launches ≡ s.shared.tokens + n))
          (run_round hooks round l s)
  unfolding run_round on_shared rest others_act
  run_round_lem round m l s w c =
      let k : ℕ = length round.launches in
      let b : Limited = record s { shared = cleared s.shared } in
      let t : Limited = launched_by k b in
      let l' : TokenLocals = begun l s.shared in
      let few = w.few in
      let room : (s.shared.tokens + n ≤ sem_value_max) = grind (arith, c.room) in
      let sample : (times (as_int32 (0 + k)) ≤ n) = ground (arith, small) in
      let fits =
        sum_fits n (sampled l' t.shared) small
          (omega (arith, c.ten, length-set_sample (l'.loop % 10) (as_int32 (0 + k)) l.launch_times))
          (set_sample-AllAtMost n (l'.loop % 10) (as_int32 (0 + k)) l.launch_times sample
            c.samples) in
      let went =
        launch_each_lem hooks round.launches b w.interrupted (omega (arith, few, c.enough))
          (omega (arith, few, small)) in
      let exact : (posted t.shared.tokens (times (pos n)) ≡ t.shared.tokens + n) =
        ground (arith, few, c.enough, room) in
      let ended = end_round_lem l' t.shared (pos n) c.pace fits (omega (arith, c.idx)) in
      rw (begin_round_lem l s.shared (omega (arith, c.loop))) (
        Returns-in_state (λ _ _. Unit {0}) _
          (wait_duration (record { tv_sec = 0; tv_nsec = l'.interval }) round.naps []) (λ _. b) _
          (wait_duration-Returns _ round.naps [])
          λ _ _ _.
            rw (w.alone (cleared s.shared).attr, went, ended, exact)
              (
                record {
                  loop = omega (arith, c.loop);
                  idx = omega (arith, c.idx);
                  pace = c.pace;
                  enough = omega (arith, few, c.enough, room);
                  room = grind (arith, few, c.enough, room, c.room);
                  samples =
                      set_sample-AllAtMost n (l'.loop % 10) (as_int32 (0 + k)) l.launch_times sample
                        c.samples;
                  ten = omega (
                    arith,
                    c.ten,
                    length-set_sample (l'.loop % 10) (as_int32 (0 + k)) l.launch_times,
                  );
                },
                refl,
                omega (arith, few, c.enough, room),
              ))

  -- All rounds come back, with so many kernels launched, and so many tokens left.
  abbrev pub Keeps : List Round → Limited → Limited → Type 0
  Keeps rounds s t =
      (t.launched ≡ s.launched + launches_of rounds)
      × (t.shared.tokens + launches_of rounds ≡ s.shared.tokens + n * length rounds)

  run_rounds_lem :
      (rounds : List Round) (l : TokenLocals) (s : Limited)
      → AllWithin n rounds
      → IsCalm n (length rounds) l s
      → Returns (λ _ t. Keeps rounds s t) (run_rounds hooks rounds l s)
  unfolding run_rounds
  run_rounds_lem [] l s w c = (omega arith, omega arith)
  run_rounds_lem (round ∷ rounds) l s w c =
      let c' : IsCalm n (length rounds + 1) l s = record {
        loop = omega (arith, c.loop);
        idx = omega (arith, c.idx);
        pace = c.pace;
        enough = c.enough;
        room = grind (arith, c.room);
        samples = c.samples;
        ten = c.ten;
      } in
      Returns-and_then _ (λ _ t. Keeps (round ∷ rounds) s t) (run_round hooks round l s) _
        (run_round_lem round (length rounds) l s w.0 c')
        λ l' t h.
          Returns-mono (λ _ u. Keeps rounds t u) (λ _ u. Keeps (round ∷ rounds) s u)
            (run_rounds hooks rounds l' t) (run_rounds_lem rounds l' t w.1 h.0)
            λ _ u k. (omega (arith, h.1, k.0), grind (arith, h.2, k.1))

  -- The token thread starts on attributes that have a new pace of `n`, with tokens for a round, and
  -- counters and a semaphore that the rounds do not overflow. If nobody else touches the attributes, and the process
  -- launches no more than `n` kernels in each round, none of them waits for the token thread: all
  -- rounds come back, with every kernel launched, and each round has left `n` tokens more, less the
  -- launches.
  pub token_post_undelayed :
      (rounds : List Round) (s : Limited)
      → AllWithin n rounds
      → s.shared.attr.changed ≡ true
      → s.shared.attr.add_per_cycle ≡ pos n
      → n ≤ s.shared.tokens
      → s.shared.tokens + n * length rounds ≤ sem_value_max
      → length rounds < 2 ^ 31
      → s.shared.attr.launch_idx + length rounds < 2 ^ 31
      → Returns (λ _ t. Keeps rounds s t) (token_post hooks rounds s)
  unfolding token_post
  token_post_undelayed rounds s w changed pace enough room few idx =
      run_rounds_lem rounds initial_locals s w (record {
        loop = omega (arith, few);
        idx = idx;
        pace = rw (changed, pace) refl;
        enough = enough;
        room = room;
        samples = ground arith;
        ten = omega arith;
      })

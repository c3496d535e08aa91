-- ===== src/Group/Progress.antt =====
-- A round of a token thread lets a launch go on.
use nv_resource_controller.Prelude.{
  ℕ, ◌^◌, ◌≤◌, ◌<◌, ◌≡◌, refl, false, some, [], ◌==◌, arith, Bool-cases, inl, inr,
}
use nv_resource_controller.Prelude.Int.{ℤ, pos, negsuc, pos_part}
use nv_resource_controller.Prelude.Run.{Returns}
use nv_resource_controller.Token.{end_round, times, posted, sum_samples}
use nv_resource_controller.Token.Round.{sampled, end_round_lem}
use nv_resource_controller.Cuda.{HookState}
use nv_resource_controller.Cuda.Launch.{rate_limit}
use nv_resource_controller.Monitor.{Float}
use nv_resource_controller.Group.{Group, Sees, Reach}
use nv_resource_controller.Group.Going.{IsGoing, IsGoing-Reach}

-- A launch takes a token that is there.
launch_goes :
    (k : HookState) (n : ℕ)
    → 1 ≤ k.tokens
    → k.launch_times ≡ some n
    → Returns (λ ret _. ret ≡ pos 0) (rate_limit [] k)
unfolding rate_limit
launch_goes k n h e = elim (Bool-cases k.core_limited) [
  | inl on ↦
      let some_left : ((k.tokens == 0) ≡ false) = ground arith in simp (on, some_left, e) refl
  | inr off ↦ rw off refl
]

positive : (n : ℤ) (tokens : ℕ) → 1 ≤ pos_part n → 1 ≤ posted tokens (times n)
positive (pos n) tokens h = ground arith
positive (negsuc n) tokens h = absurd (omega arith)

module _ (f : Float) where
  -- From attributes that are set up with a pace of at least 1, after any steps of the group, where the
  -- token thread has read a pace and neither its sum nor
  -- `launch_idx` overflows, the second half of its round returns, and then a launch does not wait.
  pub end_round-rate_limit :
      (g h : Group) (n : ℤ)
      → IsGoing g
      → Reach f g h
      → h.locals.add_per_cycle ≡ some n
      → (sum_samples (sampled h.locals h.shared)).0 < 2 ^ 31
      → h.shared.attr.launch_idx < 2 ^ 31
      → Returns
          (λ _ s. (k : HookState) → Sees k s → Returns (λ ret _. ret ≡ pos 0) (rate_limit [] k))
          (end_round h.locals h.shared)
  end_round-rate_limit g h n p reach read fits idx =
      let q = IsGoing-Reach f g h p reach in
      rw (end_round_lem h.locals h.shared n read fits idx) λ k sees.
        launch_goes k h.shared.attr.launch_times
          (rw sees.tokens (positive n (h.shared.tokens) (q.locals n read))) sees.launch_times

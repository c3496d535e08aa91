-- ===== src/Ioctl/Free/Steady.antt =====
-- `post_rm_free` on every branch.
use nv_resource_controller.Prelude.{ℕ, refl, inl, inr, true, false, arith, Bool-cases, ◌==◌}
use nv_resource_controller.Prelude.Int.{pos}
use nv_resource_controller.Prelude.Run.{Cmd, Returns, Returns-mono, Returns-and_then, pure, ◌>>◌}
use nv_resource_controller.Platform.{Platform}
use nv_resource_controller.Hook.Memory.{Memory, lock, unlock}
use nv_resource_controller.Ioctl.Params.{FreeParams}
use nv_resource_controller.Ioctl.Account.{Inv, IsSteady, Inv-set_mu, set_mu}
use nv_resource_controller.Ioctl.Ledger.{Moves, Kept, same}
use nv_resource_controller.Ioctl.Free.{
  free_heap_page, free_device_page, free_page, locked_free, post_rm_free,
}
use nv_resource_controller.Ioctl.Free.Release.{free_heap_page-Inv, free_device_page-Inv}

module _ {os : Platform} {k q : ℕ} where
  -- A body that keeps the account, between `lock` and `unlock`.
  pub locked-Moves :
      (m : Memory os) (body : Cmd (Memory os) (Unit {0}))
      → ((m' : Memory os) → Inv k q m' → Returns (λ _ m''. Kept k q 0 m' m'') (body m'))
      → IsSteady k q m
      → Returns (λ _ m'. Moves k q 0 m m') ((do lock; body; unlock; pure (pos 0)) m)
  unfolding lock unlock
  locked-Moves m body keeps s = rw (s.0) (
      Returns-and_then (λ _ m'. Kept k q 0 m m') (λ _ m'. Moves k q 0 m m') (body (set_mu true m)) _
        (keeps _ (Inv-set_mu true s.1)) λ _ m' i. ((refl, Inv-set_mu false i.0), i.1))

  free_page-Kept :
      (api : FreeParams) (m : Memory os)
      → Inv k q m
      → Returns (λ _ m'. Kept k q 0 m m') (free_page api m)
  unfolding free_page
  free_page-Kept api m i = elim (Bool-cases (api.h_root == api.h_object_parent)) [
    | inl e ↦ rw e (
        Returns-mono _ _ (free_device_page api.h_object_old m)
          (free_device_page-Inv api.h_object_old i) λ _ _ p. (p.0, p.2))
    | inr e ↦ rw e (
        Returns-mono _ _ (free_heap_page api.h_object_old m) (free_heap_page-Inv api.h_object_old i)
          λ _ _ p. (p.0, p.2))
  ]

  locked_free-Moves :
      (m : Memory os) (api : FreeParams)
      → IsSteady k q m
      → Returns (λ _ m'. Moves k q 0 m m') (locked_free api m)
  unfolding locked_free
  locked_free-Moves m api s = locked-Moves m (free_page api) (free_page-Kept api) s

  -- Every call of `post_rm_free` returns with the mutex free and the account in order.
  pub post_rm_free-Moves :
      (m : Memory os) (minor : ℕ) (api : FreeParams)
      → IsSteady k q m
      → Returns (λ _ m'. Moves k q 0 m m') (post_rm_free minor api m)
  unfolding post_rm_free
  post_rm_free-Moves m minor api s =
      let stay : Moves k q 0 m m = (s, same refl) in ground (arith, locked_free-Moves m api s, stay)

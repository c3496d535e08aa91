-- ===== src/Dlfcn/Ioctl/Moves.antt =====
-- What a call of the exported `ioctl` does to the allocations that are recorded.
use nv_resource_controller.Prelude.{
  ℕ, ◌%◌, ◌^◌, ◌≡◌, ◌≢◌, refl, true, false, not, ◌||◌, ◌==◌, Option, some, arith, subst, Bool-cases,
  inl, inr,
}
use nv_resource_controller.Prelude.Int.{is_nonzero}
use nv_resource_controller.Prelude.Run.{Cmd, Returns, Returns-and_then, Returns-mono}
use nv_resource_controller.Platform.{Platform}
use nv_resource_controller.Hook.Types.{nvidia_device_major}
use nv_resource_controller.Hook.Memory.{Memory}
use nv_resource_controller.Util.DeviceNumber.{StatCalls, get_device_number}
use nv_resource_controller.Ioctl.Params.{Arg}
use nv_resource_controller.Ioctl.Account.{IsSteady}
use nv_resource_controller.Ioctl.Ledger.{Moves, LedgerStep, same, ledger}
use nv_resource_controller.Ioctl.Pre.{pre_ioctl}
use nv_resource_controller.Ioctl.Post.Steady.{IsGranted, post_ioctl-Moves}
use nv_resource_controller.Dlfcn.Ioctl.{
  Calls, Driver, redirect, guarded, limited, with_driver, ioctl,
}
use nv_resource_controller.Dlfcn.Ioctl.Served.{IsServed, Trusts, Given, Checked, pre_ioctl-Checked}

-- A memory with the same allocations.
stayed :
    {os : Platform} {k q : ℕ} (b : ℕ) (m : Memory os) {m' : Memory os}
    → IsSteady k q m'
    → ledger m' ≡ ledger m
    → Moves k q b m m'
stayed b m s e = (s, same e)

stay : {os : Platform} {k q : ℕ} (b : ℕ) {m : Memory os} → IsSteady k q m → Moves k q b m m
stay b s = (s, same refl)

-- A descriptor whose numbers could not be read is not one of the NVIDIA driver.
unread_device :
    (sys : StatCalls) (fd : ℕ)
    → is_nonzero (get_device_number sys fd 0 0).0 ≡ true
    → (get_device_number sys fd 0 0).1 ≢ nvidia_device_major
unfolding get_device_number
unread_device sys fd e = ground arith

module _ {os : Platform} (k q : ℕ) (b : ℕ) (sys : Calls) (driver : Driver) (p : ℕ)
    (v : IsServed sys driver p) where
  redirect-Moves :
      (fd major minor cmd : ℕ) (arg : Arg) (m : Memory os)
      → Given k q p arg m
      → (major ≡ nvidia_device_major → IsGranted os b (cmd % 2 ^ 32) (driver fd cmd arg).1)
      → Returns (λ _ m'. Moves k q b m m') (redirect sys driver fd major minor cmd arg m)
  unfolding redirect
  redirect-Moves fd major minor cmd arg m g granted = rw (v.malloc) (
      ground (
        arith,
        post_ioctl-Moves b sys.fb p minor (driver fd cmd arg).1 m g.0 major (cmd % 2 ^ 32) v.up g.1
            (v.keeps fd cmd arg g.2) granted,
        stay b g.0,
      ))

  -- The driver's part, after a check that has left the allocations alone.
  redirected :
      (fd major minor cmd : ℕ) (arg : Arg) (m m' : Memory os)
      → Given k q p arg m'
      → ledger m' ≡ ledger m
      → (major ≡ nvidia_device_major → IsGranted os b (cmd % 2 ^ 32) (driver fd cmd arg).1)
      → Returns (λ _ m''. Moves k q b m m'') (redirect sys driver fd major minor cmd arg m')
  redirected fd major minor cmd arg m m' g e granted =
      Returns-mono (λ _ m''. Moves k q b m' m'') (λ _ m''. Moves k q b m m'')
        (redirect sys driver fd major minor cmd arg m')
        (redirect-Moves fd major minor cmd arg m' g granted)
        λ _ t h. (h.0, subst (λ xs. LedgerStep b xs (ledger t)) e h.1)

  guarded-Moves :
      (fd major minor cmd : ℕ) (arg : Arg) (m : Memory os) (g : Given k q p arg m)
      → Trusts os b g.0.1.fb driver
      → Returns (λ _ m'. Moves k q b m m') (guarded sys driver fd major minor cmd arg m)
  unfolding guarded
  guarded-Moves fd major minor cmd arg m g trusts =
      Returns-and_then (Checked p m g.0 g.1 (cmd % 2 ^ 32)) (λ _ m'. Moves k q b m m')
        (pre_ioctl (cmd % 2 ^ 32) arg false m) _
        (pre_ioctl-Checked p m g.0 g.1 (cmd % 2 ^ 32) arg false g.2)
        λ r m' c. elim (Bool-cases (is_nonzero r.0 || r.2)) [
          | inl e ↦ rw e (stayed b m c.0 c.3)
          | inr e ↦
              let low : (r.2 ≡ false) = ground arith in
              rw e (
                redirected fd major minor cmd r.1 m m' (c.0, c.1, c.2) c.3
                  λ _. trusts fd cmd r.1 c.2 (c.4 low))
        ]

  limited-Moves :
      (fd cmd : ℕ) (arg : Arg) (m : Memory os) (g : Given k q p arg m)
      → Trusts os b g.0.1.fb driver
      → Returns
          (λ _ m'. Moves k q b m m')
          (limited sys driver fd cmd arg (get_device_number sys.stat fd 0 0) m)
  unfolding limited
  limited-Moves fd cmd arg m g trusts =
      let n = get_device_number sys.stat fd 0 0 in
      elim (Bool-cases (is_nonzero n.0 || not (n.1 == nvidia_device_major))) [
        | inl e ↦ rw e (
            redirect-Moves fd n.1 n.2 cmd arg m g
              λ same_major. absurd (unread_device sys.stat fd (ground arith) same_major))
        | inr e ↦ rw e (guarded-Moves fd n.1 n.2 cmd arg m g trusts)
      ]

  with_driver-Moves :
      (fd cmd : ℕ) (arg : Arg) (m : Memory os) (g : Given k q p arg m)
      → Trusts os b g.0.1.fb driver
      → Returns (λ _ m'. Moves k q b m m') (with_driver sys driver fd cmd arg m)
  unfolding with_driver
  with_driver-Moves fd cmd arg m g trusts = ground (
    arith,
    redirect-Moves fd 0 0 cmd arg m g (λ zero_major. absurd (omega (arith, zero_major))),
    limited-Moves fd cmd arg m g trusts,
  )

  -- Every call comes back with the account in order and at most one allocation more or less.
  pub ioctl-Moves :
      (init : Cmd (Memory os) (Option Driver)) (fd cmd : ℕ) (arg : Arg) (m : Memory os)
      (g : Given k q p arg m)
      → Trusts os b g.0.1.fb driver
      → Returns (λ _ m'. Moves k q b m m') (ioctl sys (some driver) init fd cmd arg m)
  unfolding ioctl
  ioctl-Moves init fd cmd arg m g trusts = with_driver-Moves fd cmd arg m g trusts

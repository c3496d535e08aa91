-- ===== src/Dlfcn/Ioctl/Steady.antt =====
-- The exported `ioctl` keeps the account in order, whatever is asked of it.
use nv_resource_controller.Prelude.{ℕ, ◌^◌, ◌≡◌, Option, some, subst}
use nv_resource_controller.Prelude.Int.{ℤ}
use nv_resource_controller.Prelude.Run.{Cmd, Returns, Returns-mono, ok}
use nv_resource_controller.Platform.{Platform}
use nv_resource_controller.Hook.Memory.{Memory}
use nv_resource_controller.Ioctl.Params.{Arg}
use nv_resource_controller.Ioctl.Account.{IsSteady}
use nv_resource_controller.Ioctl.Ledger.{Moves}
use nv_resource_controller.Ioctl.Alloc.Steady.{IsFresh}
use nv_resource_controller.Ioctl.Post.Steady.{IsFormed}
use nv_resource_controller.Dlfcn.Ioctl.{Calls, Driver, ioctl}
use nv_resource_controller.Dlfcn.Ioctl.Served.{IsServed, Given, Trusts-KeepsForm}
use nv_resource_controller.Dlfcn.Ioctl.Moves.{ioctl-Moves}

module _ {os : Platform} (k q : ℕ) (sys : Calls) (driver : Driver) (p : ℕ)
    (v : IsServed sys driver p) where
  -- From an account in order, with a well-formed block and a system as in `IsServed`, every call comes
  -- back, whatever its descriptor and command, with the mutex free and the account in order.
  pub ioctl-IsSteady :
      (init : Cmd (Memory os) (Option Driver)) (fd cmd : ℕ) (arg : Arg) (m : Memory os)
      → Given k q p arg m
      → Returns (λ _ m'. IsSteady k q m') (ioctl sys (some driver) init fd cmd arg m)
  ioctl-IsSteady init fd cmd arg m g =
      Returns-mono (λ _ m'. Moves k q (2 ^ 64) m m') (λ _ m'. IsSteady k q m')
        (ioctl sys (some driver) init fd cmd arg m)
        (ioctl-Moves k q (2 ^ 64) sys driver p v init fd cmd arg m g
          (Trusts-KeepsForm os g.0.1.fb driver v.keeps))
        λ _ _ h. h.0

module _ {os : Platform} where
  -- One call of `ioctl` that has come back, the system answering as in `IsServed`.
  pub data Call (m : Memory os) : Memory os → Type 0 where
    call :
        (sys : Calls) (driver : Driver) (p : ℕ) (init : Cmd (Memory os) (Option Driver))
        (fd cmd : ℕ) (arg arg' : Arg) (ret : ℤ) {m' : Memory os}
        → IsServed sys driver p
        → IsFresh (some p) m
        → IsFormed arg
        → ioctl sys (some driver) init fd cmd arg m ≡ ok (ret, arg') m'
        → Call m m'

  -- Any number of calls, one after the other.
  pub data History (m : Memory os) : Memory os → Type 0 where
    here : History m m
    next : {t u : Memory os} → History m t → Call t u → History m u

  pub Call-IsSteady : {k q : ℕ} (m m' : Memory os) → Call m m' → IsSteady k q m → IsSteady k q m'
  Call-IsSteady {k} {q} m m' (call sys driver p init fd cmd arg arg' ret v f w e) s =
      subst (Returns (λ _ t. IsSteady k q t)) e
        (ioctl-IsSteady k q sys driver p v init fd cmd arg m (s, f, w))

  -- From an account in order, after any history of calls that the system serves as in `IsServed`,
  -- with well-formed blocks and unused addresses from `malloc`, the mutex is free, `alloc_mem` is
  -- what the recorded allocations come to, and free and allocated memory still come to the same,
  -- all as 64-bit words.
  pub History-IsSteady :
      {k q : ℕ} (m m' : Memory os) → IsSteady k q m → History m m' → IsSteady k q m'
  History-IsSteady m m' s here = s
  History-IsSteady m m' s (next {t} h c) = Call-IsSteady t m' c (History-IsSteady m t s h)

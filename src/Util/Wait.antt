-- ===== src/Util/Wait.antt =====
-- `wait_duration` of src/util.c.
pub mod Requests
use nv_resource_controller.Prelude.{ℕ, ◌≡◌, refl, List, [], ◌∷◌, ◌++◌, map}
use nv_resource_controller.Prelude.Int.{ℤ, pos, negsuc}
use nv_resource_controller.Prelude.Run.{Cmd, ok, pure, ◌>>=◌, ◌>>◌}

-- `struct timespec`
pub record Timespec : Type 0 where
  pub tv_sec : ℕ
  pub tv_nsec : ℕ

-- How a `nanosleep` ends before its time: with `EINTR` and what is left, or with another error.
pub data Nap : Type 0 where
  interrupted : Timespec → Nap
  failed : Nap

-- A call of `nanosleep`. The state is what has been asked for, in order.
nanosleep : Timespec → Cmd (List Timespec) (Unit {0})
nanosleep req log = ok tt (log ++ req ∷ [])

-- The body of the `do` loop, `err` being `EINTR`, on the ends of the calls still to come. `err` is not
-- read again, so that another error leads to one more call, with the same `remain`.
unfoldable pub retry : (req remain : Timespec) → List Nap → Cmd (List Timespec) ℤ
unfolding nanosleep
retry req remain [] = nanosleep (record req { tv_nsec = remain.tv_nsec }) >> pure (pos 0)
retry req remain (interrupted left ∷ naps) =
    nanosleep (record req { tv_nsec = remain.tv_nsec })
    >> retry (record req { tv_nsec = remain.tv_nsec }) left naps
retry req remain (failed ∷ naps) =
    nanosleep (record req { tv_nsec = remain.tv_nsec })
    >> retry (record req { tv_nsec = remain.tv_nsec }) remain naps

unfoldable pub wait_duration : (interval : Timespec) → List Nap → Cmd (List Timespec) ℤ
unfolding retry
wait_duration interval [] = nanosleep interval >> pure (pos 0)
wait_duration interval (interrupted left ∷ naps) = nanosleep interval >> retry interval left naps
wait_duration interval (failed ∷ naps) = nanosleep interval >> pure (negsuc 0)

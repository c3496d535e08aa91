-- ===== src/Util/Wait/Requests.antt =====
-- What `wait_duration` asks `nanosleep` for.
use mathlib.Core.List.{append_assoc}
use nv_resource_controller.Prelude.{◌≡◌, refl, List, [], ◌∷◌, ◌++◌, map, arith, ◌∙◌}
use nv_resource_controller.Prelude.Int.{pos}
use nv_resource_controller.Prelude.Run.{ok, Returns}
use nv_resource_controller.Util.Wait.{Timespec, Nap, interrupted, failed, retry, wait_duration}

-- The seconds of the interval, with the nanoseconds that were left.
abbrev pub asked_again : Timespec → Timespec → Timespec
asked_again interval left = record { tv_sec = interval.tv_sec; tv_nsec = left.tv_nsec }

retry_lem :
    (interval req left : Timespec) (lefts log : List Timespec)
    → req.tv_sec ≡ interval.tv_sec
    → retry req left (map interrupted lefts) log
      ≡ ok (pos 0) (log ++ map (asked_again interval) (left ∷ lefts))
unfolding retry
retry_lem interval req left [] log e = ground arith
retry_lem interval req left (next ∷ lefts) log e =
    let req' : Timespec = record req { tv_nsec = left.tv_nsec } in
    let first : (req' ≡ asked_again interval left) = ground arith in
    retry_lem interval req' next lefts (log ++ req' ∷ []) e
    ∙ rw (append_assoc log (req' ∷ []) (map (asked_again interval) (next ∷ lefts)), first) refl

-- However often it is interrupted, `wait_duration` returns 0 once a call of `nanosleep` has run to its
-- end. It asks for the interval first, and after each interruption for the nanoseconds that were left
-- and the whole seconds of the interval once more.
pub wait_duration_lem :
    (interval : Timespec) (lefts log : List Timespec)
    → wait_duration interval (map interrupted lefts) log
      ≡ ok (pos 0) (log ++ interval ∷ map (asked_again interval) lefts)
unfolding wait_duration
wait_duration_lem interval [] log = refl
wait_duration_lem interval (left ∷ lefts) log =
    retry_lem interval interval left lefts (log ++ interval ∷ []) refl
    ∙ rw (append_assoc log (interval ∷ []) (map (asked_again interval) (left ∷ lefts))) refl

-- Whatever the calls of `nanosleep` that end early, the loop of `wait_duration` ends.
retry-Returns :
    (req remain : Timespec) (naps : List Nap) (log : List Timespec)
    → Returns (λ _ _. Unit {0}) (retry req remain naps log)
unfolding retry
retry-Returns req remain [] log = tt
retry-Returns req remain (interrupted left ∷ naps) log = retry-Returns _ left naps _
retry-Returns req remain (failed ∷ naps) log = retry-Returns _ remain naps _

pub wait_duration-Returns :
    (interval : Timespec) (naps : List Nap) (log : List Timespec)
    → Returns (λ _ _. Unit {0}) (wait_duration interval naps log)
unfolding wait_duration
wait_duration-Returns interval [] log = tt
wait_duration-Returns interval (interrupted left ∷ naps) log = retry-Returns interval left naps _
wait_duration-Returns interval (failed ∷ naps) log = tt

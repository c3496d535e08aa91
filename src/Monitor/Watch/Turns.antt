-- ===== src/Monitor/Watch/Turns.antt =====
-- What a turn of the loop of `watch_dog` does, and how `main` ends.
use nv_resource_controller.Prelude.{
  ℕ, ◌<◌, ◌≡◌, refl, false, Option, List, [], ◌∷◌, length, ltb, if◌then◌else◌, arith,
}
use nv_resource_controller.Prelude.Int.{ℤ, pos, negsuc, is_neg}
use nv_resource_controller.Prelude.Run.{
  Run, Cmd, ok, blocked, exited, fault, Returns, Returns-in_state, in_state,
}
use nv_resource_controller.Prelude.Text.{Text}
use nv_resource_controller.Hook.Types.{TokenAttr}
use nv_resource_controller.Hook.Logger.{logger, prints-info}
use nv_resource_controller.Hook.Memory.{Object, holds, Shm, update}
use nv_resource_controller.Util.Cgroup.{get_cgroup_id}
use nv_resource_controller.Util.Wait.{wait_duration}
use nv_resource_controller.Util.Wait.Requests.{wait_duration-Returns}
use nv_resource_controller.Monitor.{Float, delta_change}
use nv_resource_controller.Monitor.Pace.{IsRunning, Converts, IsTicked, delta_change-IsTicked}
use nv_resource_controller.Monitor.Nvml.{Sample, max_cgroup_id_len, micros, util_of}
use nv_resource_controller.Monitor.Nvml.Sampled.{id_read, first_sample, get_gpu_util_found}
use nv_resource_controller.Monitor.Watch.{
  Turn, run_turn, on_attr, on_object, react, sleep, others_run, read_util, wait_time, main,
  MainCalls, MonitorState, copy_arg,
}

-- What the turn finds of the group's load.
abbrev pub seen : (ℕ → Option Text) → Text → Turn → List Sample → ℤ
seen id_of cgroup_id turn samples =
    util_of (first_sample id_of cgroup_id (micros turn.last_time) samples)

-- The attributes after the turn: where the load is unknown or the last change has not been read, what
-- the other processes have made of them, and one tick of `delta_change` later otherwise.
abbrev pub IsTurned : ℤ → TokenAttr → TokenAttr → Type 0
IsTurned util a b = if is_neg util then b ≡ a else if a.changed then b ≡ a else IsTicked a b

-- Object `k` holds attributes as they are after the turn.
abbrev pub Turned : ℕ → ℤ → TokenAttr → Shm TokenAttr → Type 0
Turned k util a t = (b : TokenAttr) × (t k ≡ holds b) × IsTurned util a b

update_at : (s : Shm TokenAttr) (k : ℕ) (o : Object TokenAttr) → update s k o k ≡ o
update_at s k o = ground arith

-- What a run on the attributes leaves in object `k`.
stored :
    (P : TokenAttr → Type 0) (k : ℕ) (s : Shm TokenAttr) (r : Run TokenAttr (Unit {0}))
    → Returns (λ _ b. P b) r
    → Returns
        (λ _ t. (b : TokenAttr) × (t k ≡ holds b) × P b)
        (in_state r (λ b. update s k (holds b)))
stored P k s (ok x b) h = (b, update_at s k (holds b), h)
stored P k s fault h = absurd h
stored P k s blocked h = absurd h
stored P k s exited h = absurd h

module _ (f : Float) (k : ℕ) (cgroup_id : Text) (limit : ℤ) where
  -- A command on the attributes in object `k`, which returns.
  on_attr_lem :
      (P : TokenAttr → Type 0) (act : Cmd TokenAttr (Unit {0})) (s : Shm TokenAttr) (a : TokenAttr)
      → s k ≡ holds a
      → Returns (λ _ b. P b) (act a)
      → Returns (λ _ t. (b : TokenAttr) × (t k ≡ holds b) × P b) (on_attr k act s)
  unfolding on_attr on_object
  on_attr_lem P act s a held h = rw held (stored P k s (act a) h)

  react_lem :
      (util : ℤ) (s : Shm TokenAttr) (a : TokenAttr)
      → s k ≡ holds a
      → (is_neg util ≡ false → IsRunning util limit a × Converts f util limit a)
      → Returns (λ _ t. Turned k util a t) (react f k limit util s)
  unfolding react
  react_lem (pos n) s a held h =
      let (r, c) = h refl in
      on_attr_lem (IsTurned (pos n) a) (delta_change f (pos n) limit) s a held
        (delta_change-IsTicked f (pos n) limit a r c)
  react_lem (negsuc n) s a held h = (a, held, refl)

  -- A turn, however it is interrupted, with NVML at work and the files of the processes read as
  -- `id_of` says. Where the load of the group is found, the numbers of the adjustment are in range:
  -- the loop goes on, with the attributes that the other processes have left where there is no load
  -- or the last change has not been read, and those of one tick later otherwise.
  pub run_turn_lem :
      (turn : Turn) (id_of : ℕ → Option Text) (samples : List Sample) (s : Shm TokenAttr)
      (a : TokenAttr)
      → ((pid : ℕ) (t : Text)
          → get_cgroup_id (turn.sys.cgroup_lines pid) max_cgroup_id_len t ≡ id_read (id_of pid) t)
      → turn.sys.process_utilization (micros turn.last_time) ≡ (pos 0, samples)
      → s k ≡ holds a
      → (is_neg (seen id_of cgroup_id turn samples) ≡ false
          → IsRunning (seen id_of cgroup_id turn samples) limit (turn.others a)
            × Converts f (seen id_of cgroup_id turn samples) limit (turn.others a))
      → Returns
          (λ _ t. Turned k (seen id_of cgroup_id turn samples) (turn.others a) t)
          (run_turn f k cgroup_id limit turn s)
  unfolding run_turn sleep on_attr on_object others_run read_util
  run_turn_lem turn id_of samples s a reads e held h =
      let util : ℤ = seen id_of cgroup_id turn samples in
      Returns-in_state (λ _ _. Unit {0}) (λ _ t. Turned k util (turn.others a) t)
        (wait_duration wait_time turn.naps []) _ _ (wait_duration-Returns wait_time turn.naps [])
        λ _ _ _.
          let (t, found) =
            get_gpu_util_found turn.sys cgroup_id id_of reads turn.last_time samples [] e in
          rw (held, found)
            (react_lem util (update s k (holds (turn.others a))) (turn.others a)
              (update_at s k (holds (turn.others a))) h)

-- With four arguments, of which the group id has 16 bytes or more, `main` reads an array of
-- characters past its end, whatever the environment says.
pub main-unterminated :
    (f : Float) (calls : MainCalls) (turns : List Turn) (name minor_arg id_arg limit_arg : Text)
    (s : MonitorState)
    → 15 < length id_arg
    → main f calls turns (name ∷ minor_arg ∷ id_arg ∷ limit_arg ∷ []) s ≡ fault
unfolding main copy_arg logger
main-unterminated f calls turns name minor_arg id_arg limit_arg s long =
    let cut : (ltb (length id_arg) 16 ≡ false) = ground arith in
    rw (cut, prints-info calls.logs) refl

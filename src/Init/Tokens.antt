-- ===== src/Init/Tokens.antt =====
-- The part of `_init_device_prop` for the limit on launches.
use nv_resource_controller.Prelude.{
  Bool, ℕ, ◌-◌, true, not, none, some, List, [], ◌∷◌, ◌==◌, if◌then◌else◌,
}
use nv_resource_controller.Prelude.Int.{ℤ, is_neg}
use nv_resource_controller.Prelude.Run.{
  Cmd, ok, fault, blocked, exited, pure, in_state, ◌>>=◌, ◌>>◌,
}
use nv_resource_controller.Prelude.Text.{Text}
use nv_resource_controller.Platform.{Platform}
use nv_resource_controller.Hook.Types.{TokenAttr}
use nv_resource_controller.Hook.Paths.{shm_path}
use nv_resource_controller.Hook.Memory.{Object, missing, empty, holds, update}
use nv_resource_controller.Util.ShmAddr.{Addr, null, map_failed, mapped, create_shm_addr}
use nv_resource_controller.Util.Cgroup.{get_cgroup_id}
use nv_resource_controller.Env.{get_core_limit}
use nv_resource_controller.Cuda.Launch.{Wait, interrupted, failed}
use nv_resource_controller.Init.State.{InitCalls, InitState, zeroed_attr}

module _ {os : Platform} where
  -- `get_core_limit(NULL, &core_limit)`
  unfoldable pub read_core_limit : InitCalls → Cmd (InitState os) ℤ
  read_core_limit sys s =
      in_state (get_core_limit sys.env (record { minor = none; limit = none })) (λ _. s)

  unfoldable pub set_core_limited : Cmd (InitState os) (Unit {0})
  set_core_limited s =
      ok tt (record s { mem = record s.mem { dev = record s.mem.dev { core_limited = true } } })

  unfoldable pub get_core_limited : Cmd (InitState os) Bool
  get_core_limited s = ok s.mem.dev.core_limited s

  -- `get_cgroup_id` into a buffer of `PATH_MAX` bytes
  unfoldable pub read_cgroup : InitCalls → Cmd (InitState os) (ℤ × Text)
  unfolding get_cgroup_id
  read_cgroup sys s =
      in_state ((get_cgroup_id sys.cgroup_lines 4096 >>= λ ret id. ok (ret, id) id) []) (λ _. s)

  mapped_attr : Addr → Cmd (InitState os) ℕ
  mapped_attr null s = exited
  mapped_attr map_failed s = fault
  mapped_attr (mapped k) s = ok k s

  unfoldable pub open_attr : InitCalls → Text → Cmd (InitState os) ℕ
  unfolding mapped_attr create_shm_addr
  open_attr sys id s =
      let r =
        create_shm_addr zeroed_attr sys.attr_calls (sys.attr_key (shm_path s.mem.dev.minor id))
          s.attrs in
      mapped_attr r.addr (record s { attrs = r.shm })

  attr_of : Object TokenAttr → Cmd (InitState os) TokenAttr
  attr_of missing s = fault
  attr_of empty s = fault
  attr_of (holds a) s = ok a s

  read_attr : ℕ → Cmd (InitState os) TokenAttr
  unfolding attr_of
  read_attr k s = attr_of (s.attrs k) s

  store_attr : ℕ → TokenAttr → Cmd (InitState os) (Unit {0})
  store_attr k a s = ok tt (record s { attrs = update s.attrs k (holds a) })

  -- `sem_init(&attr->ready, 1, 0)`
  init_ready : InitCalls → ℕ → Cmd (InitState os) (Unit {0})
  unfolding read_attr store_attr
  init_ready sys k =
      if sys.ready_fails
      then (λ s. exited)
      else (read_attr k >>= λ a. store_attr k (record a { ready = 0 }))

  -- `sem_wait(&attr->ready)`: it waits at 0, which the monitor may have changed by then.
  take_ready : ℕ → TokenAttr → Cmd (InitState os) (Unit {0})
  unfolding store_attr
  take_ready k a =
      if a.ready == 0 then (λ s. blocked) else store_attr k (record a { ready = a.ready - 1 })

  -- The loop on `sem_wait`, and the exit where it fails
  unfoldable pub wait_ready : InitCalls → ℕ → List Wait → Cmd (InitState os) (Unit {0})
  unfolding read_attr take_ready
  wait_ready sys k [] = read_attr k >>= λ a. take_ready k (sys.monitor a)
  wait_ready sys k (interrupted ∷ waits) = wait_ready sys k waits
  wait_ready sys k (failed ∷ waits) = λ s. exited

  -- `sem_init(&gpu_device.tokens, 0, attr->params.core_limit)` to the end
  start_thread : InitCalls → ℕ → TokenAttr → Cmd (InitState os) (Unit {0})
  start_thread sys k a s =
      if sys.tokens_fails
      then exited
      else ok tt (record s { tokens = some a.core_limit; attr = some k; thread = true })

  unfoldable pub start_from_object : InitCalls → ℕ → Cmd (InitState os) (Unit {0})
  unfolding read_attr start_thread
  start_from_object sys k = read_attr k >>= start_thread sys k

  -- From the mapped attributes on.
  unfoldable pub init_tokens_at : InitCalls → ℕ → Cmd (InitState os) (Unit {0})
  unfolding init_ready read_attr wait_ready start_from_object
  init_tokens_at sys k = do
    init_ready sys k
    a ← read_attr k
    (if not a.inited then wait_ready sys k sys.waits else pure tt)
    start_from_object sys k

  -- For the limit on launches.
  unfoldable pub init_tokens : InitCalls → Cmd (InitState os) (Unit {0})
  unfolding read_cgroup open_attr init_tokens_at
  init_tokens sys = do
    (ret, id) ← read_cgroup sys
    (if is_neg ret then (λ s. exited) else (open_attr sys id >>= λ k. init_tokens_at sys k))

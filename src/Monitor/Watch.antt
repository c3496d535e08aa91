-- ===== src/Monitor/Watch.antt =====
-- `watch_dog` and `main` of src/server_monitor.c.
pub mod Apart
pub mod First
pub mod Turns
use nv_resource_controller.Prelude.{
  ℕ, ◌+◌, ◌-◌, ◌*◌, ◌%◌, ◌^◌, Bool, not, Option, none, some, List, [], ◌∷◌, length, ltb, ◌==◌,
  if◌then◌else◌,
}
use nv_resource_controller.Prelude.Int.{ℤ, pos, negsuc, is_neg, is_nonzero}
use nv_resource_controller.Prelude.Run.{Cmd, ok, fault, exited, pure, in_state, ◌>>=◌, ◌>>◌}
use nv_resource_controller.Prelude.Text.{Text}
use nv_resource_controller.Hook.Types.{TokenAttr}
use nv_resource_controller.Hook.Logger.{LogCalls, logger, info}
use nv_resource_controller.Hook.Paths.{shm_path}
use nv_resource_controller.Hook.Memory.{Object, missing, empty, holds, Shm, update}
use nv_resource_controller.Util.ShmAddr.{ShmCalls, Addr, null, map_failed, mapped, create_shm_addr}
use nv_resource_controller.Util.Wait.{Timespec, Nap, wait_duration}
use nv_resource_controller.Init.State.{zeroed_attr}
use nv_resource_controller.Token.{as_int32}
use nv_resource_controller.Monitor.{Float, default_wait_nsec, init_attr, delta_change}
use nv_resource_controller.Monitor.Nvml.{
  NvmlLib, NvmlLinker, init_handle, UtilCalls, max_cgroup_id_len, get_gpu_util,
}

-- One turn of the loop: the time that `clock_gettime` gives, how the sleep is interrupted, what the
-- processes of the group have made of the attributes by its end, and what `get_gpu_util` finds.
pub record Turn : Type 0 where
  pub last_time : Timespec
  pub naps : List Nap
  pub others : TokenAttr → TokenAttr
  pub sys : UtilCalls

-- What `watch_dog` asks before its loop. `attr_key` is the object that a path
-- names.
pub record WatchCalls : Type 0 where
  pub handle_ret : ℕ → ℤ
  pub attr_key : Text → ℕ
  pub attr_calls : ShmCalls
  pub malloc_fails : Bool
  pub max_clock_ret : ℤ

-- A `char` array that is read as a string; `none` is one that has no byte 0.
unfoldable pub read_string : Option Text → Cmd (Shm TokenAttr) Text
read_string none s = fault
read_string (some text) s = ok text s

abbrev wait_time : Timespec
wait_time = record { tv_sec = 0; tv_nsec = default_wait_nsec }

-- A command on the attributes in object `k`.
unfoldable pub on_object :
    {A : Type 0} → Object TokenAttr → ℕ → Cmd TokenAttr A → Cmd (Shm TokenAttr) A
on_object missing k act s = fault
on_object empty k act s = fault
on_object (holds a) k act s = in_state (act a) (λ b. update s k (holds b))

unfoldable pub on_attr : {A : Type 0} → ℕ → Cmd TokenAttr A → Cmd (Shm TokenAttr) A
unfolding on_object
on_attr k act s = on_object (s k) k act s

unfoldable pub sleep : List Nap → Cmd (Shm TokenAttr) ℤ
sleep naps s = in_state (wait_duration wait_time naps []) (λ _. s)

unfoldable pub others_run : (TokenAttr → TokenAttr) → Cmd TokenAttr (Unit {0})
others_run act a = ok tt (act a)

-- `get_gpu_util`, whose buffer for ids is full of zeros at the start.
unfoldable pub read_util : Text → Turn → Cmd (Shm TokenAttr) ℤ
read_util cgroup_id turn s = in_state (get_gpu_util turn.sys cgroup_id turn.last_time []) (λ _. s)

module _ (f : Float) where
  -- `if (util < 0) continue; delta_change(attr, util, limit);`
  unfoldable pub react : ℕ → (limit util : ℤ) → Cmd (Shm TokenAttr) (Unit {0})
  unfolding on_attr
  react k limit util = if is_neg util then pure tt else on_attr k (delta_change f util limit)

  unfoldable pub run_turn : ℕ → Text → (limit : ℤ) → Turn → Cmd (Shm TokenAttr) (Unit {0})
  unfolding on_attr sleep others_run read_util react
  run_turn k cgroup_id limit turn = do
    sleep turn.naps
    on_attr k (others_run turn.others)
    util ← read_util cgroup_id turn
    react k limit util

  -- The first turns of the loop, which has no end.
  unfoldable pub run_turns : ℕ → Text → (limit : ℤ) → List Turn → Cmd (Shm TokenAttr) (Unit {0})
  unfolding run_turn
  run_turns k cgroup_id limit [] = pure tt
  run_turns k cgroup_id limit (turn ∷ turns) =
      run_turn k cgroup_id limit turn >> run_turns k cgroup_id limit turns

  -- From the mapped attributes on.
  unfoldable pub watch_attr :
      WatchCalls → Text → (limit : ℤ) → List Turn → Addr → Cmd (Shm TokenAttr) (Unit {0})
  unfolding on_attr run_turns
  watch_attr calls cgroup_id limit turns null = pure tt
  watch_attr calls cgroup_id limit turns map_failed = λ s. fault
  watch_attr calls cgroup_id limit turns (mapped k) =
      on_attr k (init_attr f limit)
      >> (if calls.malloc_fails
          then pure tt
          else if is_nonzero calls.max_clock_ret
          then pure tt
          else run_turns k cgroup_id limit turns)

  unfoldable pub open_and_watch :
      WatchCalls → ℕ → (limit : ℤ) → List Turn → Text → Cmd (Shm TokenAttr) (Unit {0})
  unfolding watch_attr
  open_and_watch calls minor limit turns cgroup_id s =
      let r =
        create_shm_addr zeroed_attr calls.attr_calls (calls.attr_key (shm_path minor cgroup_id))
          s in
      watch_attr calls cgroup_id limit turns r.addr r.shm

  unfoldable pub watch_dog :
      WatchCalls → ℕ → Option Text → (limit : ℤ) → List Turn → Cmd (Shm TokenAttr) (Unit {0})
  unfolding read_string open_and_watch
  watch_dog calls minor cgroup_id limit turns =
      if is_nonzero (calls.handle_ret minor)
      then pure tt
      else (read_string cgroup_id >>= open_and_watch calls minor limit turns)

-- What `main` asks besides: the linker, `strtol`, `nvmlInit`, and what `LOGGER` asks.
pub record MainCalls : Type 0 where
  pub linker : NvmlLinker
  pub strtol : Text → ℤ
  pub nvml_init_ret : ℤ
  pub logs : LogCalls
  pub watch : WatchCalls

pub record MonitorState : Type 0 where
  pub hdr : NvmlLib
  pub attrs : Shm TokenAttr

-- A `long` cut to an `uint32_t`
abbrev pub as_uint32 : ℤ → ℕ
as_uint32 (pos n) = n % 2 ^ 32
as_uint32 (negsuc n) = 2 ^ 32 - 1 - n % 2 ^ 32

-- `strncpy(cgroup_id, arg, sizeof(cgroup_id))` into zeros
unfoldable pub copy_arg : Text → Option Text
copy_arg arg = if ltb (length arg) max_cgroup_id_len then some arg else none

unfoldable pub on_hdr : {A : Type 0} → Cmd NvmlLib A → Cmd MonitorState A
on_hdr act s = in_state (act s.hdr) (λ hdr. record s { hdr = hdr })

unfoldable pub on_attrs : {A : Type 0} → Cmd (Shm TokenAttr) A → Cmd MonitorState A
on_attrs act s = in_state (act s.attrs) (λ attrs. record s { attrs = attrs })

-- `LOGGER(INFO, ...)` with the group's id
unfoldable pub log_info : MainCalls → Option Text → Cmd MonitorState (Unit {0})
unfolding on_attrs read_string logger
log_info calls cgroup_id = logger calls.logs info (on_attrs (read_string cgroup_id) >> pure tt)

unfoldable pub exit : {A : Type 0} → Cmd MonitorState A
exit s = exited

module _ (f : Float) where
  -- `main` with its three arguments.
  unfoldable pub run_monitor :
      MainCalls → List Turn → (minor_arg id_arg limit_arg : Text) → Cmd MonitorState ℤ
  unfolding copy_arg log_info on_hdr exit on_attrs
  run_monitor calls turns minor_arg id_arg limit_arg = do
    log_info calls (copy_arg id_arg)
    ret ← on_hdr (init_handle calls.linker)
    (if is_neg ret then exit else pure tt)
    (if is_nonzero calls.nvml_init_ret then exit else pure tt)
    on_attrs (
        watch_dog f calls.watch (as_uint32 (calls.strtol minor_arg)) (copy_arg id_arg)
          (as_int32 (as_uint32 (calls.strtol limit_arg))) turns)
    pure (pos 0)

  unfoldable pub main : MainCalls → List Turn → (argv : List Text) → Cmd MonitorState ℤ
  unfolding run_monitor exit
  main calls turns (name ∷ minor_arg ∷ id_arg ∷ limit_arg ∷ []) =
      run_monitor calls turns minor_arg id_arg limit_arg
  main calls turns argv = exit

-- ===== src/Monitor/Nvml.antt =====
-- `init_handle` and `get_gpu_util` of src/server_monitor.c.
pub mod Sampled
use Prim.Native.String.{String}
use nv_resource_controller.Prelude.{
  ℕ, ◌+◌, ◌*◌, ◌/◌, ◌%◌, ◌^◌, Bool, true, false, not, ◌&&◌, Option, none, some, List, [], ◌∷◌, ltb,
  ◌==◌, if◌then◌else◌,
}
use nv_resource_controller.Prelude.Int.{ℤ, pos, negsuc, is_nonzero}
use nv_resource_controller.Prelude.Run.{Cmd, ok, fault, pure, in_state, ◌>>=◌, ◌>>◌}
use nv_resource_controller.Prelude.Text.{Text, eq_text}
use nv_resource_controller.Util.Cgroup.{get_cgroup_id}
use nv_resource_controller.Util.Wait.{Timespec}
use nv_resource_controller.Cuda.{first_of}
use nv_resource_controller.Token.{as_int32}

-- `nvml_lib_t`; `none` is a field that nothing has written.
pub record NvmlLib : Type 0 where
  pub nvml_init : Option ℕ
  pub nvml_device_get_handle_by_index : Option ℕ
  pub nvml_shutdown : Option ℕ
  pub nvml_device_get_process_utilization : Option ℕ
  pub nvml_device_get_clock : Option ℕ

-- `dlopen("libnvidia-ml.so.1", RTLD_LAZY)` and `dlsym` on its handle
pub record NvmlLinker : Type 0 where
  pub handle : Option ℕ
  pub dlsym : ℕ → String → Option ℕ

-- `if (unlikely(!field)) goto done;` for a field that nothing may have written
test_field : Option ℕ → Cmd NvmlLib ℤ → Cmd NvmlLib ℤ
test_field none rest s = fault
test_field (some p) rest s = rest s

-- `if (unlikely(!_sym)) goto done;`
test_symbol : Option ℕ → (ℕ → Cmd NvmlLib ℤ) → Cmd NvmlLib ℤ
test_symbol none rest s = ok (negsuc 0) s
test_symbol (some p) rest s = rest p s

load_init : NvmlLinker → ℕ → Cmd NvmlLib (Unit {0})
load_init linker h s = ok tt (record s {
  nvml_init =
      first_of (first_of (linker.dlsym h "nvmlInit") (linker.dlsym h "nvmlInit_v2")) s.nvml_init;
})

load_by_index : NvmlLinker → ℕ → Cmd NvmlLib (Unit {0})
load_by_index linker h s = ok tt (record s {
  nvml_device_get_handle_by_index =
      first_of
        (first_of (linker.dlsym h "nvmlDeviceGetHandleByIndex")
          (linker.dlsym h "nvmlDeviceGetHandleByIndex_v2"))
        s.nvml_device_get_handle_by_index;
})

load_shutdown : ℕ → Cmd NvmlLib (Unit {0})
load_shutdown p s = ok tt (record s { nvml_shutdown = some p })

load_utilization : ℕ → Cmd NvmlLib (Unit {0})
load_utilization p s = ok tt (record s { nvml_device_get_process_utilization = some p })

load_clock : ℕ → Cmd NvmlLib (Unit {0})
load_clock p s = ok tt (record s { nvml_device_get_clock = some p })

-- From `nvmlShutdown` on.
load_others : NvmlLinker → ℕ → Cmd NvmlLib ℤ
unfolding test_symbol load_shutdown load_utilization load_clock
load_others linker h = test_symbol (linker.dlsym h "nvmlShutdown") λ p.
    load_shutdown p
    >> (test_symbol (linker.dlsym h "nvmlDeviceGetProcessUtilization") λ q.
        load_utilization q
        >> (test_symbol (linker.dlsym h "nvmlDeviceGetClock") λ r. load_clock r >> pure (pos 0)))

-- The second half, the first pointer being there.
load_rest : NvmlLinker → ℕ → Cmd NvmlLib ℤ
unfolding load_by_index test_field load_others
load_rest linker h =
    load_by_index linker h
    >> (λ s. test_field s.nvml_device_get_handle_by_index (load_others linker h) s)

load_all : NvmlLinker → Option ℕ → Cmd NvmlLib ℤ
unfolding load_init test_field load_rest
load_all linker none = pure (negsuc 0)
load_all linker (some h) =
    load_init linker h >> (λ s. test_field s.nvml_init (load_rest linker h) s)

unfoldable pub init_handle : NvmlLinker → Cmd NvmlLib ℤ
unfolding load_all
init_handle linker = load_all linker linker.handle

-- `nvmlProcessUtilizationSample_t`, the fields that are read
pub record Sample : Type 0 where
  pub pid : ℕ
  pub time_stamp : ℕ
  pub sm_util : ℕ

-- What a call of `get_gpu_util` asks: `nvmlDeviceGetProcessUtilization` since a time in
-- microseconds, and the file `/proc/<pid>/cgroup` as `get_cgroup_id` reads it.
pub record UtilCalls : Type 0 where
  pub process_utilization : ℕ → ℤ × List Sample
  pub cgroup_lines : ℕ → Option (List (List ℕ))

-- `MAX_CGROUP_ID_LEN`
abbrev pub max_cgroup_id_len : ℕ
max_cgroup_id_len = 16

get_text : Cmd Text Text
get_text t = ok t t

-- Is it the sample of the group? The state is the string in `target_cgroup_id`.
is_target : UtilCalls → (cgroup_id : Text) → Sample → Cmd Text Bool
unfolding get_text
is_target sys cgroup_id sample = do
  ret ← get_cgroup_id (sys.cgroup_lines sample.pid) max_cgroup_id_len
  target ← get_text
  pure (not (is_nonzero ret) && eq_text target cgroup_id)

-- The loop over the samples.
unfoldable pub find_sample :
    UtilCalls → (cgroup_id : Text) → (last_seen : ℕ) → List Sample → Cmd Text (Option Sample)
unfolding is_target
find_sample sys cgroup_id last_seen [] = pure none
find_sample sys cgroup_id last_seen (sample ∷ samples) =
    let rest = find_sample sys cgroup_id last_seen samples in
    if ltb sample.time_stamp last_seen
    then rest
    else (is_target sys cgroup_id sample >>= λ hit. if hit then pure (some sample) else rest)

abbrev pub util_of : Option Sample → ℤ
util_of none = negsuc 0
util_of (some sample) = as_int32 sample.sm_util

-- `last_seen`
abbrev pub micros : Timespec → ℕ
micros t = (t.tv_sec * 1_000_000 + t.tv_nsec / 1000) % 2 ^ 64

search_samples : UtilCalls → (cgroup_id : Text) → (last_seen : ℕ) → ℤ × List Sample → Cmd Text ℤ
search_samples sys cgroup_id last_seen (ret, samples) =
    if is_nonzero ret
    then pure (negsuc 0)
    else (find_sample sys cgroup_id last_seen samples >>= λ found. pure (util_of found))

unfoldable pub get_gpu_util : UtilCalls → (cgroup_id : Text) → Timespec → Cmd Text ℤ
unfolding search_samples
get_gpu_util sys cgroup_id last_time =
    search_samples sys cgroup_id (micros last_time) (sys.process_utilization (micros last_time))

-- ===== src/Ioctl/Control.antt =====
-- `__get_fb_info`, `post_rm_control_fb_get_info`, `post_rm_control_fb_get_info_v2` and
-- `post_rm_control`.
pub mod Answers
pub mod Fill
pub mod Reported
pub mod Steady
use nv_resource_controller.Prelude.{
  ℕ, zero, suc, ◌-◌, ◌/◌, ◌^◌, not, List, [], ◌∷◌, ◌==◌, ltb, if◌then◌else◌, ◌||◌,
}
use nv_resource_controller.Prelude.Int.{ℤ, pos, neg, is_nonzero}
use nv_resource_controller.Prelude.Run.{Cmd, ok, fault, pure, ◌>>=◌, ◌>>◌}
use nv_resource_controller.Platform.{Platform}
use nv_resource_controller.Hook.Types.{FbInfo, nvidia_ctl_minor}
use nv_resource_controller.Hook.Memory.{Object, missing, empty, holds, Memory, lock, unlock}
use nv_resource_controller.Util.ShmAddr.{ShmCalls, Addr, null, map_failed, mapped, create_shm_addr}
use nv_resource_controller.Ioctl.Params.{ControlParams, FbEntry, FbList}
use nv_resource_controller.Ioctl.Alloc.{no_device, find_device}

-- What `__get_fb_info` asks of the system: the calls of `create_shm_addr`, and `readlink` on
-- `/proc/<pid>/exe`.
pub record FbCalls : Type 0 where
  pub shm_calls : ShmCalls
  pub readlink : ℕ → ℤ

-- The value of `free_mem` before anything is known: the `size_t` -1.
abbrev pub unknown_free : ℕ
unknown_free = 2 ^ 64 - 1

-- A shared object as `memset` leaves it.
abbrev pub zeroed_fb : FbInfo
zeroed_fb = record { pid = 0; total_mem = 0; free_mem = 0 }

-- `*total_mem` and `*free_mem`, in KiB
abbrev pub fb_kib : (ℕ → ℤ) → FbInfo → ℕ × ℕ
fb_kib readlink fb = if fb.pid == 0 then (0, unknown_free) else (
  fb.total_mem / 2 ^ 10,
  if is_nonzero (readlink fb.pid) then unknown_free else fb.free_mem / 2 ^ 10,
)

-- The `switch` on `info->index`.
unfoldable pub fill : Platform → (total_mem free_mem : ℕ) → FbEntry → FbEntry
fill os total_mem free_mem info =
    if info.index == os.abi.index_total_ram_size || info.index == os.abi.index_heap_size
    then (if ltb 0 total_mem then record info { value = os.abi.to_data total_mem } else info)
    else if info.index == os.abi.index_heap_free
    then (if not (free_mem == unknown_free)
        then record info { value = os.abi.to_data free_mem }
        else if ltb 0 total_mem
        then record info { value = os.abi.to_data total_mem }
        else info)
    else info

module _ {os : Platform} where
  unfoldable pub read_fb : (ℕ → ℤ) → Object FbInfo → Cmd (Memory os) (ℕ × ℕ)
  read_fb readlink missing = λ m. fault
  read_fb readlink empty = λ m. fault
  read_fb readlink (holds fb) = pure (fb_kib readlink fb)

  -- After a failure `finish` reads the fields of `fb_share_data`, which nothing has written.
  unfoldable pub use_addr : (ℕ → ℤ) → Addr → Cmd (Memory os) (ℕ × ℕ)
  unfolding read_fb
  use_addr readlink null m = fault
  use_addr readlink map_failed m = fault
  use_addr readlink (mapped k) m = read_fb readlink (m.shm k) m

  unfoldable pub get_fb_info : FbCalls → ℕ → Cmd (Memory os) (ℕ × ℕ)
  unfolding use_addr
  get_fb_info sys device_id m =
      let r = create_shm_addr zeroed_fb sys.shm_calls device_id m.shm in
      use_addr sys.readlink r.addr (record m { shm = r.shm })

  -- The loop over the entries: past the caller's memory it reads what is not there.
  unfoldable pub fill_loop :
      (total_mem free_mem n : ℕ) → List FbEntry → Cmd (Memory os) (List FbEntry)
  fill_loop total_mem free_mem zero xs = pure xs
  fill_loop total_mem free_mem (suc n) [] = λ m. fault
  fill_loop total_mem free_mem (suc n) (info ∷ xs) = do
    rest ← fill_loop total_mem free_mem n xs
    pure (fill os total_mem free_mem info ∷ rest)

  -- `device_id` by the handle, between `pthread_mutex_lock` and `pthread_mutex_unlock`
  unfoldable pub device_of : ℕ → Cmd (Memory os) ℕ
  unfolding lock unlock find_device
  device_of handle = do
    lock
    device_id ← (λ m. ok (find_device handle (os.rm.entries m.dev.rm_mem_list)) m)
    unlock
    pure device_id

  unfoldable pub fill_params : FbCalls → ℕ → FbList → Cmd (Memory os) FbList
  fill_params sys device_id params = do
    (total_mem, free_mem) ← get_fb_info sys device_id
    xs ← fill_loop total_mem free_mem params.fb_info_list_size params.fb_info_list
    pure (record params { fb_info_list = xs })

  -- Only where the handle belongs to a device.
  unfoldable pub fill_known : FbCalls → ℕ → FbList → Cmd (Memory os) FbList
  fill_known sys device_id params =
      if device_id == no_device then pure params else fill_params sys device_id params

  unfoldable pub post_rm_control_fb_get_info : FbCalls → ℕ → FbList → Cmd (Memory os) (ℤ × FbList)
  post_rm_control_fb_get_info sys handle params = do
    device_id ← device_of handle
    params' ← fill_known sys device_id params
    pure (pos 0, params')

  unfoldable pub post_rm_control_fb_get_info_v2 :
      FbCalls → ℕ → FbList → Cmd (Memory os) (ℤ × FbList)
  post_rm_control_fb_get_info_v2 sys handle params = do
    device_id ← device_of handle
    params' ← fill_known sys device_id params
    pure (pos 0, params')

  unfoldable pub get_info : FbCalls → ControlParams → Cmd (Memory os) (ℤ × ControlParams)
  get_info sys api = do
    (ret, params) ← post_rm_control_fb_get_info sys api.h_object api.params
    pure (ret, record api { params = params })

  unfoldable pub get_info_v2 : FbCalls → ControlParams → Cmd (Memory os) (ℤ × ControlParams)
  get_info_v2 sys api = do
    (ret, params) ← post_rm_control_fb_get_info_v2 sys api.h_object api.params_v2
    pure (ret, record api { params_v2 = params })

  unfoldable pub post_rm_control : FbCalls → ℕ → ControlParams → Cmd (Memory os) (ℤ × ControlParams)
  post_rm_control sys minor api =
      if not (minor == nvidia_ctl_minor)
      then pure (neg os.abi.einval, api)
      else if not (api.status == os.abi.nv_ok)
      then pure (pos 0, api)
      else if api.cmd == os.abi.cmd_fb_get_info
      then get_info sys api
      else if api.cmd == os.abi.cmd_fb_get_info_v2
      then get_info_v2 sys api
      else pure (pos 0, api)

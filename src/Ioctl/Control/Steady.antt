-- ===== src/Ioctl/Control/Steady.antt =====
-- `post_rm_control_fb_get_info`, its second version and `post_rm_control`.
use nv_resource_controller.Prelude.{ℕ, ◌≤◌, ◌≡◌, refl, false, length, arith}
use nv_resource_controller.Prelude.Int.{ℤ, pos}
use nv_resource_controller.Prelude.Run.{Returns, Returns-and_then, ok}
use nv_resource_controller.Platform.{Platform}
use nv_resource_controller.Hook.Memory.{Memory}
use nv_resource_controller.Util.ShmAddr.Up.{IsUp}
use nv_resource_controller.Ioctl.Params.{FbList, ControlParams}
use nv_resource_controller.Ioctl.Account.{IsSteady}
use nv_resource_controller.Ioctl.Ledger.{Moves, same}
use nv_resource_controller.Ioctl.Alloc.{find_device}
use nv_resource_controller.Ioctl.Control.{
  FbCalls, device_of, post_rm_control_fb_get_info, post_rm_control_fb_get_info_v2, get_info,
  get_info_v2, post_rm_control, fill_known,
}
use nv_resource_controller.Ioctl.Control.Fill.{Reports, fill_known_lem}

-- There is memory for as many entries as the count says.
abbrev pub Fits : FbList → Type 0
Fits params = params.fb_info_list_size ≤ length params.fb_info_list

module _ {os : Platform} where
  -- The device that a handle stands for in the process.
  abbrev pub device_at : ℕ → Memory os → ℕ
  device_at handle m = find_device handle (os.rm.entries m.dev.rm_mem_list)

  device_of_lem :
      (handle : ℕ) (m : Memory os)
      → m.dev.mu ≡ false
      → device_of handle m ≡ ok (device_at handle m) m
  unfolding device_of
  device_of_lem handle m u = ground arith

  -- The outcome of a `fb_get_info` handler: 0, the report of the handle's device, and a steady
  -- account.
  abbrev pub Answers :
      (k q : ℕ) → FbCalls → ℕ → FbList → Memory os → ℤ × FbList → Memory os → Type 0
  Answers k q sys handle params m (ret, params') m' =
      (ret ≡ pos 0) × Reports k q sys (device_at handle m) m params params' m'

  module _ {k q : ℕ} (sys : FbCalls) (m : Memory os) (up : IsUp sys.shm_calls)
      (s : IsSteady k q m) where
    -- From an account in order, where no call on shared memory fails and there is memory for the
    -- entries that the count covers, `post_rm_control_fb_get_info` returns 0, keeps the account,
    -- and fills the entries of the handle's device.
    pub post_rm_control_fb_get_info-Answers :
        (handle : ℕ) (params : FbList)
        → Fits params
        → Returns
            (Answers k q sys handle params m)
            (post_rm_control_fb_get_info sys handle params m)
    unfolding post_rm_control_fb_get_info
    post_rm_control_fb_get_info-Answers handle params fits = rw (device_of_lem handle m s.0) (
        Returns-and_then (Reports k q sys (device_at handle m) m params)
          (Answers k q sys handle params m) (fill_known sys (device_at handle m) params m) _
          (fill_known_lem sys (device_at handle m) params m up s fits) λ _ _ r. (refl, r))

    -- The second version does the same.
    post_rm_control_fb_get_info_v2_lem :
        (handle : ℕ) (params : FbList)
        → Fits params
        → Returns
            (Answers k q sys handle params m)
            (post_rm_control_fb_get_info_v2 sys handle params m)
    unfolding post_rm_control_fb_get_info_v2
    post_rm_control_fb_get_info_v2_lem handle params fits = rw (device_of_lem handle m s.0) (
        Returns-and_then (Reports k q sys (device_at handle m) m params)
          (Answers k q sys handle params m) (fill_known sys (device_at handle m) params m) _
          (fill_known_lem sys (device_at handle m) params m up s fits) λ _ _ r. (refl, r))

    get_info-Moves :
        (api : ControlParams)
        → Fits api.params
        → Returns (λ _ m'. Moves k q 0 m m') (get_info sys api m)
    unfolding get_info
    get_info-Moves api fits =
        Returns-and_then (Answers k q sys api.h_object api.params m) (λ _ m'. Moves k q 0 m m')
          (post_rm_control_fb_get_info sys api.h_object api.params m) _
          (post_rm_control_fb_get_info-Answers api.h_object api.params fits) λ _ _ r. r.1.1

    get_info_v2-Moves :
        (api : ControlParams)
        → Fits api.params_v2
        → Returns (λ _ m'. Moves k q 0 m m') (get_info_v2 sys api m)
    unfolding get_info_v2
    get_info_v2-Moves api fits =
        Returns-and_then (Answers k q sys api.h_object api.params_v2 m) (λ _ m'. Moves k q 0 m m')
          (post_rm_control_fb_get_info_v2 sys api.h_object api.params_v2 m) _
          (post_rm_control_fb_get_info_v2_lem api.h_object api.params_v2 fits) λ _ _ r. r.1.1

    stay : Moves k q 0 m m
    stay = (s, same refl)

    -- `post_rm_control` keeps the account on every branch.
    pub post_rm_control-Moves :
        (minor : ℕ) (api : ControlParams)
        → Fits api.params
        → Fits api.params_v2
        → Returns (λ _ m'. Moves k q 0 m m') (post_rm_control sys minor api m)
    unfolding post_rm_control
    post_rm_control-Moves minor api fits fits_v2 =
        ground (arith, get_info-Moves api fits, get_info_v2-Moves api fits_v2, stay)

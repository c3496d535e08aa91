-- ===== src/Util/DeviceNumber.antt =====
-- `get_device_number` of src/util.c.
use nv_resource_controller.Prelude.{ℕ, not, bit_and, ◌==◌, if◌then◌else◌}
use nv_resource_controller.Prelude.Int.{ℤ, pos, negsuc, is_neg}

-- `struct stat`, the fields that are read
pub record Stat : Type 0 where
  pub st_mode : ℕ
  pub st_rdev : ℕ

-- `fstat`, and the constants and macros of sys/stat.h and sys/sysmacros.h
pub record StatCalls : Type 0 where
  pub fstat : ℕ → ℤ × Stat
  pub s_ifmt : ℕ
  pub s_ifchr : ℕ
  pub major : ℕ → ℕ
  pub minor : ℕ → ℕ

-- `ret`, `*major` and `*minor`, from the values that the caller's variables have
unfoldable pub get_device_number : StatCalls → ℕ → (major minor : ℕ) → ℤ × ℕ × ℕ
get_device_number sys fd major minor =
    let (ret, st) = sys.fstat fd in
    if is_neg ret
    then (ret, major, minor)
    else if not (bit_and st.st_mode sys.s_ifmt == sys.s_ifchr)
    then (negsuc 0, 0, 0)
    else (pos 0, sys.major st.st_rdev, sys.minor st.st_rdev)

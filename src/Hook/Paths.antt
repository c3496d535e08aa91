-- ===== src/Hook/Paths.antt =====
-- The names of the shared-memory objects: `HOOK_SHM_PATH_PATTERN` and `HOOK_SHM_FB_MEM_PATH_PATTERN` of
-- include/hook.h, as `sprintf` fills them.
pub mod Apart
use nv_resource_controller.Prelude.{
  ℕ, zero, suc, ◌+◌, ◌-◌, ◌*◌, ◌/◌, ◌%◌, ◌^◌, ◌<◌, ◌≤◌, ◌≡◌, refl, sym, ap, ◌∙◌, Bool, true, false,
  List, [], ◌∷◌, ◌++◌, if◌then◌else◌, ltb, arith, Bool-cases, inl, inr,
}
use nv_resource_controller.Prelude.Text.{Text, Lacks}

-- A digit of `%x`
abbrev pub hex_digit : ℕ → ℕ
hex_digit d = if ltb d 10 then 48 + d else 87 + d

-- `%x`, of a number below 16 ^ `digits`
unfoldable pub hex_digits : (digits : ℕ) → ℕ → Text
hex_digits zero n = []
hex_digits (suc k) n =
    let rest = hex_digits k (n / 16) in
    if ltb n 16 then hex_digit n ∷ [] else rest ++ hex_digit (n % 16) ∷ []

-- `%x` of an `uint32_t`
unfoldable pub hex : ℕ → Text
unfolding hex_digits
hex n = hex_digits 8 n

-- '.'
abbrev pub dot : ℕ
dot = 46

-- "/cuda_hook"
abbrev pub hook_prefix : Text
hook_prefix = 47 ∷ 99 ∷ 117 ∷ 100 ∷ 97 ∷ 95 ∷ 104 ∷ 111 ∷ 111 ∷ 107 ∷ []

-- `HOOK_SHM_PATH_PATTERN`: "/cuda_hook.%x.%s"
unfoldable pub shm_path : (minor : ℕ) (cgroup_id : Text) → Text
unfolding hex
shm_path minor cgroup_id = hook_prefix ++ dot ∷ (hex minor ++ dot ∷ cgroup_id)

-- `HOOK_SHM_FB_MEM_PATH_PATTERN`: "/cuda_hook_fb.%x"
unfoldable pub fb_path : (minor : ℕ) → Text
unfolding hex
fb_path minor = hook_prefix ++ 95 ∷ 102 ∷ 98 ∷ dot ∷ hex minor

-- ===== src/Util/Cgroup.antt =====
-- `get_cgroup_id` of src/util.c.
pub mod Name
pub mod Short
use nv_resource_controller.Prelude.{
  ℕ, zero, suc, ◌-◌, Option, none, some, List, [], ◌∷◌, length, get_elem?, take, drop, ◌==◌, ltb,
  if◌then◌else◌,
}
use nv_resource_controller.Prelude.Int.{ℤ, pos, negsuc}
use nv_resource_controller.Prelude.Run.{Cmd, ok, fault, pure, ◌>>=◌, ◌>>◌}
use nv_resource_controller.Prelude.Text.{Text, c_string, strstr}

-- "devices"
abbrev pub devices : Text
devices = 100 ∷ 101 ∷ 118 ∷ 105 ∷ 99 ∷ 101 ∷ 115 ∷ []

-- '/'
abbrev pub slash : ℕ
slash = 47

abbrev is_slash : Option ℕ → Option ℕ → Option ℕ → Option ℕ
is_slash none past rest = rest
is_slash (some c) past rest = if c == slash then past else rest

-- The `for` over the buffer from `i - 1` down: the place after the last slash, `none` for -1.
unfoldable pub last_slash : List ℕ → ℕ → Option ℕ
last_slash buffer zero = none
last_slash buffer (suc i) =
    let rest = last_slash buffer i in is_slash (get_elem? buffer i) (some (suc i)) rest

-- `MIN`
abbrev pub min_of : ℕ → ℕ → ℕ
min_of a b = if ltb a b then a else b

-- `strncpy(short_id, line + i, max_copy)` and the terminating 0; the state is the string in
-- `short_id`.
copy_id : ℕ → Text → Cmd Text ℤ
copy_id max_copy id short_id = if max_copy == 0 then fault else ok (pos 0) (take (max_copy - 1) id)

-- The block under `if (i >= 0)`, or the next line.
copy_from : (id_len : ℕ) → List ℕ → Option ℕ → Cmd Text ℤ → Cmd Text ℤ
unfolding copy_id c_string
copy_from id_len buffer none next = next
copy_from id_len buffer (some i) next =
    copy_id (min_of (length buffer - i) id_len) (c_string (drop i buffer))

-- The loop over the lines. A line is the whole buffer that `getline` has filled, whose size `len` is:
-- the line, its 0, and what stood behind it.
unfoldable pub read_lines : (id_len : ℕ) → List (List ℕ) → Cmd Text ℤ
unfolding copy_from last_slash strstr c_string
read_lines id_len [] = pure (negsuc 0)
read_lines id_len (buffer ∷ lines) =
    let next = read_lines id_len lines in
    if strstr (c_string buffer) devices
    then copy_from id_len buffer (last_slash buffer (length buffer)) next
    else next

-- `none` is a file that cannot be opened.
unfoldable pub get_cgroup_id : Option (List (List ℕ)) → (id_len : ℕ) → Cmd Text ℤ
unfolding read_lines
get_cgroup_id none id_len = pure (negsuc 0)
get_cgroup_id (some lines) id_len = read_lines id_len lines

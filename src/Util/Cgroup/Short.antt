-- ===== src/Util/Cgroup/Short.antt =====
-- The id fits the buffer.
use nv_resource_controller.Prelude.{
  ℕ, zero, suc, ◌-◌, ◌≤◌, ◌≡◌, refl, Option, none, some, List, [], ◌∷◌, length, take, drop, ◌==◌,
  arith, Bool-cases, inl, inr,
}
use nv_resource_controller.Prelude.Int.{ℤ, pos, negsuc}
use nv_resource_controller.Prelude.Run.{Run, Cmd, ok, fault, blocked, exited}
use nv_resource_controller.Prelude.Text.{Text, c_string, strstr}
use nv_resource_controller.Util.Cgroup.{
  devices, last_slash, copy_id, copy_from, read_lines, get_cgroup_id,
}

-- What a run leaves is what was there, or at most `bound` bytes.
abbrev pub LeavesAtMost : ℕ → Text → Run Text ℤ → Type 0
LeavesAtMost bound before (ok (pos n) id) = length id ≤ bound
LeavesAtMost bound before (ok (negsuc n) id) = id ≡ before
LeavesAtMost bound before fault = Unit {0}
LeavesAtMost bound before blocked = Unit {0}
LeavesAtMost bound before exited = Unit {0}

length-take : (n : ℕ) (xs : Text) → length (take n xs) ≤ n
length-take zero xs = omega arith
length-take (suc n) [] = omega arith
length-take (suc n) (x ∷ xs) = omega (arith, length-take n xs)

copy_id_short :
    (n bound : ℕ) (id before : Text)
    → n - 1 ≤ bound
    → LeavesAtMost bound before (copy_id n id before)
unfolding copy_id
copy_id_short n bound id before h = elim (Bool-cases (n == 0)) [
  | inl e ↦ rw e tt
  | inr e ↦ rw e (omega (arith, length-take (n - 1) id))
]

copy_from_short :
    (id_len : ℕ) (buffer : List ℕ) (i : Option ℕ) (next : Cmd Text ℤ) (before : Text)
    → LeavesAtMost (id_len - 1) before (next before)
    → LeavesAtMost (id_len - 1) before (copy_from id_len buffer i next before)
unfolding copy_from
copy_from_short id_len buffer none next before h = h
copy_from_short id_len buffer (some i) next before h =
    copy_id_short _ (id_len - 1) (c_string (drop i buffer)) before (ground arith)

read_lines_short :
    (id_len : ℕ) (lines : List (List ℕ)) (before : Text)
    → LeavesAtMost (id_len - 1) before (read_lines id_len lines before)
unfolding read_lines
read_lines_short id_len [] before = refl
read_lines_short id_len (buffer ∷ lines) before =
    elim (Bool-cases (strstr (c_string buffer) devices)) [
      | inl e ↦ rw e (
          copy_from_short id_len buffer (last_slash buffer (length buffer))
            (read_lines id_len lines) before (read_lines_short id_len lines before))
      | inr e ↦ rw e (read_lines_short id_len lines before)
    ]

-- Whatever the file, an id that is copied has less than `id_len` bytes.
pub get_cgroup_id_short :
    (lines : Option (List (List ℕ))) (id_len : ℕ) (before : Text)
    → LeavesAtMost (id_len - 1) before (get_cgroup_id lines id_len before)
unfolding get_cgroup_id
get_cgroup_id_short none id_len before = refl
get_cgroup_id_short (some lines) id_len before = read_lines_short id_len lines before

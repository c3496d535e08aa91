-- ===== src/Util/Cgroup/Name.antt =====
-- Which part of which line `get_cgroup_id` copies.
use mathlib.Core.List.{append_assoc}
use nv_resource_controller.Prelude.{
  Bool-cases, inl, inr, ltb→lt, ℕ, zero, suc, ◌+◌, ◌-◌, ◌≤◌, ◌<◌, ◌≡◌, ◌≢◌, refl, true, false, some,
  List, [], ◌∷◌, ◌++◌, length, get_elem?, take, drop, length-append, All, ltb, arith, ◌∙◌, sym, ap,
}
use nv_resource_controller.Prelude.Int.{pos}
use nv_resource_controller.Prelude.Run.{ok}
use nv_resource_controller.Prelude.Text.{Text, Lacks, c_string, c_string-append, strstr}
use nv_resource_controller.Util.Cgroup.{
  devices, slash, last_slash, min_of, read_lines, get_cgroup_id,
}

-- The bytes behind the first part, and behind one that lacks a byte.
get_elem?-append :
    {A : Type 0} (xs ys : List A) (i : ℕ) → get_elem? (xs ++ ys) (length xs + i) ≡ get_elem? ys i
get_elem?-append [] ys i = ground arith
get_elem?-append (x ∷ xs) ys i =
    let e : suc (length xs) + i ≡ suc (length xs + i) = omega arith in
    rw e (get_elem?-append xs ys i)

get_elem?-ne : (c : ℕ) (xs : List ℕ) (i : ℕ) → Lacks c xs → get_elem? xs i ≢ some c
get_elem?-ne c [] i h = ground arith
get_elem?-ne c (x ∷ xs) zero h = ground arith
get_elem?-ne c (x ∷ xs) (suc i) h = get_elem?-ne c xs i h.1

-- A byte that is a slash, with none behind it.
last_slash-at :
    (buffer : List ℕ) (i n : ℕ)
    → get_elem? buffer i ≡ some slash
    → ((j : ℕ) → get_elem? buffer (suc (i + j)) ≢ some slash)
    → last_slash buffer (suc (i + n)) ≡ some (suc i)
unfolding last_slash
last_slash-at buffer i zero e ne = let p : i + 0 ≡ i = omega arith in rw (p, e) refl
last_slash-at buffer i (suc n) e ne =
    let p : i + suc n ≡ suc (i + n) = omega arith in
    rw p (ground (arith, ne n, last_slash-at buffer i n e ne))

-- The buffer `before/id`, where `id` has no slash.
last_slash-append :
    (before id : List ℕ)
    → Lacks slash id
    → last_slash (before ++ slash ∷ id) (length (before ++ slash ∷ id)) ≡ some (suc (length before))
last_slash-append before id h =
    let buffer : List ℕ = before ++ slash ∷ id in
    let at : (get_elem? buffer (length before) ≡ some slash) =
      let p : length before ≡ length before + 0 = omega arith in
      rw p (get_elem?-append before (slash ∷ id) 0) in
    let size : (length buffer ≡ suc (length before + length id)) =
      omega (arith, length-append {0} before (slash ∷ id)) in
    rw size (
      last_slash-at buffer (length before) (length id) at λ j.
        let p : suc (length before + j) ≡ length before + suc j = omega arith in
        rw (p, get_elem?-append before (slash ∷ id) (suc j)) (get_elem?-ne slash id j h))

drop-past :
    (before : List ℕ) (c : ℕ) (tail : List ℕ)
    → drop (suc (length before)) (before ++ c ∷ tail) ≡ tail
drop-past [] c tail = refl
drop-past (x ∷ xs) c tail = drop-past xs c tail

take_all : (xs : List ℕ) (n : ℕ) → length xs ≤ n → take n xs ≡ xs
take_all [] zero h = refl
take_all [] (suc n) h = refl
take_all (x ∷ xs) zero h = absurd (omega arith)
take_all (x ∷ xs) (suc n) h = ap (λ ys. x ∷ ys) (take_all xs n (omega arith))

pub Lacks-append : (c : ℕ) (xs ys : List ℕ) → Lacks c xs → Lacks c ys → Lacks c (xs ++ ys)
Lacks-append c [] ys h k = k
Lacks-append c (x ∷ xs) ys h k = (h.0, Lacks-append c xs ys h.1 k)

cut :
    (id : List ℕ) (size id_len : ℕ)
    → length id < size
    → take (min_of size id_len - 1) id ≡ take (id_len - 1) id
cut id size id_len h = elim (Bool-cases (ltb size id_len)) [
  | inl e ↦
      rw
        (
          e,
          take_all id (size - 1) (omega arith),
          take_all id (id_len - 1) (omega (arith, ltb→lt size id_len e)),
        )
        refl
  | inr e ↦ rw e refl
]

-- A line that does not name the controller.
abbrev pub IsOther : List ℕ → Type 0
IsOther buffer = strstr (c_string buffer) devices ≡ false

read_lines-append :
    (id_len : ℕ) (skipped lines : List (List ℕ)) (short_id : Text)
    → All IsOther skipped
    → read_lines id_len (skipped ++ lines) short_id ≡ read_lines id_len lines short_id
unfolding read_lines
read_lines-append id_len [] lines short_id h = refl
read_lines-append id_len (buffer ∷ skipped) lines short_id h =
    rw (h.0) (read_lines-append id_len skipped lines short_id h.1)

module _ (skipped after : List (List ℕ)) (before tail : List ℕ) (id_len : ℕ) (short_id : Text)
    (other : All IsOther skipped) (room : 1 ≤ id_len) where
  -- Of the first buffer whose line names the controller `devices`, the string behind the last slash
  -- of the whole buffer is copied, cut to the room that there is: the bytes that an earlier and
  -- longer line has left behind the line's end count as well.
  pub get_cgroup_id_buffer :
      strstr (c_string (before ++ slash ∷ tail)) devices ≡ true
      → Lacks slash tail
      → 1 ≤ length tail
      → get_cgroup_id (some (skipped ++ (before ++ slash ∷ tail) ∷ after)) id_len short_id
        ≡ ok (pos 0) (take (min_of (length tail) id_len - 1) (c_string tail))
  unfolding get_cgroup_id read_lines
  get_cgroup_id_buffer named h long =
      let size : (length (before ++ slash ∷ tail) - suc (length before) ≡ length tail) =
        omega (arith, length-append {0} before (slash ∷ tail)) in
      rw
        (
          read_lines-append id_len skipped ((before ++ slash ∷ tail) ∷ after) short_id other,
          named,
          last_slash-append before tail h,
          size,
          drop-past before slash tail,
        )
        (ground arith)

module _ (skipped after : List (List ℕ)) (before id stale : List ℕ) (id_len : ℕ) (short_id : Text)
    (other : All IsOther skipped) (room : 1 ≤ id_len) where
  -- With room for a byte, and if what stands behind the line's end holds no slash, the id is what
  -- stands behind the last slash in the first line that names `devices`, cut to `id_len - 1` bytes.
  get_cgroup_id_line :
      strstr (before ++ slash ∷ id) devices ≡ true
      → Lacks 0 before
      → Lacks 0 id
      → Lacks slash id
      → Lacks slash stale
      → get_cgroup_id
          (some (skipped ++ (before ++ slash ∷ (id ++ 0 ∷ stale)) ∷ after))
          id_len
          short_id
        ≡ ok (pos 0) (take (id_len - 1) id)
  get_cgroup_id_line named b z h clean =
      let tail : List ℕ = id ++ 0 ∷ stale in
      let size : (length tail ≡ length id + 1 + length stale) =
        omega (arith, length-append {0} id (0 ∷ stale)) in
      let line : (c_string (before ++ slash ∷ tail) ≡ before ++ slash ∷ id) =
        ap c_string (sym (append_assoc before (slash ∷ id) (0 ∷ stale)))
        ∙ c_string-append (before ++ slash ∷ id) stale
            (Lacks-append 0 before (slash ∷ id) b (omega arith, z)) in
      get_cgroup_id_buffer skipped after before tail id_len short_id other room (rw line named)
        (Lacks-append slash id (0 ∷ stale) h (omega arith, clean)) (omega arith)
      ∙ ap (ok (pos 0))
          (rw (c_string-append id stale z) (cut id (length tail) id_len (omega arith)))

-- The byte that `getline` leaves at the end of each line.
abbrev pub newline : ℕ
newline = 10

-- Of a file where no line before names `devices`, with room for a byte and no slash behind the line's
-- end in the buffer: the id is the last component of the path in the first line that names `devices`
-- together with the newline that ends the line, cut to `id_len - 1` bytes.
pub get_cgroup_id_lem :
    (skipped after : List (List ℕ)) (before id stale : List ℕ) (id_len : ℕ) (short_id : Text)
    → All IsOther skipped
    → 1 ≤ id_len
    → strstr (before ++ slash ∷ (id ++ newline ∷ [])) devices ≡ true
    → Lacks 0 before
    → Lacks 0 id
    → Lacks slash id
    → Lacks slash stale
    → get_cgroup_id
        (some (skipped ++ (before ++ slash ∷ ((id ++ newline ∷ []) ++ 0 ∷ stale)) ∷ after))
        id_len
        short_id
      ≡ ok (pos 0) (take (id_len - 1) (id ++ newline ∷ []))
get_cgroup_id_lem skipped after before id stale id_len short_id other room named b z h clean =
    get_cgroup_id_line skipped after before (id ++ newline ∷ []) stale id_len short_id other room
      named b (Lacks-append 0 id (newline ∷ []) z (omega arith, tt))
      (Lacks-append slash id (newline ∷ []) h (omega arith, tt)) clean

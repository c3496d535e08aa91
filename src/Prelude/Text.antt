-- ===== src/Prelude/Text.antt =====
-- C strings as their bytes, without the terminating 0, and the functions of libc on them that the
-- program calls.
use Prim.Native.Nat.{ℕ}
use mathlib.Core.Path.{◌≡◌, refl}
use mathlib.Core.Logic.{◌≢◌}
use mathlib.Core.Bool.{Bool, true, false, ◌&&◌, ◌||◌}
use mathlib.Core.Option.{Option, none, some}
use mathlib.Core.List.{List, [], ◌∷◌, ◌++◌}
use native.Mathlib.Omega.{arith}
use nv_resource_controller.Prelude.Lists.{length}
use nv_resource_controller.Prelude.Tests.{leb, ◌==◌, if◌then◌else◌}

abbrev pub Text : Type 0
Text = List ℕ

-- No byte of the text is `c`.
abbrev pub Lacks : ℕ → Text → Type 0
Lacks c [] = Unit {0}
Lacks c (x ∷ xs) = (x ≢ c) × Lacks c xs

-- The string that begins at the head of a buffer.
unfoldable pub c_string : List ℕ → Text
c_string [] = []
c_string (x ∷ xs) = if x == 0 then [] else x ∷ c_string xs

pub c_string-append :
    (text : Text) (rest : List ℕ) → Lacks 0 text → c_string (text ++ 0 ∷ rest) ≡ text
unfolding c_string
c_string-append [] rest h = refl
c_string-append (x ∷ xs) rest h = ground (arith, c_string-append xs rest h.1)

-- `strchr`: the string from the first `c` on
unfoldable pub strchr : Text → ℕ → Option Text
strchr [] c = none
strchr (x ∷ xs) c = if x == c then some (x ∷ xs) else strchr xs c

unfoldable pub starts_with : Text → Text → Bool
starts_with [] text = true
starts_with (x ∷ xs) [] = false
starts_with (x ∷ xs) (y ∷ ys) = (x == y) && starts_with xs ys

-- `strstr(text, part) != NULL`
unfoldable pub strstr : Text → Text → Bool
unfolding starts_with
strstr [] part = starts_with part []
strstr (x ∷ xs) part = starts_with part (x ∷ xs) || strstr xs part

-- `isspace` in the C locale
abbrev pub is_space : ℕ → Bool
is_space c = (c == 32) || (leb 9 c && leb c 13)

abbrev pub is_digit : ℕ → Bool
is_digit c = leb 48 c && leb c 57

-- `strcmp(a, b) == 0`
unfoldable pub eq_text : Text → Text → Bool
eq_text [] [] = true
eq_text [] (y ∷ ys) = false
eq_text (x ∷ xs) [] = false
eq_text (x ∷ xs) (y ∷ ys) = (x == y) && eq_text xs ys

pub eq_text-length : (a b : Text) → eq_text a b ≡ true → length a ≡ length b
unfolding eq_text
eq_text-length [] [] h = refl
eq_text-length [] (y ∷ ys) h = cc
eq_text-length (x ∷ xs) [] h = cc
eq_text-length (x ∷ xs) (y ∷ ys) h = ground (arith, eq_text-length xs ys)

pub eq_text-equal : (a b : Text) → eq_text a b ≡ true → a ≡ b
unfolding eq_text
eq_text-equal [] [] h = refl
eq_text-equal [] (y ∷ ys) h = cc
eq_text-equal (x ∷ xs) [] h = cc
eq_text-equal (x ∷ xs) (y ∷ ys) h =
    let first : (x ≡ y) = ground arith in let rest = eq_text-equal xs ys (ground arith) in cc

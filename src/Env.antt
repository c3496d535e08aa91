-- ===== src/Env.antt =====
-- src/env.c: the limits of the process in its environment.
pub mod Parsed
use nv_resource_controller.Prelude.{
  ℕ, zero, suc, ◌+◌, ◌-◌, ◌*◌, ◌%◌, ◌^◌, Bool, true, false, not, Option, none, some, List, [], ◌∷◌,
  take, leb, ◌==◌, if◌then◌else◌,
}
use nv_resource_controller.Prelude.Int.{ℤ, pos, negsuc, is_nonzero}
use nv_resource_controller.Prelude.Run.{Cmd, ok, fault, pure, ◌>>=◌, ◌>>◌}
use nv_resource_controller.Prelude.Text.{Text, is_space, is_digit}
use nv_resource_controller.Util.Iec.{Double, iec_to_bytes}

-- `CUDA_MEM_LIMIT` and `CUDA_CORE_LIMIT`
pub data Name : Type 0 where
  cuda_mem_limit : Name
  cuda_core_limit : Name

-- `getenv` and `atoi`
pub record EnvCalls : Type 0 where
  pub getenv : Name → Option Text
  pub atoi : Text → ℤ

-- `sscanf(str, "%u=%15s", ...)` of libc, by its parts; the result is there when it returns 2.
skip_space : Text → Text
skip_space [] = []
skip_space (c ∷ text) = if is_space c then skip_space text else c ∷ text

-- The sign that `%u` admits: is it a minus?
take_sign : Text → Bool × Text
take_sign [] = (false, [])
take_sign (c ∷ text) =
    if c == 45 then (true, text) else if c == 43 then (false, text) else (false, c ∷ text)

unfoldable pub take_digits : ℕ → Text → ℕ × Text
take_digits acc [] = (acc, [])
take_digits acc (c ∷ text) =
    let rest = take_digits (acc * 10 + (c - 48)) text in
    if is_digit c then rest else (acc, c ∷ text)

-- An `unsigned long` cut to an `unsigned int`; what does not fit is `ULONG_MAX`.
abbrev pub as_uint : Bool → ℕ → ℕ
as_uint minus n =
    (if leb (2 ^ 64) n then 2 ^ 64 - 1 else if minus then (2 ^ 64 - n) % 2 ^ 64 else n) % 2 ^ 32

abbrev starts_with_digit : Text → Bool
starts_with_digit [] = false
starts_with_digit (c ∷ text) = is_digit c

unfoldable pub take_word : ℕ → Text → Text
take_word zero text = []
take_word (suc n) [] = []
take_word (suc n) (c ∷ text) = if is_space c then [] else c ∷ take_word n text

non_empty : ℕ → Text → Option (ℕ × Text)
non_empty minor [] = none
non_empty minor (c ∷ text) = some (minor, c ∷ text)

scan_word : ℕ → Text → Option (ℕ × Text)
unfolding skip_space take_word non_empty
scan_word minor [] = none
scan_word minor (c ∷ text) =
    if c == 61 then non_empty minor (take_word 15 (skip_space text)) else none

scan_number : Bool × Text → Option (ℕ × Text)
unfolding take_digits scan_word
scan_number (minus, text) =
    if starts_with_digit text
    then (let (n, rest) = take_digits 0 text in scan_word (as_uint minus n) rest)
    else none

unfoldable pub sscanf : Text → Option (ℕ × Text)
unfolding skip_space take_sign scan_number
sscanf str = scan_number (take_sign (skip_space str))

-- What the callers pass by reference: `minor`, `none` for a null pointer, and `limit`, `none` as
-- long as nothing has written it.
pub record Limits : Type 0 where
  pub minor : Option ℕ
  pub limit : Option ℕ

-- `if (likely(minor)) *minor = _minor;`
abbrev pub set_minor : Option ℕ → ℕ → Option ℕ
set_minor none n = none
set_minor (some m) n = some n

scanned : Option (ℕ × Text) → Cmd Limits (ℤ × Text)
scanned none s = ok (negsuc 0, []) s
scanned (some (n, data_text)) s = ok (pos 0, data_text) (record s { minor = set_minor s.minor n })

found : Option Text → Cmd Limits (ℤ × Text)
unfolding sscanf scanned
found none = pure (negsuc 0, [])
found (some str) = scanned (sscanf str)

-- `get_limit`: its result and `data`
unfoldable pub get_limit : EnvCalls → Name → Cmd Limits (ℤ × Text)
unfolding found
get_limit env name = found (env.getenv name)

-- `*limit = ...`
set_limit : Option ℕ → Cmd Limits (Unit {0})
set_limit none s = fault
set_limit (some n) s = ok tt (record s { limit = some n })

unfoldable pub get_mem_limit : Double → EnvCalls → Cmd Limits ℤ
unfolding get_limit set_limit iec_to_bytes
get_mem_limit d env = do
  (ret, tmp) ← get_limit env cuda_mem_limit
  if is_nonzero ret then pure ret else (set_limit (iec_to_bytes d tmp) >> pure (pos 0))

-- An `int` as a `size_t`.
abbrev pub as_size_t : ℤ → ℕ
as_size_t (pos n) = n
as_size_t (negsuc n) = 2 ^ 64 - 1 - n

unfoldable pub get_core_limit : EnvCalls → Cmd Limits ℤ
unfolding get_limit set_limit
get_core_limit env = do
  (ret, tmp) ← get_limit env cuda_core_limit
  if is_nonzero ret then pure ret else (set_limit (some (as_size_t (env.atoi tmp))) >> pure (pos 0))

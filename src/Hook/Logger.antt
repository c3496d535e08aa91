-- ===== src/Hook/Logger.antt =====
-- `log_level_enum_t` and `LOGGER` of include/hook.h.
use nv_resource_controller.Prelude.{
  ℕ, ◌%◌, ◌^◌, ◌≡◌, refl, Bool, true, not, Option, none, some, if◌then◌else◌, arith,
}
use nv_resource_controller.Prelude.Int.{ℤ, pos, negsuc, is_neg, ltb_ℤ}
use nv_resource_controller.Prelude.Run.{Cmd, exited, pure, ◌>>◌}
use nv_resource_controller.Prelude.Text.{Text}
use nv_resource_controller.Token.{as_int32}

pub data LogLevel : Type 0 where
  info : LogLevel
  error : LogLevel
  warn : LogLevel
  fatal : LogLevel
  verbose : LogLevel
  detail : LogLevel

-- The values of the enumeration.
abbrev pub level_value : LogLevel → ℕ
level_value info = 0
level_value error = 1
level_value warn = 2
level_value fatal = 3
level_value verbose = 4
level_value detail = 5

-- `getenv("LOGGER_LEVEL")`, and `strtoul` in base 10.
pub record LogCalls : Type 0 where
  pub logger_level : Option Text
  pub strtoul : Text → ℕ

-- `_print_level`, of an `unsigned long` cut to an `int`
abbrev at_least_0 : ℤ → ℤ
at_least_0 (pos n) = pos n
at_least_0 (negsuc n) = pos 3

abbrev level_read : (Text → ℕ) → Option Text → ℤ
level_read strtoul none = pos 3
level_read strtoul (some text) = at_least_0 (as_int32 (strtoul text % 2 ^ 32))

unfoldable pub print_level : LogCalls → ℤ
print_level calls = level_read calls.strtoul calls.logger_level

-- `level <= _print_level`
unfoldable pub prints : LogCalls → LogLevel → Bool
unfolding print_level
prints calls level = not (ltb_ℤ (print_level calls) (pos (level_value level)))

-- What follows the line: `exit(-1)` at the level `FATAL`.
abbrev exit_if_fatal : {S : Type 0} → LogLevel → Cmd S (Unit {0})
exit_if_fatal info = pure tt
exit_if_fatal error = pure tt
exit_if_fatal warn = pure tt
exit_if_fatal fatal = λ s. exited
exit_if_fatal verbose = pure tt
exit_if_fatal detail = pure tt

-- `LOGGER(level, ...)`, whose line is written by `write`, which reads what is to be printed.
unfoldable pub logger : {S : Type 0} → LogCalls → LogLevel → Cmd S (Unit {0}) → Cmd S (Unit {0})
unfolding prints
logger calls level write = (if prints calls level then write else pure tt) >> exit_if_fatal level

level_read_lem : (strtoul : Text → ℕ) (v : Option Text) → is_neg (level_read strtoul v) ≡ Bool.false
level_read_lem strtoul none = refl
level_read_lem strtoul (some t) = ground arith

-- Whatever the environment says, a line of the level `INFO` is written.
pub prints-info : (calls : LogCalls) → prints calls info ≡ true
unfolding prints print_level
prints-info calls = ground (arith, level_read_lem calls.strtoul calls.logger_level)

-- ===== src/Util/Iec.antt =====
-- `iec_to_bytes` and `get_env_from` of src/util.c.
pub mod Units
use nv_resource_controller.Prelude.{
  ℕ, ◌^◌, ◌||◌, Option, none, some, List, [], ◌∷◌, map, ◌==◌, if◌then◌else◌,
}
use nv_resource_controller.Prelude.Text.{Text, strchr}

-- `double`, as far as `iec_to_bytes` computes with it, and `strtod` with the text behind the number.
-- `to_size_t` is `none` where C leaves the conversion undefined.
pub record Double : Type 1 where
  pub W : Type 0
  pub of_ulong : ℕ → W
  pub mul : W → W → W
  pub to_size_t : W → Option ℕ
  pub strtod : Text → W × Text

-- `*endptr`
abbrev pub head_of : Text → ℕ
head_of [] = 0
head_of (c ∷ text) = c

module _ (d : Double) where
  -- The `switch` on the suffix.
  scale : d.W → ℕ → d.W
  scale value c =
      if (c == 75) || (c == 107)
      then d.mul value (d.of_ulong (2 ^ 10))
      else if (c == 77) || (c == 109)
      then d.mul value (d.of_ulong (2 ^ 20))
      else if (c == 71) || (c == 103)
      then d.mul value (d.of_ulong (2 ^ 30))
      else if (c == 84) || (c == 116)
      then d.mul value (d.of_ulong (2 ^ 40))
      else value

  unfoldable pub iec_to_bytes : Text → Option ℕ
  unfolding scale
  iec_to_bytes iec_value =
      let (value, end) = d.strtod iec_value in d.to_size_t (scale value (head_of end))

-- `pos + 1`
abbrev rest_of : Text → Text
rest_of [] = []
rest_of (c ∷ text) = text

abbrev behind : Option Text → Option Text
behind none = none
behind (some text) = some (rest_of text)

unfoldable pub get_env_from : Text → Option Text
unfolding strchr
get_env_from str = behind (strchr str 61)

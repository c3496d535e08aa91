-- ===== src/Util/Iec/Units.antt =====
-- What the suffixes stand for.
use nv_resource_controller.Prelude.{
  ℕ, ◌*◌, ◌^◌, ◌≤◌, ◌<◌, ◌≡◌, refl, ◌||◌, some, [], ◌∷◌, ◌++◌, ◌==◌, if◌then◌else◌, arith,
}
use nv_resource_controller.Prelude.Text.{Text, Lacks, strchr}
use nv_resource_controller.Util.Iec.{Double, head_of, scale, iec_to_bytes, get_env_from}

-- A `double` is exact on whole numbers below `2 ^ 53` and on their multiples by the units, and is cut
-- to the same number where that is a `size_t`.
pub record IsExact (d : Double) : Type 0 where
  pub mul_lem :
      (n k : ℕ)
      → n < 2 ^ 53
      → k ≤ 40
      → d.mul (d.of_ulong n) (d.of_ulong (2 ^ k)) ≡ d.of_ulong (n * 2 ^ k)
  pub to_size_t_lem :
      (n k : ℕ)
      → n < 2 ^ 53
      → k ≤ 40
      → n * 2 ^ k < 2 ^ 64
      → d.to_size_t (d.of_ulong (n * 2 ^ k)) ≡ some (n * 2 ^ k)

-- The power of two that a suffix stands for.
abbrev pub exponent : ℕ → ℕ
exponent c =
    if (c == 75) || (c == 107)
    then 10
    else if (c == 77) || (c == 109)
    then 20
    else if (c == 71) || (c == 103)
    then 30
    else if (c == 84) || (c == 116)
    then 40
    else 0

exponent_bound : (c : ℕ) → exponent c ≤ 40
exponent_bound c = ground arith

module _ (d : Double) (exact : IsExact d) where
  scale_lem : (n c : ℕ) → n < 2 ^ 53 → scale d (d.of_ulong n) c ≡ d.of_ulong (n * 2 ^ exponent c)
  unfolding scale
  scale_lem n c small = ground (
    arith,
    exact.mul_lem n 10 small (omega arith),
    exact.mul_lem n 20 small (omega arith),
    exact.mul_lem n 30 small (omega arith),
    exact.mul_lem n 40 small (omega arith),
  )

  -- A whole number below `2 ^ 53` with a suffix K, M, G or T, in either case and whatever follows it,
  -- is that many times 1024, 1024², 1024³ or 1024⁴ bytes; with any other suffix or none it is bytes.
  pub iec_to_bytes_lem :
      (text end : Text) (n : ℕ)
      → d.strtod text ≡ (d.of_ulong n, end)
      → n < 2 ^ 53
      → n * 2 ^ exponent (head_of end) < 2 ^ 64
      → iec_to_bytes d text ≡ some (n * 2 ^ exponent (head_of end))
  unfolding iec_to_bytes
  iec_to_bytes_lem text end n e small fits =
      let c : ℕ = head_of end in
      rw (e, iec_to_bytes, scale_lem n c small)
        (exact.to_size_t_lem n (exponent c) small (exponent_bound c) fits)

-- The value of an assignment whose name has no `=`.
pub get_env_from_lem :
    (name value : Text) → Lacks 61 name → get_env_from (name ++ 61 ∷ value) ≡ some value
unfolding get_env_from strchr
get_env_from_lem [] value h = refl
get_env_from_lem (c ∷ name) value h = ground (arith, get_env_from_lem name value h.1)

-- ===== src/Ioctl/Align/Mask.antt =====
-- `&` with a mask of ones above `k` zeros, at every width: shifts and masks by doubling.
use Prim.Native.Nat.{min, digits, bit_and-bitwise}
use native.Mathlib.Decide.{dec_le}
use native.Mathlib.Nat.{pow-suc, one-le-pow}
use nv_resource_controller.Prelude.{
  ℕ, zero, suc, ◌+◌, ◌-◌, ◌*◌, ◌/◌, ◌%◌, ◌^◌, ◌≤◌, ◌<◌, ◌≡◌, refl, ap, ◌∙◌, sym, arith, bit_and,
}

-- `&` with as many digits to go as `n` says.
abbrev and_upto : ℕ → ℕ → ℕ → ℕ
and_upto n a b = digits (λ _. 0) min n a b

-- The count does not matter, as long as it is large enough.
and_upto_enough : (n m a b : ℕ) → a ≤ n → a ≤ m → and_upto n a b ≡ and_upto m a b
and_upto_enough n m zero b h g = and_upto_zero n ∙ sym (and_upto_zero m)
  where
    and_upto_zero : (n : ℕ) → and_upto n 0 b ≡ 0
    and_upto_zero zero = refl
    and_upto_zero (suc n) = refl
and_upto_enough zero m (suc a) b h g = absurd (omega arith)
and_upto_enough (suc n) zero (suc a) b h g = absurd (omega arith)
and_upto_enough (suc n) (suc m) (suc a) b h g =
    omega (arith, and_upto_enough n m (suc a / 2) (b / 2) (omega arith) (omega arith))

-- The lowest digit of `&`.
bit_and_double : (a b : ℕ) → bit_and a b ≡ 2 * bit_and (a / 2) (b / 2) + min (a % 2) (b % 2)
bit_and_double zero b = omega (arith, bit_and-bitwise 0 b, bit_and-bitwise 0 (b / 2))
bit_and_double (suc a) b =
    let half : ℕ = suc a / 2 in
    omega (
      arith,
      bit_and-bitwise (suc a) b,
      bit_and-bitwise half (b / 2),
      and_upto_enough a half half (b / 2) (omega arith) (omega arith),
    )

-- `v << j`
shl : ℕ → ℕ → ℕ
shl zero v = v
shl (suc j) v = 2 * shl j v

-- `j` ones
ones : ℕ → ℕ
ones zero = 0
ones (suc j) = 2 * ones j + 1

shl_lem : (j v : ℕ) → shl j v ≡ v * 2 ^ j
unfolding shl
shl_lem zero v = omega arith
shl_lem (suc j) v = rw (shl_lem j v, pow-suc 2 j) (omega arith)

ones_lem : (j : ℕ) → ones j + 1 ≡ 2 ^ j
unfolding ones
ones_lem zero = refl
ones_lem (suc j) = omega (arith, ones_lem j, pow-suc 2 j)

bit_and-shl : (j v r c : ℕ) → r < shl j 1 → bit_and (shl j v + r) (shl j c) ≡ shl j (bit_and v c)
unfolding shl
bit_and-shl zero v r c h = ap (λ (x : ℕ). bit_and x c) (omega arith)
bit_and-shl (suc j) v r c h =
    let half : ((2 * shl j v + r) / 2 ≡ shl j v + r / 2) = omega arith in
    let mask : ((2 * shl j c) / 2 ≡ shl j c) = omega arith in
    bit_and_double (2 * shl j v + r) (2 * shl j c)
    ∙ rw (half, mask, bit_and-shl j v (r / 2) c (omega arith)) (omega arith)

bit_and_low : (a : ℕ) → bit_and a 0 ≡ 0
bit_and_low a = low_upto a a (omega arith)
  where
    low_upto : (n a : ℕ) → a ≤ n → bit_and a 0 ≡ 0
    low_upto zero a h = rw (zero_of h) refl
      where
        zero_of : a ≤ 0 → a ≡ 0
        zero_of h = omega arith
    low_upto (suc n) a h = omega (arith, bit_and_double a 0, low_upto n (a / 2) (omega arith))

bit_and-ones : (j v : ℕ) → v ≤ ones j → bit_and v (ones j) ≡ v
unfolding ones
bit_and-ones zero v h = omega (arith, bit_and_low v)
bit_and-ones (suc j) v h =
    let mask : ((2 * ones j + 1) / 2 ≡ ones j) = omega arith in
    bit_and_double v (2 * ones j + 1)
    ∙ rw (mask, bit_and-ones j (v / 2) (omega arith)) (omega arith)

shl_mono : (j a b : ℕ) → a ≤ b → shl j a ≤ shl j b
unfolding shl
shl_mono zero a b h = h
shl_mono (suc j) a b h = omega (arith, shl_mono j a b h)

shl-add : (j a b : ℕ) → shl j (a + b) ≡ shl j a + shl j b
unfolding shl
shl-add zero a b = refl
shl-add (suc j) a b = omega (arith, shl-add j a b)

shl-ones : (j w : ℕ) → shl j (ones w + 1) ≡ 2 ^ (j + w)
unfolding shl
shl-ones zero w = rw (ones_lem w) (ap (λ (x : ℕ). 2 ^ x) (omega arith))
shl-ones (suc j) w =
    let step : (suc j + w ≡ suc (j + w)) = omega arith in
    rw (step, pow-suc 2 (j + w)) (omega (arith, shl-ones j w))

-- A number with fewer than `j + w` bits has at most `w` above the `j` low ones.
fits_ones : (j w d x : ℕ) → shl j d ≤ x → x < 2 ^ (j + w) → d ≤ ones w
fits_ones j w d x h lt = elim (dec_le d (ones w)) [
  | yes p ↦ p
  | no p ↦ absurd (omega (arith, shl_mono j (ones w + 1) d (omega arith), shl-ones j w))
]

-- `&` with the `k + w` bits above the `k` low ones drops the `k` low bits.
pub bit_and-high :
    (k w x : ℕ) → x < 2 ^ (k + w) → bit_and x (2 ^ (k + w) - 2 ^ k) ≡ x / 2 ^ k * 2 ^ k
bit_and-high k w x h =
    let d : ℕ = x / 2 ^ k in
    let r : ℕ = x % 2 ^ k in
    let pow : (shl k 1 ≡ 2 ^ k) = shl_lem k 1 ∙ omega arith in
    let high : (shl k (ones w) ≡ 2 ^ (k + w) - 2 ^ k) =
      omega (arith, shl-ones k w, shl-add k (ones w) 1) in
    let small : (r < shl k 1) = omega (arith, one-le-pow k 2) in
    let parts : (x ≡ shl k d + r) = rw (shl_lem k d) (grind arith) in
    let fits : (d ≤ ones w) = fits_ones k w d x (omega arith) h in
    ap (λ (t : ℕ). bit_and t (2 ^ (k + w) - 2 ^ k)) parts
    ∙ rw (← high) (bit_and-shl k d r (ones w) small)
    ∙ ap (shl k) (bit_and-ones w d fits)
    ∙ shl_lem k d

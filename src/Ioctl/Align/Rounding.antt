-- ===== src/Ioctl/Align/Rounding.antt =====
-- What `(size + alignment - 1) & ~(alignment - 1)` comes to for an alignment that is a power of two.
use native.Mathlib.Nat.{one-le-pow, pow-le-pow_right}
use nv_resource_controller.Prelude.{
  ℕ, ◌+◌, ◌-◌, ◌*◌, ◌/◌, ◌%◌, ◌^◌, ◌≤◌, ◌<◌, ◌≡◌, refl, arith, ◌∙◌, bit_and,
}
use nv_resource_controller.Ioctl.Align.{align_up}
use nv_resource_controller.Ioctl.Align.Mask.{bit_and-high}

-- `(s + n - 1) / n * n` is the least multiple of `n` from `s` on.
round_up_bounds : (s n : ℕ) → 0 < n → (s ≤ (s + n - 1) / n * n) × ((s + n - 1) / n * n < s + n)
round_up_bounds s n h = (grind arith, grind arith)

-- An alignment below `2 ^ 64`.
pow_below : (k : ℕ) → k < 64 → 2 ^ k ≤ 2 ^ 64
pow_below k h = pow-le-pow_right {n = 2} (omega arith) {j = 64} (omega arith)

div_below : (y n : ℕ) → y < n → y / n * n ≡ 0
div_below y n h = grind arith

align_up_high :
    (size k w : ℕ)
    → k + w ≡ 64
    → align_up size (2 ^ k) ≡ (size + 2 ^ k - 1) % 2 ^ 64 / 2 ^ k * 2 ^ k
unfolding align_up
align_up_high size k w e =
    let x : ℕ = (size + 2 ^ k - 1) % 2 ^ 64 in
    let high : (bit_and x (2 ^ (k + w) - 2 ^ k) ≡ x / 2 ^ k * 2 ^ k) =
      bit_and-high k w x (rw e (omega arith)) in
    let mask : (2 ^ 64 - 1 - (2 ^ k - 1) ≡ 2 ^ 64 - 2 ^ k) = omega (arith, one-le-pow k 2) in
    rw mask (rw e at high)

-- Where the sum does not wrap, the result is the least multiple of `2 ^ k` that holds `size`.
pub align_up_least :
    (size k : ℕ)
    → k < 64
    → size + 2 ^ k ≤ 2 ^ 64
    → (size ≤ align_up size (2 ^ k))
      × (align_up size (2 ^ k) < size + 2 ^ k)
      × ((d : ℕ) × (align_up size (2 ^ k) ≡ d * 2 ^ k))
align_up_least size k h fits =
    let x : ℕ = size + 2 ^ k - 1 in
    let plain : ((size + 2 ^ k - 1) % 2 ^ 64 ≡ x) = omega (arith, one-le-pow k 2) in
    let e : (align_up size (2 ^ k) ≡ x / 2 ^ k * 2 ^ k) =
      align_up_high size k (64 - k) (omega arith) ∙ rw plain refl in
    let b = round_up_bounds size (2 ^ k) (one-le-pow k 2 (omega arith)) in
    rw e (b.0, b.1, (x / 2 ^ k, refl))

-- Where it wraps, the result is 0.
pub align_up_wrapped :
    (size k : ℕ) → k < 64 → size < 2 ^ 64 → 2 ^ 64 < size + 2 ^ k → align_up size (2 ^ k) ≡ 0
align_up_wrapped size k h word wraps =
    let plain : ((size + 2 ^ k - 1) % 2 ^ 64 ≡ size + 2 ^ k - 1 - 2 ^ 64) =
      omega (arith, pow_below k h) in
    align_up_high size k (64 - k) (omega arith) ∙ rw plain (div_below _ (2 ^ k) (omega arith))

-- ===== src/Hook/Paths/Apart.antt =====
-- The names tell the objects apart.
use nv_resource_controller.Prelude.{
  ℕ, zero, suc, ◌+◌, ◌-◌, ◌*◌, ◌/◌, ◌%◌, ◌^◌, ◌<◌, ◌≡◌, ◌≢◌, refl, sym, ap, ◌∙◌, [], ◌∷◌, ◌++◌,
  if◌then◌else◌, ltb, arith, Bool-cases, inl, inr,
}
use nv_resource_controller.Prelude.Text.{Text, Lacks}
use nv_resource_controller.Hook.Paths.{hex_digit, hex_digits, hex, dot, shm_path, fb_path}
use nv_resource_controller.Util.Cgroup.Name.{Lacks-append}

-- The number that digits stand for, behind the digits that make `acc`.
abbrev digit_value : ℕ → ℕ
digit_value c = if ltb c 58 then c - 48 else c - 87

unfoldable read_hex : ℕ → Text → ℕ
read_hex acc [] = acc
read_hex acc (c ∷ cs) = read_hex (acc * 16 + digit_value c) cs

read_hex-append :
    (acc : ℕ) (xs : Text) (c : ℕ)
    → read_hex acc (xs ++ c ∷ []) ≡ read_hex acc xs * 16 + digit_value c
unfolding read_hex
read_hex-append acc [] c = refl
read_hex-append acc (x ∷ xs) c = read_hex-append (acc * 16 + digit_value x) xs c

hex_digit-value : (d : ℕ) → d < 16 → digit_value (hex_digit d) ≡ d
hex_digit-value d h = ground arith

-- How many numbers have at most `k` digits.
abbrev numbers : ℕ → ℕ
numbers zero = 1
numbers (suc k) = numbers k * 16

read_hex-hex_digits : (k n : ℕ) → n < numbers k → read_hex 0 (hex_digits k n) ≡ n
unfolding read_hex hex_digits
read_hex-hex_digits zero n h = omega arith
read_hex-hex_digits (suc k) n h = elim (Bool-cases (ltb n 16)) [
  | inl e ↦ rw e (omega (arith, hex_digit-value n (ground arith)))
  | inr e ↦
      let rest = read_hex-hex_digits k (n / 16) (omega arith) in
      rw
        (
          e,
          read_hex-append 0 (hex_digits k (n / 16)) (hex_digit (n % 16)),
          rest,
          hex_digit-value (n % 16) (omega arith),
        )
        (omega arith)
]

-- An `uint32_t` can be read back from what `%x` prints of it.
read_hex-hex : (n : ℕ) → n < 2 ^ 32 → read_hex 0 (hex n) ≡ n
unfolding hex
read_hex-hex n h = read_hex-hex_digits 8 n h

hex_digits-Lacks : (k n : ℕ) → n < numbers k → Lacks dot (hex_digits k n)
unfolding hex_digits
hex_digits-Lacks zero n h = tt
hex_digits-Lacks (suc k) n h = elim (Bool-cases (ltb n 16)) [
  | inl e ↦ rw e (λ q. ground arith, tt)
  | inr e ↦ rw e (
      Lacks-append dot (hex_digits k (n / 16)) (hex_digit (n % 16) ∷ [])
        (hex_digits-Lacks k (n / 16) (omega arith)) (λ q. ground arith, tt))
]

hex-Lacks : (n : ℕ) → n < 2 ^ 32 → Lacks dot (hex n)
unfolding hex
hex-Lacks n h = hex_digits-Lacks 8 n h

hex-injective : (m n : ℕ) → m < 2 ^ 32 → n < 2 ^ 32 → hex m ≡ hex n → m ≡ n
hex-injective m n h k e = sym (read_hex-hex m h) ∙ ap (read_hex 0) e ∙ read_hex-hex n k

-- The text before the first `c`, and the one behind it.
split_at :
    (c : ℕ) (a b x y : Text) → Lacks c a → Lacks c b → a ++ c ∷ x ≡ b ++ c ∷ y → (a ≡ b) × (x ≡ y)
split_at c [] [] x y h k e = (refl, cc)
split_at c [] (v ∷ b) x y h k e = let q : (c ≡ v) = cc in absurd (k.0 (sym q))
split_at c (u ∷ a) [] x y h k e = let q : (u ≡ c) = cc in absurd (h.0 q)
split_at c (u ∷ a) (v ∷ b) x y h k e =
    let r = split_at c a b x y (h.1) (k.1) cc in (let q : (u ≡ v) = cc in let q' = r.0 in cc, r.1)

-- Two pairs of a device number, which is an `uint32_t`, and a group id have different names.
pub shm_path-injective :
    (m n : ℕ) (a b : Text)
    → m < 2 ^ 32
    → n < 2 ^ 32
    → shm_path m a ≡ shm_path n b
    → (m ≡ n) × (a ≡ b)
unfolding shm_path
shm_path-injective m n a b h k e =
    let e' : (hex m ++ dot ∷ a ≡ hex n ++ dot ∷ b) = cc in
    let r = split_at dot (hex m) (hex n) a b (hex-Lacks m h) (hex-Lacks n k) e' in
    (hex-injective m n h k r.0, r.1)

pub fb_path-injective : (m n : ℕ) → m < 2 ^ 32 → n < 2 ^ 32 → fb_path m ≡ fb_path n → m ≡ n
unfolding fb_path
fb_path-injective m n h k e = let q : (hex m ≡ hex n) = cc in hex-injective m n h k q

-- No attributes have the name of an account.
pub shm_path-fb_path : (m n : ℕ) (a : Text) → shm_path m a ≢ fb_path n
unfolding shm_path fb_path
shm_path-fb_path m n a e = let q : (dot ≡ 95) = cc in absurd (omega arith)

-- ===== src/Env/Parsed.antt =====
-- What `get_mem_limit` makes of an assignment `<device>=<size>`.
use nv_resource_controller.Prelude.{
  ℕ, zero, suc, ◌+◌, ◌-◌, ◌*◌, ◌%◌, ◌^◌, ◌≤◌, ◌<◌, ◌≡◌, refl, true, false, Option, none, some, [],
  ◌∷◌, ◌++◌, length, All, Option-cases, inl, inr, arith, leb, ◌==◌, ap,
}
use nv_resource_controller.Prelude.Int.{pos, negsuc}
use nv_resource_controller.Prelude.Run.{ok}
use nv_resource_controller.Prelude.Text.{Text, is_space, is_digit}
use nv_resource_controller.Util.Iec.{Double, head_of}
use nv_resource_controller.Util.Iec.Units.{IsExact, exponent, iec_to_bytes_lem}
use nv_resource_controller.Env.{
  EnvCalls, cuda_mem_limit, take_digits, take_word, sscanf, Limits, get_limit, get_mem_limit,
}

-- A digit, and a byte that is no space.
abbrev pub IsDigit : ℕ → Type 0
IsDigit c = is_digit c ≡ true

abbrev pub IsWordByte : ℕ → Type 0
IsWordByte c = is_space c ≡ false

-- The number that decimal digits stand for.
abbrev pub decimal : ℕ → Text → ℕ
decimal acc [] = acc
decimal acc (c ∷ text) = decimal (acc * 10 + (c - 48)) text

take_digits_lem :
    (digits rest : Text) (acc : ℕ)
    → All IsDigit digits
    → take_digits acc (digits ++ 61 ∷ rest) ≡ (decimal acc digits, 61 ∷ rest)
unfolding take_digits
take_digits_lem [] rest acc h = refl
take_digits_lem (c ∷ digits) rest acc h =
    rw (h.0) (take_digits_lem digits rest (acc * 10 + (c - 48)) h.1)

take_word_lem :
    (n : ℕ) (word : Text) → length word ≤ n → All IsWordByte word → take_word n word ≡ word
unfolding take_word
take_word_lem zero [] h b = refl
take_word_lem zero (c ∷ word) h b = absurd (omega arith)
take_word_lem (suc n) [] h b = refl
take_word_lem (suc n) (c ∷ word) h b =
    rw (b.0) (ap (λ ys. c ∷ ys) (take_word_lem n word (omega arith) b.1))

-- A digit is neither a space nor a sign.
digit_plain : (c : ℕ) → IsDigit c → (is_space c ≡ false) × ((c == 45) ≡ false) × ((c == 43) ≡ false)
digit_plain c h = (ground arith, ground arith, ground arith)

small_word : (n : ℕ) → n < 2 ^ 64 → leb (2 ^ 64) n ≡ false
small_word n h = ground arith

-- A device number and a size, as `%u=%15s` reads them.
sscanf_lem :
    (c : ℕ) (digits : Text) (x : ℕ) (word : Text)
    → All IsDigit (c ∷ digits)
    → decimal 0 (c ∷ digits) < 2 ^ 64
    → All IsWordByte (x ∷ word)
    → length (x ∷ word) ≤ 15
    → sscanf ((c ∷ digits) ++ 61 ∷ x ∷ word) ≡ some (decimal 0 (c ∷ digits) % 2 ^ 32, x ∷ word)
unfolding sscanf
sscanf_lem c digits x word d fits b short =
    let p = digit_plain c (d.0) in
    rw
      (
        p.0,
        p.1,
        p.2,
        d.0,
        take_digits_lem digits (x ∷ word) (0 * 10 + (c - 48)) d.1,
        small_word (decimal 0 (c ∷ digits)) fits,
        b.0,
      )
      (rw (b.0, take_word_lem 14 word (omega arith) b.1) refl)

module _ (d : Double) (exact : IsExact d) (env : EnvCalls) (minor : ℕ) (limit : Option ℕ) where
  -- `<device>=<number><suffix>` in `CUDA_MEM_LIMIT`, of at most 15 bytes behind the `=`, where the
  -- device and the size are 64-bit words, the number is below `2 ^ 53` and doubles are exact:
  -- `get_mem_limit` returns 0, the device as a 32-bit number, and the bytes that the size stands
  -- for.
  pub get_mem_limit_lem :
      (c : ℕ) (digits : Text) (x : ℕ) (word end : Text) (n : ℕ)
      → env.getenv cuda_mem_limit ≡ some ((c ∷ digits) ++ 61 ∷ x ∷ word)
      → All IsDigit (c ∷ digits)
      → decimal 0 (c ∷ digits) < 2 ^ 64
      → All IsWordByte (x ∷ word)
      → length (x ∷ word) ≤ 15
      → d.strtod (x ∷ word) ≡ (d.of_ulong n, end)
      → n < 2 ^ 53
      → n * 2 ^ exponent (head_of end) < 2 ^ 64
      → get_mem_limit d env (record { minor = some minor; limit = limit })
        ≡ ok (pos 0) (record {
          minor = some (decimal 0 (c ∷ digits) % 2 ^ 32);
          limit = some (n * 2 ^ exponent (head_of end));
        })
  unfolding get_mem_limit get_limit
  get_mem_limit_lem c digits x word end n e dig fits b short s small fits' =
      rw
        (
          e,
          sscanf_lem c digits x word dig fits b short,
          iec_to_bytes_lem d exact (x ∷ word) end n s small fits',
        )
        refl

-- Where the variable is unset or does not scan, `get_mem_limit` returns -1 and writes nothing.
pub get_mem_limit_unset :
    (d : Double) (env : EnvCalls) (s : Limits)
    → ((str : Text) → env.getenv cuda_mem_limit ≡ some str → sscanf str ≡ none)
    → get_mem_limit d env s ≡ ok (negsuc 0) s
unfolding get_mem_limit get_limit
get_mem_limit_unset d env s h = elim (Option-cases (env.getenv cuda_mem_limit)) [
  | inl e ↦ rw e refl
  | inr (str, e) ↦ rw (e, h str e) refl
]

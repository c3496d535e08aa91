-- ===== src/Ioctl/Free/Entries.antt =====
-- Which entry `free_device_page` and `free_heap_page` stop at, and the list without it.
use nv_resource_controller.Prelude.{
  ℕ, ◌+◌, ◌^◌, ◌<◌, ◌≡◌, refl, ap, ◌⊎◌, inl, inr, true, false, Option, none, some, List, [], ◌∷◌,
  ◌==◌, if◌then◌else◌, arith,
}
use nv_resource_controller.Platform.ListApi.{has, Distinct, remove}
use nv_resource_controller.Hook.Types.{DeviceMem}
use nv_resource_controller.Ioctl.Account.{sizes, AllWords}
use nv_resource_controller.Ioctl.Free.{seek}

-- The first entry for an object, as the callers mean it.
unfoldable pub first_match : {A : Type 0} → (A → ℕ) → ℕ → List (ℕ × A) → Option (ℕ × A)
first_match object page [] = none
first_match object page (x ∷ xs) = if object x.1 == page then some x else first_match object page xs

-- The last entry of a list.
unfoldable pub last : {A : Type 0} → Option (ℕ × A) → List (ℕ × A) → Option (ℕ × A)
last entry [] = entry
last entry (x ∷ xs) = last (some x) xs

-- The first choice, and the second where there is no first.
abbrev pub or_else : {A : Type 0} → Option A → Option A → Option A
or_else none b = b
or_else (some a) b = some a

module _ {A : Type 0} where
  -- Membership, as a choice of positions.
  abbrev pub At : ℕ × A → List (ℕ × A) → Type 0
  At r [] = ⊥
  At r (x ∷ xs) = (x ≡ r) ⊎ At r xs

  pub seek_lem :
      (object : A → ℕ) (page : ℕ) (entry : Option (ℕ × A)) (xs : List (ℕ × A))
      → seek object page entry xs ≡ or_else (first_match object page xs) (last entry xs)
  unfolding seek first_match last
  seek_lem object page entry [] = refl
  seek_lem object page entry (x ∷ xs) = ground (arith, seek_lem object page (some x) xs)

  At-seek :
      (object : A → ℕ) (page : ℕ) (entry : Option (ℕ × A)) (xs : List (ℕ × A)) (r : ℕ × A)
      → seek object page entry xs ≡ some r
      → (entry ≡ some r) ⊎ At r xs
  unfolding seek
  At-seek object page entry [] r e = inl e
  At-seek object page entry (x ∷ xs) r e = ground (arith, At-seek object page (some x) xs r)

  pub At-seek-none :
      (object : A → ℕ) (page : ℕ) (xs : List (ℕ × A)) (r : ℕ × A)
      → seek object page none xs ≡ some r
      → At r xs
  At-seek-none object page xs r e = ground (arith, At-seek object page none xs r e)

  pub has-At : (r : ℕ × A) (xs : List (ℕ × A)) → At r xs → has r.0 xs ≡ true
  has-At r [] a = absurd a
  has-At r (x ∷ xs) (inl e) = ground (arith, ap (λ y. y.0) e)
  has-At r (x ∷ xs) (inr a) = ground (arith, has-At r xs a)

  pub has-remove : (q p : ℕ) (xs : List (ℕ × A)) → has q xs ≡ false → has q (remove p xs) ≡ false
  has-remove q p [] h = refl
  has-remove q p (x ∷ xs) h = ground (arith, has-remove q p xs)

  pub Distinct-remove : (p : ℕ) (xs : List (ℕ × A)) → Distinct xs → Distinct (remove p xs)
  Distinct-remove p [] d = tt
  Distinct-remove p (x ∷ xs) d = ground (arith, has-remove x.0 p xs d.0, Distinct-remove p xs d.1)

pub AllWords-remove : (p : ℕ) (xs : List (ℕ × DeviceMem)) → AllWords xs → AllWords (remove p xs)
AllWords-remove p [] w = tt
AllWords-remove p (x ∷ xs) w = ground (arith, AllWords-remove p xs w.1)

pub word_of_At :
    (r : ℕ × DeviceMem) (xs : List (ℕ × DeviceMem)) → At r xs → AllWords xs → r.1.size < 2 ^ 64
word_of_At r [] a w = absurd a
word_of_At r (x ∷ xs) (inl e) w = ground (arith, ap (λ y. y.1.size) e)
word_of_At r (x ∷ xs) (inr a) w = word_of_At r xs a w.1

pub sizes-remove :
    (r : ℕ × DeviceMem) (xs : List (ℕ × DeviceMem))
    → At r xs
    → Distinct xs
    → sizes xs ≡ r.1.size + sizes (remove r.0 xs)
sizes-remove r [] a d = absurd a
sizes-remove r (x ∷ xs) (inl e) d = ground (arith, ap (λ y. y.0) e, ap (λ y. y.1.size) e)
sizes-remove r (x ∷ xs) (inr a) d = ground (arith, has-At r xs a, sizes-remove r xs a d.1)

-- ===== src/Platform/ListApi.antt =====
-- The list macros and functions of include/list.h as an interface: a chain of nodes, each at an
-- address and carrying the structure that it is embedded in. The laws are what that header documents.
use nv_resource_controller.Prelude.{
  ℕ, ◌≡◌, Bool, true, false, ◌||◌, List, [], ◌∷◌, ◌==◌, if◌then◌else◌,
}

module _ {A : Type 0} where
  -- Is there a node at this address?
  abbrev pub has : ℕ → List (ℕ × A) → Bool
  has p [] = false
  has p ((q, _) ∷ xs) = (p == q) || has p xs

  -- The nodes have addresses of their own.
  abbrev pub Distinct : List (ℕ × A) → Type 0
  Distinct [] = Unit {0}
  Distinct ((p, _) ∷ xs) = (has p xs ≡ false) × Distinct xs

  -- The nodes that are left when the one at `p` is unlinked.
  abbrev pub remove : ℕ → List (ℕ × A) → List (ℕ × A)
  remove p [] = []
  remove p ((q, a) ∷ xs) = if p == q then xs else (q, a) ∷ remove p xs

pub record ListApi (A : Type 0) : Type 1 where
  pub Chain : Type 0
  -- what `list_for_each` visits, in its order
  pub entries : Chain → List (ℕ × A)
  pub init_list_head : Chain
  pub list_add : ℕ → A → Chain → Chain
  pub list_del : ℕ → Chain → Chain
  pub entries-init : entries init_list_head ≡ []
  -- "insert a new entry after the specified head"
  pub entries-add :
      (p : ℕ) (a : A) (c : Chain)
      → has p (entries c) ≡ false
      → entries (list_add p a c) ≡ (p, a) ∷ entries c
  -- "deletes entry from list", where the entry is in the list
  pub entries-del :
      (p : ℕ) (c : Chain)
      → Distinct (entries c)
      → has p (entries c) ≡ true
      → entries (list_del p c) ≡ remove p (entries c)

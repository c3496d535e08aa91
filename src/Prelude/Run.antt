-- ===== src/Prelude/Run.antt =====
-- Commands over a state of any type: what a C function does with the memory that it shares.

-- `ok a s` returns `a` and leaves `s`. `fault` is undefined behaviour: a read through an invalid
-- pointer or of a variable that nothing has written, an `int` that overflows. `blocked` is a wait that
-- nothing in the command ends, `exited` a call of `exit`.
pub data Run (S A : Type 0) : Type 0 where
  ok : A → S → Run S A
  fault : Run S A
  blocked : Run S A
  exited : Run S A

abbrev pub Cmd : Type 0 → Type 0 → Type 0
Cmd S A = S → Run S A

module _ {S : Type 0} where
  abbrev pub pure : {A : Type 0} → A → Cmd S A
  pure a s = ok a s

  abbrev pub and_then : {A B : Type 0} → Run S A → (A → Cmd S B) → Run S B
  and_then (ok a s) k = k a s
  and_then fault k = fault
  and_then blocked k = blocked
  and_then exited k = exited

  infixl 5 ◌>>=◌ ◌>>◌
  abbrev pub ◌>>=◌ : {A B : Type 0} → Cmd S A → (A → Cmd S B) → Cmd S B
  m >>= k = λ s. and_then (m s) k

  abbrev pub ◌>>◌ : {A B : Type 0} → Cmd S A → Cmd S B → Cmd S B
  m >> n = m >>= λ _. n

-- Total correctness: the run returns, and what it returns satisfies `P`.
abbrev pub Returns : {S A : Type 0} → (A → S → Type 0) → Run S A → Type 0
Returns P (ok a s) = P a s
Returns P fault = ⊥
Returns P blocked = ⊥
Returns P exited = ⊥

-- A run that returns, followed by a command that does.
pub Returns-and_then :
    {S A B : Type 0} (P : A → S → Type 0) (Q : B → S → Type 0) (r : Run S A) (k : A → Cmd S B)
    → Returns P r
    → ((a : A) (s : S) → P a s → Returns Q (k a s))
    → Returns Q (and_then r k)
Returns-and_then P Q (ok a s) k p next = next a s p
Returns-and_then P Q fault k p next = absurd p
Returns-and_then P Q blocked k p next = absurd p
Returns-and_then P Q exited k p next = absurd p

pub Returns-mono :
    {S A : Type 0} (P Q : A → S → Type 0) (r : Run S A)
    → Returns P r
    → ((a : A) (s : S) → P a s → Q a s)
    → Returns Q r
Returns-mono P Q (ok a s) p weaken = weaken a s p
Returns-mono P Q fault p weaken = absurd p
Returns-mono P Q blocked p weaken = absurd p
Returns-mono P Q exited p weaken = absurd p

-- Partial correctness: if the run returns, what it returns satisfies `P`.
abbrev pub IfReturns : {S A : Type 0} → (A → S → Type 0) → Run S A → Type 0
IfReturns P (ok a s) = P a s
IfReturns P fault = Unit {0}
IfReturns P blocked = Unit {0}
IfReturns P exited = Unit {0}

pub IfReturns-and_then :
    {S A B : Type 0} (P : A → S → Type 0) (Q : B → S → Type 0) (r : Run S A) (k : A → Cmd S B)
    → IfReturns P r
    → ((a : A) (s : S) → P a s → IfReturns Q (k a s))
    → IfReturns Q (and_then r k)
IfReturns-and_then P Q (ok a s) k p next = next a s p
IfReturns-and_then P Q fault k p next = tt
IfReturns-and_then P Q blocked k p next = tt
IfReturns-and_then P Q exited k p next = tt

-- A run on a part of the state, and the whole state that it leaves.
abbrev pub in_state : {S T A : Type 0} → Run T A → (T → S) → Run S A
in_state (ok a t) put = ok a (put t)
in_state fault put = fault
in_state blocked put = blocked
in_state exited put = exited

-- A command on the whole state after a run on a part of it that returns.
pub Returns-in_state :
    {S T A B : Type 0} (P : A → T → Type 0) (Q : B → S → Type 0) (r : Run T A) (put : T → S)
    (k : A → Cmd S B)
    → Returns P r
    → ((a : A) (t : T) → P a t → Returns Q (k a (put t)))
    → Returns Q (and_then (in_state r put) k)
Returns-in_state P Q (ok a t) put k p next = next a t p
Returns-in_state P Q fault put k p next = absurd p
Returns-in_state P Q blocked put k p next = absurd p
Returns-in_state P Q exited put k p next = absurd p

-- What a run on a part of the state leaves.
pub IfReturns-in_state :
    {S T A : Type 0} (Q : A → S → Type 0) (r : Run T A) (put : T → S)
    → IfReturns (λ a t. Q a (put t)) r
    → IfReturns Q (in_state r put)
IfReturns-in_state Q (ok a t) put h = h
IfReturns-in_state Q fault put h = tt
IfReturns-in_state Q blocked put h = tt
IfReturns-in_state Q exited put h = tt

pub IfReturns-mono :
    {S A : Type 0} (Q Q' : A → S → Type 0) (r : Run S A)
    → IfReturns Q r
    → ((a : A) (s : S) → Q a s → Q' a s)
    → IfReturns Q' r
IfReturns-mono Q Q' (ok a s) h k = k a s h
IfReturns-mono Q Q' fault h k = tt
IfReturns-mono Q Q' blocked h k = tt
IfReturns-mono Q Q' exited h k = tt

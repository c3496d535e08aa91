-- ===== src/Prelude/Unseen.antt =====
-- Commands that do not touch a part of the state.
use mathlib.Core.Path.{◌≡◌, subst}
use nv_resource_controller.Prelude.Run.{
  Run, Cmd, ok, fault, blocked, exited, IfReturns, IfReturns-and_then, in_state, ◌>>=◌,
}

-- If the command returns, what is seen of the state is as it was.
abbrev pub Unseen : {S V A : Type 0} → (S → V) → Cmd S A → Type 0
Unseen {S} view act = (s : S) → IfReturns (λ _ t. view t ≡ view s) (act s)

pub Unseen-and_then :
    {S V A B : Type 0} (view : S → V) (act : Cmd S A) (next : A → Cmd S B)
    → Unseen view act
    → ((a : A) → Unseen view (next a))
    → Unseen view (act >>= next)
Unseen-and_then view act next h k s =
    IfReturns-and_then (λ _ t. view t ≡ view s) (λ _ t. view t ≡ view s) (act s) next (h s)
      λ a t e. subst (λ o. IfReturns (λ _ u. view u ≡ o) (next a t)) e (k a t)

pub Unseen-in_state :
    {S V T A : Type 0} (view : S → V) (s : S) (r : Run T A) (put : T → S)
    → IfReturns (λ _ b. view (put b) ≡ view s) r
    → IfReturns (λ _ t. view t ≡ view s) (in_state r put)
Unseen-in_state view s (ok a b) put h = h
Unseen-in_state view s fault put h = tt
Unseen-in_state view s blocked put h = tt
Unseen-in_state view s exited put h = tt

-- Whatever the run does
pub anyhow :
    {S A : Type 0} {P : A → S → Type 0} → ((a : A) (s : S) → P a s) → (r : Run S A) → IfReturns P r
anyhow h (ok a s) = h a s
anyhow h fault = tt
anyhow h blocked = tt
anyhow h exited = tt

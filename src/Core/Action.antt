-- ===== src/Core/Action.antt =====
-- Code that reads and changes a state and may raise, as a function from states.
use apate.Prelude.{◌≡◌, refl, ap, ◌⊎◌, inl, inr, nat_eq, string_eq}
use apate.Core.Errno.{Errno, Result-cases, Result, ok, err}

-- Results with a state.
abbrev pub Action : Type 0 → Type 0 → Type 0
Action S A = S → Result A × S

abbrev pub on_result : {S A B : Type 0} → (A → Action S B) → Result A → Action S B
on_result next (err e) s = (err e, s)
on_result next (ok a) s = next a s

unfoldable pub then_do : {S A B : Type 0} → Action S A → (A → Action S B) → Action S B
then_do first next s = let (result, s') = first s in on_result next result s'

abbrev pub give : {S A : Type 0} → A → Action S A
give a s = (ok a, s)

pub then_do-ok :
    {S A B : Type 0} (act : Action S A) (next : A → Action S B) (s s' : S) (a : A)
    → act s ≡ (ok a, s')
    → then_do act next s ≡ next a s'
unfolding then_do
then_do-ok act next s s' a e = rw (then_do, e) refl

-- An action returns or raises.
pub Action-cases :
    {S A : Type 0} (act : Action S A) (s : S)
    → ((a : A) × (s' : S) × (act s ≡ (ok a, s'))) ⊎ ((e : Errno) × (s' : S) × (act s ≡ (err e, s')))
Action-cases {A = A} act s = elim (Result-cases (act s).0) [
  | inl (e, h) ↦ inr (e, (act s).1, ap (λ (r : Result A). (r, (act s).1)) h)
  | inr (a, h) ↦ inl (a, (act s).1, ap (λ (r : Result A). (r, (act s).1)) h)
]

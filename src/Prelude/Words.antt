-- ===== src/Prelude/Words.antt =====
-- What `split` and `rsplit` make of a text.
use Prim.Native.Nat.{ℕ}
use Prim.Native.Char.{Char, code}
use Prim.Native.String.{String}
use mathlib.Core.Path.{◌≡◌, refl, sym, subst, ap, ◌∙◌}
use mathlib.Core.Logic.{inl, inr}
use mathlib.Core.Bool.{Bool}
use mathlib.Core.Option.{none, some}
use mathlib.Core.List.{List, [], ◌∷◌, ◌++◌}
use native.Mathlib.Omega.{arith}
use apate.Prelude.Tests.{nat_beq, get_or, Bool-cases, Option-cases}
use apate.Prelude.Lists.{select}
use apate.Prelude.Text.{add_char, split, rsplit}

pub select-append {ℓ} :
    {A : Type ℓ} (p : A → Bool) (xs ys : List A) → select p (xs ++ ys) ≡ select p xs ++ select p ys
select-append p [] ys = refl
select-append p (x ∷ xs) ys = elim (Bool-cases (p x)) [
  | inl is ↦ rw is (ap (λ (zs : List _). x ∷ zs) (select-append p xs ys))
  | inr is ↦ rw is (select-append p xs ys)
]

-- A split has at least one part.
pub split-cases :
    (k : ℕ) (s : String) → (first : String) × (rest : List String) × (split k s ≡ first ∷ rest)
unfolding split add_char
split-cases k String.[] = (String.[], [], refl)
split-cases k (String.◌∷◌ c s) =
    let (first, rest, e) = split-cases k s in
    elim (Bool-cases (nat_beq (code c) k)) [
      | inl is ↦ (String.[], split k s, rw is refl)
      | inr is ↦ (String.◌∷◌ c first, rest, rw (is, e) refl)
    ]

pub split-rsplit-none : (k : ℕ) (s : String) → rsplit k s ≡ none → split k s ≡ s ∷ []
unfolding split rsplit add_char
split-rsplit-none k String.[] e = refl
split-rsplit-none k (String.◌∷◌ c s) e = elim (Option-cases (rsplit k s)) [
  | inr ((before, last), there) ↦ absurd (ground arith)
  | inl absent ↦ elim (Bool-cases (nat_beq (code c) k)) [
    | inl is ↦ absurd (ground arith)
    | inr is ↦ rw (is, split-rsplit-none k s absent) refl
  ]
]

add_char-append :
    (c : Char) (first : String) (rest : List String) (last : String)
    → add_char c ((first ∷ rest) ++ (last ∷ [])) ≡ add_char c (first ∷ rest) ++ (last ∷ [])
unfolding add_char
add_char-append c first rest last = refl

split-cons :
    (k : ℕ) (c : Char) (s before last : String)
    → split k s ≡ split k before ++ (last ∷ [])
    → split k (String.◌∷◌ c s) ≡ split k (String.◌∷◌ c before) ++ (last ∷ [])
unfolding split
split-cons k c s before last e =
    let (first, rest, parts) = split-cases k before in
    elim (Bool-cases (nat_beq (code c) k)) [
      | inl is ↦ rw is (ap (λ (ws : List String). String.[] ∷ ws) e)
      | inr is ↦
          rw (is, parts)
            (ap (add_char c) (e ∙ ap (λ (ws : List String). ws ++ (last ∷ [])) parts)
              ∙ add_char-append c first rest last)
    ]

-- The last part, and the parts before it.
pub split-rsplit :
    (k : ℕ) (s : String) (both : String × String)
    → rsplit k s ≡ some both
    → split k s ≡ split k both.0 ++ (both.1 ∷ [])
unfolding split rsplit
split-rsplit k String.[] both e = absurd (ground arith)
split-rsplit k (String.◌∷◌ c s) both e = elim (Option-cases (rsplit k s)) [
  | inr ((before, last), there) ↦
      let found : rsplit k (String.◌∷◌ c s) ≡ some (String.◌∷◌ c before, last) = rw there refl in
      let same : (String.◌∷◌ c before, last) ≡ both = ap (get_or both) (sym found ∙ e) in
      subst (λ (p : String × String). split k (String.◌∷◌ c s) ≡ split k p.0 ++ (p.1 ∷ [])) same
        (split-cons k c s before last (split-rsplit k s (before, last) there))
  | inl absent ↦ elim (Bool-cases (nat_beq (code c) k)) [
    | inr is ↦ absurd (ground arith)
    | inl is ↦
        let found : rsplit k (String.◌∷◌ c s) ≡ some (String.[], s) = rw (absent, is) refl in
        let same : (String.[], s) ≡ both = ap (get_or both) (sym found ∙ e) in
        subst (λ (p : String × String). split k (String.◌∷◌ c s) ≡ split k p.0 ++ (p.1 ∷ [])) same
          (rw (is, split-rsplit-none k s absent) refl)
  ]
]

-- ===== src/Dict/Weights.antt =====
-- The sum of a measure over the values of a dictionary, and dictionaries that hold each key once.
use apate.Prelude.{
  ℕ, ◌+◌, ◌≡◌, refl, ◌∙◌, inl, inr, Option, none, some, [], ◌∷◌, arith, Eq, ◌==◌, nat_eq, string_eq,
  ==-symm, Bool-cases, ◌*◌, ◌≤◌, ◌<◌, ◌⊎◌, ltb,
}
use apate.Dict.{Dict, get, put, get-put}

abbrev pub measured {κ} : {V : Type κ} → (V → ℕ) → Option V → ℕ
measured f none = 0
measured f (some v) = f v

module _ {ℓ κ} {K : Type ℓ} {V : Type κ} ⦃e : Eq K⦄ where
  unfoldable pub weight : (V → ℕ) → Dict K V → ℕ
  weight f [] = 0
  weight f ((j, v) ∷ d) = f v + weight f d

  -- No entry hides a later one.
  abbrev pub HasUniqueKeys : Dict K V → Type (ℓ ⊔ κ)
  HasUniqueKeys [] = Unit
  HasUniqueKeys ((j, v) ∷ d) = (get d j ≡ none) × HasUniqueKeys d

  pub weight-put :
      (f : V → ℕ) (d : Dict K V) (k : K) (v : V)
      → weight f (put d k v) + measured f (get d k) ≡ weight f d + f v
  unfolding weight get put
  weight-put f [] k v = omega arith
  weight-put f ((j, w) ∷ d) k v = ground (arith, weight-put f d k v)

  pub put-HasUniqueKeys :
      (d : Dict K V) (k : K) (v : V) → HasUniqueKeys d → HasUniqueKeys (put d k v)
  unfolding get put
  put-HasUniqueKeys [] k v h = (refl, tt)
  put-HasUniqueKeys ((j, w) ∷ d) k v h = elim (Bool-cases (j == k)) [
    | inl same ↦ let same' : j ≡ k = (e.beq_iff j k).0 same in rw same (rw (← same') h.0, h.1)
    | inr other ↦
        rw other (get-put d k j v ∙ rw (==-symm k j ∙ other) h.0, put-HasUniqueKeys d k v h.1)
  ]

  pub measured-get : (f : V → ℕ) (d : Dict K V) (k : K) → measured f (get d k) ≤ weight f d
  unfolding weight get
  measured-get f [] k = omega arith
  measured-get f ((j, w) ∷ d) k = ground (arith, measured-get f d k)

  pub weight_scaled :
      (f g : V → ℕ) (n : ℕ)
      → ((v : V) → f v ≤ n * g v)
      → (d : Dict K V) → weight f d ≤ n * weight g d
  unfolding weight
  weight_scaled f g n h [] = omega arith
  weight_scaled f g n h ((j, w) ∷ d) = grind (arith, h w, weight_scaled f g n h d)

  -- Where the sum is positive, the value of some key is.
  pub weight-cases :
      (f : V → ℕ) (d : Dict K V)
      → HasUniqueKeys d
      → (weight f d ≡ 0) ⊎ ((k : K) × (v : V) × (get d k ≡ some v) × (0 < f v))
  unfolding weight get
  weight-cases f [] h = inl refl
  weight-cases f ((j, w) ∷ d) h = elim (weight-cases f d h.1) [
    | inr (k, v, there, positive) ↦ inr (k, v, ground (arith, h.0, there, e.beq_iff j k), positive)
    | inl rest ↦ elim (Bool-cases (ltb 0 (f w))) [
      | inl some_left ↦ inr (j, w, rw ((e.beq_iff j j).1 refl) refl, ground arith)
      | inr none_left ↦ inl (ground arith)
    ]
  ]

-- ===== src/Dict.antt =====
-- Dictionaries in insertion order, as Python's `dict` keeps them: a new value for an old key
-- stays at the key's place. Redis hashes, sorted sets and key spaces are dictionaries too.
pub mod Weights
use apate.Prelude.{
  suc, ◌≤◌, ◌≡◌, refl, Option, none, some, List, [], ◌∷◌, arith, if◌then◌else◌, Eq, ◌==◌, is_some,
  length, nat_eq, string_eq,
}

abbrev pub Dict {ℓ κ} : Type ℓ → Type κ → Type (ℓ ⊔ κ)
Dict K V = List (K × V)

module _ {ℓ κ} {K : Type ℓ} {V : Type κ} ⦃e : Eq K⦄ where
  -- d.get(k)
  unfoldable pub get : Dict K V → K → Option V
  get [] k = none
  get ((j, v) ∷ d) k = if j == k then some v else get d k

  -- d[k] = v
  unfoldable pub put : Dict K V → K → V → Dict K V
  put [] k v = (k, v) ∷ []
  put ((j, w) ∷ d) k v = if j == k then (k, v) ∷ d else (j, w) ∷ put d k v

  -- d.pop(k, None)
  unfoldable pub remove : Dict K V → K → Dict K V
  remove [] k = []
  remove ((j, w) ∷ d) k = let rest = remove d k in if j == k then rest else (j, w) ∷ rest

  pub get-nil : (k : K) → get [] k ≡ none
  unfolding get
  get-nil k = refl

  pub get-put :
      (d : Dict K V) (key other : K) (value : V)
      → get (put d key value) other ≡ (if key == other then some value else get d other)
  unfolding put get
  get-put [] key other value = refl
  get-put ((i, w) ∷ d) key other value =
      ground
        (arith, e.beq_iff key other, e.beq_iff i key, e.beq_iff i other, get-put d key other value)

  pub get-put_self : (d : Dict K V) (k : K) (v : V) → get (put d k v) k ≡ some v
  get-put_self d k v = rw (get-put, (e.beq_iff k k).1 refl)

  pub get-remove :
      (d : Dict K V) (k j : K) → get (remove d k) j ≡ (if k == j then none else get d j)
  unfolding get remove
  get-remove [] k j = ground arith
  get-remove ((i, w) ∷ d) k j =
      ground (arith, e.beq_iff k j, e.beq_iff i k, e.beq_iff i j, get-remove d k j)

  pub length-put :
      (d : Dict K V) (k : K) (v : V)
      → length (put d k v) ≡ (if is_some (get d k) then length d else suc (length d))
  unfolding get put
  length-put [] k v = refl
  length-put ((i, w) ∷ d) k v = ground (arith, length-put d k v)

  pub length-remove_le : (d : Dict K V) (k : K) → length (remove d k) ≤ length d
  unfolding remove
  length-remove_le [] k = omega arith
  length-remove_le ((i, w) ∷ d) k = ground (arith, length-remove_le d k)

pub ruleset dict_laws = (get-put, get-remove)

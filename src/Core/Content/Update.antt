-- ===== src/Core/Content/Update.antt =====
-- What `mutate_content` leaves behind, whatever other clients do between its rounds.
pub mod Bounds
pub mod Readers
pub mod Rounds
use apate.Prelude.{ℕ, zero, suc, String, ◌≡◌, inl, inr, List, [], ◌∷◌, nat_eq, string_eq, All}
use apate.Core.Errno.{Errno, Result, ok, err, eagain, Result-cases}
use apate.Core.Namespace.{Namespace}
use apate.Core.Content.{Bytes, Change, edit, execute_write, new_content, rounds, mutate_content}

-- One induction for all: each way to end satisfies `P`, where the namespaces that the rounds begin
-- in satisfy `Q`.
module _ (digest : Bytes → String) (i : ℕ) (f : Bytes → Bytes) (now : ℕ) (Q : Namespace → Type 0)
    (P : Result (Unit {0}) × Namespace → Type 0)
    (failed : (e : Errno) (s : Namespace) → Q s → P (err e, s))
    (done : (content : Bytes) (s : Namespace)
      → Q s
      → new_content digest i f s ≡ ok content
      → P (ok tt, execute_write digest i content now s)) where
  pub rounds_induction :
      (left : ℕ) (races : List Namespace) (s : Namespace)
      → Q s
      → All Q races
      → P (rounds digest left i f now races s)
  unfolding rounds
  rounds_induction zero races s q qs = failed eagain s q
  rounds_induction (suc left) [] s q qs = elim (Result-cases (new_content digest i f s)) [
    | inl (e, h) ↦ rw (h, rounds) (failed e s q)
    | inr (content, h) ↦ rw (h, rounds) (done content s q h)
  ]
  rounds_induction (suc left) (s' ∷ races) s q qs = elim (Result-cases (new_content digest i f s)) [
    | inl (e, h) ↦ rw (h, rounds) (failed e s q)
    | inr (content, h) ↦ rw (h, rounds) (rounds_induction left races s' qs.0 qs.1)
  ]

  pub mutate_content_induction :
      (change : Change) (races : List Namespace) (s : Namespace)
      → edit change ≡ ok f
      → Q s
      → All Q races
      → P (mutate_content digest i change now races s)
  unfolding mutate_content
  mutate_content_induction change races s e q qs =
      rw (e, mutate_content) (rounds_induction 32 races s q qs)

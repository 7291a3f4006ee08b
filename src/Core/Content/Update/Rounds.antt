-- ===== src/Core/Content/Update/Rounds.antt =====
-- How many lost races an update survives.
use apate.Prelude.{
  ℕ, zero, suc, ◌≤◌, ◌<◌, String, ◌≡◌, refl, ◌≢◌, Option, none, some, List, [], ◌∷◌, arith, nat_eq,
  string_eq, length, All,
}
use apate.Core.Errno.{ok, err, eagain}
use apate.Core.Namespace.{Namespace}
use apate.Core.Content.{Bytes, read_blob, Change, edit, stored, new_content, rounds, mutate_content}
use apate.Core.Content.Update.Readers.{hash_of}

module _ (digest : Bytes → String) (i : ℕ) (f : Bytes → Bytes) (now : ℕ) where
  stored-ne-eagain : (s : Namespace) (hash : Option String) → stored digest s hash ≢ err eagain
  unfolding stored read_blob
  stored-ne-eagain s none h = cc
  stored-ne-eagain s (some hash) h = ground arith

  new_content-ne-eagain : (s : Namespace) → new_content digest i f s ≢ err eagain
  unfolding new_content
  new_content-ne-eagain s h = ground (arith, stored-ne-eagain s (hash_of s i).content_hash)

  rounds-ne-eagain :
      (left : ℕ) (races : List Namespace) (s : Namespace)
      → length races < left
      → (rounds digest left i f now races s).0 ≢ err eagain
  unfolding rounds
  rounds-ne-eagain zero races s h e = absurd (omega arith)
  rounds-ne-eagain (suc left) [] s h e = ground (arith, new_content-ne-eagain s)
  rounds-ne-eagain (suc left) (s' ∷ races) s h e =
      ground (arith, new_content-ne-eagain s, rounds-ne-eagain left races s')

  rounds-eagain :
      (left : ℕ) (races : List Namespace) (s : Namespace)
      → left ≤ length races
      → All (λ x. (b : Bytes) × (new_content digest i f x ≡ ok b)) (s ∷ races)
      → (rounds digest left i f now races s).0 ≡ err eagain
  unfolding rounds
  rounds-eagain zero races s h k = refl
  rounds-eagain (suc left) [] s h k = absurd (omega arith)
  rounds-eagain (suc left) (s' ∷ races) s h k =
      rw (k.0.1, rounds) (rounds-eagain left races s' (omega arith) k.1)

  -- With fewer than 32 lost races an update does not give up with EAGAIN; and where the file can be
  -- written in every namespace that it meets, the 32nd lost race makes it give up.
  pub mutate_content-eagain :
      (change : Change) (races : List Namespace) (s : Namespace)
      → edit change ≡ ok f
      → (length races < 32 → (mutate_content digest i change now races s).0 ≢ err eagain)
        × (32 ≤ length races
            → All (λ x. (b : Bytes) × (new_content digest i f x ≡ ok b)) (s ∷ races)
            → (mutate_content digest i change now races s).0 ≡ err eagain)
  unfolding mutate_content
  mutate_content-eagain change races s e = (
    λ h. rw (e, mutate_content) (rounds-ne-eagain 32 races s h),
    λ h k. rw (e, mutate_content) (rounds-eagain 32 races s h k),
  )

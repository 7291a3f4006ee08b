-- ===== src/Core/State/Paths.antt =====
-- Paths after a creation, and what an exception leaves behind.
use apate.Prelude.{
  ℕ, zero, suc, String, ◌≡◌, ◌≢◌, inl, inr, none, some, List, [], ◌∷◌, ◌++◌, arith, nat_beq_iff,
  nat_eq, string_eq, ==_refl, Option-cases,
}
use apate.Core.Errno.{Errno, ok, err}
use apate.Core.Namespace.{Namespace, zscore}
use apate.Core.Scripts.{
  minus_two, add_file, atomic_create, atomic_mkdir, atomic_unlink, atomic_rmdir,
}
use apate.Core.Scripts.Replies.{atomic_create-cases}
use apate.Core.Scripts.Fresh.{entry-add_file}
use apate.Core.State.{create_file, make_directory, unlink_file, remove_directory, walk}

-- The scripts that create never answer -2.
creation_never_minus_two :
    (parent : ℕ) (name : String) (mode t : ℕ) (s : Namespace)
    → ((atomic_create parent name mode t s).0 ≢ minus_two)
      × ((atomic_mkdir parent name mode t s).0 ≢ minus_two)
unfolding atomic_create atomic_mkdir
creation_never_minus_two parent name mode t s = (λ e. ground arith, λ e. ground arith)

-- Entries that were there lead where they led.
abbrev Keeps : Namespace → Namespace → Type 0
Keeps s s' = (d : ℕ) (n : String) (i : ℕ) → zscore s d n ≡ some i → zscore s' d n ≡ some i

walk-Keeps :
    (s s' : Namespace)
    → Keeps s s'
    → (ps : List String) (d i : ℕ) → walk s d ps ≡ some i
    → walk s' d ps ≡ some i
unfolding walk
walk-Keeps s s' k [] d i h = h
walk-Keeps s s' k (p ∷ ps) d i h = elim (Option-cases (zscore s d p)) [
  | inl e ↦ absurd (ground arith)
  | inr (zero, e) ↦ absurd (ground arith)
  | inr (suc j, e) ↦ rw (k d p (suc j) e, walk) (walk-Keeps s s' k ps (suc j) i (ground arith))
]

-- The path of a file is its directory's path and its name.
walk-append :
    (s : Namespace) (ps : List String) (d j : ℕ) (name : String) (i : ℕ)
    → walk s d ps ≡ some j
    → zscore s j name ≡ some (suc i)
    → walk s d (ps ++ name ∷ []) ≡ some (suc i)
unfolding walk
walk-append s [] d j name i h e = ground arith
walk-append s (p ∷ ps) d j name i h e = elim (Option-cases (zscore s d p)) [
  | inl q ↦ absurd (ground arith)
  | inr (zero, q) ↦ absurd (ground arith)
  | inr (suc k, q) ↦ rw (q, walk) (walk-append s ps (suc k) j name i (ground arith) e)
]

Keeps-add_file :
    (s : Namespace) (parent : ℕ) (name : String) (mode t : ℕ)
    → zscore s parent name ≡ none
    → Keeps s (add_file parent name mode t s)
Keeps-add_file s parent name mode t absent d n i h =
    rw entry-add_file (ground (arith, nat_beq_iff parent d, string_eq.beq_iff name n))

-- After a successful `create_file` under the directory at the path `ps`, the path with the new
-- name at its end leads to the inode that the call returned, and every path that led somewhere
-- still leads there.
pub walk-create_file :
    (s : Namespace) (ps : List String) (parent : ℕ) (name : String) (mode t i : ℕ)
    → walk s 1 ps ≡ some parent
    → (create_file parent name mode t s).0 ≡ ok i
    → let s' = (create_file parent name mode t s).1 in
      (walk s' 1 (ps ++ name ∷ []) ≡ some i)
      × ((qs : List String) (j : ℕ) → walk s 1 qs ≡ some j → walk s' 1 qs ≡ some j)
unfolding create_file
walk-create_file s ps parent name mode t i h made =
    elim (atomic_create-cases s parent name mode t) [
      | inl r ↦ absurd (ground arith)
      | inr c ↦
          let s' = add_file parent name mode t s in
          let keeps = Keeps-add_file s parent name mode t c.absent in
          let e : i ≡ suc s.next_inode = ground (arith, c.reply) in
          rw (c.reply, e)
            (
              walk-append s' ps 1 parent name s.next_inode (walk-Keeps s s' keeps ps 1 parent h)
                  (rw entry-add_file (ground (arith, ==_refl name))),
              λ qs j. walk-Keeps s s' keeps qs 1 j,
            )
    ]

-- An exception of the four methods, whichever it is, leaves the namespace as it was.
raised_unchanged :
    (s : Namespace) (parent : ℕ) (name : String) (mode t : ℕ) (e : Errno)
    → ((create_file parent name mode t s).0 ≡ err e → (create_file parent name mode t s).1 ≡ s)
      × ((make_directory parent name mode t s).0 ≡ err e
          → (make_directory parent name mode t s).1 ≡ s)
      × ((unlink_file parent name t s).0 ≡ err e → (unlink_file parent name t s).1 ≡ s)
      × ((remove_directory parent name t s).0 ≡ err e → (remove_directory parent name t s).1 ≡ s)
unfolding create_file make_directory unlink_file remove_directory atomic_create atomic_mkdir
    atomic_unlink atomic_rmdir
raised_unchanged s parent name mode t e =
    (λ h. ground arith, λ h. ground arith, λ h. ground arith, λ h. ground arith)

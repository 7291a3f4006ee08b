-- ===== src/Core/State/Setup/Placed.antt =====
-- state.py, `_initialize_filesystem`: what is at an entry's path already has an inode of the tree.
use apate.Core.Scripts.{bad_name}
use apate.Prelude.{
  rsplit, ℕ, zero, suc, String, ◌≡◌, ◌∙◌, inl, inr, false, not, Option, none, some, List, [], ◌∷◌,
  ◌++◌, arith, nat_eq, string_eq, Option-cases, select, is_empty, split, refl, sym, ap, Bool, ◌==◌,
  subst,
}
use apate.Prelude.Words.{select-append, split-rsplit-none, split-rsplit}
use apate.Core.Errno.{
  Result, ok, err, key_error, runtime_error, einval, enotdir, eisdir, enospc, enoent, enotempty,
  eio, efbig, eagain, eacces, ebadf, eexist,
}
use apate.Core.Namespace.{Inode, Namespace, zscore}
use apate.Core.Namespace.Laws.{zscore-hset}
use apate.Core.Scripts.Tree.{is_dot, IsWellFormed}
use apate.Core.State.{eexist, ok, err, Result, parts, walk, resolve_path_sync}
use apate.Core.State.Setup.{basename, hset_found, created_or_there}
use apate.Core.State.Setup.Sound.{hset-IsWellFormed}

abbrev is_part : String → Bool
is_part p = not (is_empty p)

select_part : (word : String) → is_empty word ≡ false → select is_part (word ∷ []) ≡ word ∷ []
select_part word full = rw full refl

-- A path whose last part is not empty ends in it.
parts-basename :
    (path : String)
    → is_empty (basename path) ≡ false
    → (ps : List String) × (parts path ≡ ps ++ (basename path ∷ []))
unfolding parts basename
parts-basename path full = elim (Option-cases (rsplit b'/' path)) [
  | inl absent ↦
      let named : basename path ≡ path = rw (basename, absent) refl in
      (
        [],
        ap (select is_part) (split-rsplit-none b'/' path absent)
            ∙ select_part path (ap is_empty (sym named) ∙ full)
            ∙ ap (λ n. n ∷ []) (sym named),
      )
  | inr (both, there) ↦
      let named : basename path ≡ both.1 = rw (basename, there) refl in
      let front = select is_part (split b'/' both.0) in
      (
        front,
        ap (select is_part) (split-rsplit b'/' path both there)
            ∙ select-append is_part (split b'/' both.0) (both.1 ∷ [])
            ∙ ap (λ l. front ++ l) (select_part both.1 (ap is_empty (sym named) ∙ full))
            ∙ ap (λ n. front ++ (n ∷ [])) (sym named),
      )
]

-- A walk ends at an entry with the last name.
walk-last :
    (s : Namespace) (ps : List String) (d j : ℕ) (name : String)
    → walk s d (ps ++ (name ∷ [])) ≡ some j
    → (e : ℕ) × (zscore s e name ≡ some j)
unfolding walk
walk-last s [] d j name h = (
  d,
  elim (Option-cases (zscore s d name)) [
    | inl absent ↦ absurd (ground arith)
    | inr (zero, there) ↦ absurd (ground arith)
    | inr (suc k, there) ↦ ground arith
  ],
)
walk-last s (p ∷ ps) d j name h = elim (Option-cases (zscore s d p)) [
  | inl absent ↦ absurd (ground arith)
  | inr (zero, there) ↦ absurd (ground arith)
  | inr (suc k, there) ↦ walk-last s ps (suc k) j name (ground arith)
]

-- The inode stands somewhere under a name of its own.
abbrev pub IsPlaced : Namespace → Option ℕ → Type 0
IsPlaced s none = Unit
IsPlaced s (some j) = (d : ℕ) × (name : String) × (is_dot name ≡ false) × (zscore s d name ≡ some j)

pub hset_found-IsWellFormed :
    (found : Option ℕ) (f : Inode → Inode) (s : Namespace)
    → IsWellFormed s
    → IsPlaced s found
    → IsWellFormed (hset_found found f s) × IsPlaced (hset_found found f s) found
unfolding hset_found
hset_found-IsWellFormed none f s w at = (w, tt)
hset_found-IsWellFormed (some j) f s w (d, name, plain, there) = (
  hset-IsWellFormed s j f w (ground (arith, w.not_root d name j plain there))
      (w.live d name j plain there),
  (d, name, plain, zscore-hset s j d name f ∙ there),
)

-- A creation ends in a well-formed tree, in which the inode that it gives stands somewhere.
abbrev pub IsMade : Result (Option ℕ) × Namespace → Type 0
IsMade (err e, s) = IsWellFormed s
IsMade (ok found, s) = IsWellFormed s × IsPlaced s found

good_name :
    (name : String) → bad_name name ≡ false → (is_empty name ≡ false) × (is_dot name ≡ false)
unfolding bad_name is_empty
good_name String.[] good = absurd (ground arith)
good_name (String.◌∷◌ c name) good = (refl, ground arith)

there-IsPlaced :
    (s : Namespace) (path : String)
    → (path == "/") ≡ false
    → bad_name (basename path) ≡ false
    → IsPlaced s (resolve_path_sync s path)
unfolding resolve_path_sync
there-IsPlaced s path other good =
    let (full, plain) = good_name (basename path) good in
    let (ps, parts_are) = parts-basename path full in
    let walked : resolve_path_sync s path ≡ walk s 1 (ps ++ (basename path ∷ [])) =
      rw (other, parts_are) refl in
    elim (Option-cases (resolve_path_sync s path)) [
      | inl absent ↦ subst (IsPlaced s) (sym absent) tt
      | inr (j, there) ↦
          let (d, entry) = walk-last s ps 1 j (basename path) (sym walked ∙ there) in
          subst (IsPlaced s) (sym there) (d, basename path, plain, entry)
    ]

pub created_or_there-IsMade :
    (path : String) (s : Namespace) (r : Result ℕ)
    → (path == "/") ≡ false
    → IsWellFormed s
    → ((i : ℕ) → r ≡ ok i → IsPlaced s (some i))
    → (r ≡ err eexist → bad_name (basename path) ≡ false)
    → IsMade (created_or_there path (r, s))
unfolding created_or_there
created_or_there-IsMade path s (ok i) other w made there = (w, made i refl)
created_or_there-IsMade path s (err eexist) other w made there =
    (w, there-IsPlaced s path other (there refl))
created_or_there-IsMade path s (err key_error) other w made there = w
created_or_there-IsMade path s (err runtime_error) other w made there = w
created_or_there-IsMade path s (err einval) other w made there = w
created_or_there-IsMade path s (err enotdir) other w made there = w
created_or_there-IsMade path s (err eisdir) other w made there = w
created_or_there-IsMade path s (err enospc) other w made there = w
created_or_there-IsMade path s (err enoent) other w made there = w
created_or_there-IsMade path s (err enotempty) other w made there = w
created_or_there-IsMade path s (err eio) other w made there = w
created_or_there-IsMade path s (err efbig) other w made there = w
created_or_there-IsMade path s (err eagain) other w made there = w
created_or_there-IsMade path s (err eacces) other w made there = w
created_or_there-IsMade path s (err ebadf) other w made there = w

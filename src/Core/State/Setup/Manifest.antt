-- ===== src/Core/State/Setup/Manifest.antt =====
-- state.py, `_initialize_filesystem`: each entry, and the whole manifest, leaves a well-formed tree.
use apate.Core.State.Setup.Placed.{
  IsPlaced, hset_found-IsWellFormed, IsMade, created_or_there-IsMade,
}
use apate.Core.Scripts.Tree.Runs.{admitted, step-IsWellFormed}
use apate.Core.Scripts.Replies.{atomic_mkdir-cases, atomic_create-cases, Creates}
use apate.Core.Scripts.{
  bad_name, refusal, atomic_create, atomic_mkdir, Reply, add_file, add_directory, creates, mkdirs,
  step,
}
use apate.Prelude.{
  ℕ, suc, String, ◌≡◌, ◌∙◌, inl, inr, false, Option, none, some, List, [], ◌∷◌, arith, nat_eq,
  string_eq, Option-cases, refl, sym, ap, ◌==◌, subst, ==_refl, if◌then◌else◌, Bool-cases, true,
}
use apate.Core.Errno.{Result, ok, err, eexist}
use apate.Core.Scripts.Tree.Adds.{Adds, add_file-Adds, add_directory-Adds}
use apate.Core.Namespace.{Namespace, zscore, inode, mode_of}
use apate.Core.Scripts.Tree.{IsWellFormed, is_dir-present, root_number}
use apate.Core.State.{
  eexist, ok, err, Result, create_file, make_directory, resolve_path_sync, raise_exists,
}
use apate.Core.State.Setup.{
  basename, hset_found, ManifestEntry, created_or_there, make_entry, classify, owned_by_profile,
  settle, dirname, make_entries, initialize_filesystem, make_root, sort_by_depth,
}
use apate.Core.State.Setup.Sound.{IsStart, make_root-IsWellFormed}

module _ {s : Namespace} (w : IsWellFormed s) (parent : ℕ) (name : String) (mode t : ℕ) where
  added-IsPlaced :
      (s' : Namespace) (r : Reply × Namespace) (i : ℕ)
      → Creates s parent name (suc s.next_inode) s' r
      → Adds s s' parent name
      → raise_exists r.0 ≡ ok i
      → IsPlaced r.1 (some i)
  added-IsPlaced s' r i c adds made =
      let a = admitted s parent name c.passed in
      let number_is : suc s.next_inode ≡ i = ground (arith, c.reply) in
      let entry : zscore s' parent name ≡ some (suc s.next_inode) =
        ground (arith, adds.entries parent name a.named, ==_refl name) in
      (
        parent,
        name,
        a.named,
        ap (λ (q : Reply × Namespace). zscore q.1 parent name) c.reply ∙ entry ∙ ap some number_is,
      )

  file-IsPlaced :
      (i : ℕ)
      → (create_file parent name mode t s).0 ≡ ok i
      → IsPlaced (create_file parent name mode t s).1 (some i)
  unfolding create_file
  file-IsPlaced i made = elim (atomic_create-cases s parent name mode t) [
    | inl refused ↦ absurd (ground arith)
    | inr c ↦
        let a = admitted s parent name c.passed in
        added-IsPlaced (add_file parent name mode t s) (atomic_create parent name mode t s) i c
          (add_file-Adds s parent name mode t a.named (root_number w)) made
  ]

  directory-IsPlaced :
      (i : ℕ)
      → (make_directory parent name mode t s).0 ≡ ok i
      → IsPlaced (make_directory parent name mode t s).1 (some i)
  unfolding make_directory
  directory-IsPlaced i made = elim (atomic_mkdir-cases s parent name mode t) [
    | inl refused ↦ absurd (ground arith)
    | inr c ↦
        let a = admitted s parent name c.passed in
        let p = is_dir-present s parent a.parent_is_dir in
        added-IsPlaced (add_directory parent name mode t s) (atomic_mkdir parent name mode t s) i c
          (add_directory-Adds s parent name mode t a.named (root_number w)
            (w.inodes_below parent p))
          made
  ]

exists-good :
    (s : Namespace) (parent : ℕ) (name : String) (mode t : ℕ)
    → ((create_file parent name mode t s).0 ≡ err eexist → bad_name name ≡ false)
      × ((make_directory parent name mode t s).0 ≡ err eexist → bad_name name ≡ false)
unfolding create_file make_directory atomic_create atomic_mkdir refusal
exists-good s parent name mode t = (λ e. ground arith, λ e. ground arith)

settle-IsWellFormed :
    (primary_user : String) (entry : ManifestEntry) (made : Result (Option ℕ) × Namespace)
    → IsMade made
    → IsWellFormed (settle primary_user entry made).1
unfolding settle
settle-IsWellFormed primary_user entry (err e, s) w = w
settle-IsWellFormed primary_user entry (ok i, s) (w, at) = elim (Bool-cases entry.is_directory) [
  | inl directory ↦
      simp directory (hset_found-IsWellFormed i (owned_by_profile primary_user entry) s w at).0
  | inr file ↦
      let (w', at') = hset_found-IsWellFormed i (classify entry.entry_class) s w at in
      simp file
        (hset_found-IsWellFormed i (owned_by_profile primary_user entry)
          (hset_found i (classify entry.entry_class) s) w' at').0
]

make_entry-IsWellFormed :
    (primary_user : String) (timestamp : ℕ) (entry : ManifestEntry) (parent : ℕ) (s : Namespace)
    → IsWellFormed s
    → (entry.path == "/") ≡ false
    → IsWellFormed (make_entry primary_user timestamp entry parent s).1
unfolding make_entry make_directory step create_file
make_entry-IsWellFormed primary_user timestamp entry parent s w other =
    let name = basename entry.path in
    let file = create_file parent name 33188 timestamp s in
    let directory = make_directory parent name 16877 timestamp s in
    elim (Bool-cases entry.is_directory) [
      | inl is ↦
          subst
            (λ b.
              IsWellFormed
                (settle primary_user entry
                  (created_or_there entry.path (if b then directory else file))).1)
            (sym is)
            (settle-IsWellFormed primary_user entry (created_or_there entry.path directory) (
              created_or_there-IsMade entry.path directory.1 directory.0 other
                (step-IsWellFormed (mkdirs parent name 16877 timestamp) s w)
                (directory-IsPlaced w parent name 16877 timestamp)
                (exists-good s parent name 16877 timestamp).1))
      | inr is ↦
          subst
            (λ b.
              IsWellFormed
                (settle primary_user entry
                  (created_or_there entry.path (if b then directory else file))).1)
            (sym is)
            (settle-IsWellFormed primary_user entry (created_or_there entry.path file) (
              created_or_there-IsMade entry.path file.1 file.0 other
                (step-IsWellFormed (creates parent name 33188 timestamp) s w)
                (file-IsPlaced w parent name 33188 timestamp)
                (exists-good s parent name 33188 timestamp).0))
    ]

make_entries-IsWellFormed :
    (primary_user : String) (timestamp : ℕ) (entries : List ManifestEntry) (s : Namespace)
    → IsWellFormed s
    → IsWellFormed (make_entries primary_user timestamp entries s).1
unfolding make_entries
make_entries-IsWellFormed primary_user timestamp [] s w = w
make_entries-IsWellFormed primary_user timestamp (entry ∷ entries) s w =
    elim (Bool-cases (entry.path == "/")) [
      | inl root ↦ simp root (make_entries-IsWellFormed primary_user timestamp entries s w)
      | inr other ↦ elim (Option-cases (resolve_path_sync s (dirname entry.path))) [
        | inl absent ↦ simp (other, absent) w
        | inr (parent, there) ↦
            let next = make_entry primary_user timestamp entry parent s in
            let w' = make_entry-IsWellFormed primary_user timestamp entry parent s w other in
            elim (Option-cases next.0) [
              | inl goes_on ↦
                  simp (other, there, goes_on)
                    (make_entries-IsWellFormed primary_user timestamp entries next.1 w')
              | inr (e, stops) ↦ simp (other, there, stops) w'
            ]
      ]
    ]

initialized-IsWellFormed :
    (s : Namespace) → IsWellFormed s → IsWellFormed (record s { initialized = true })
unfolding inode zscore mode_of
initialized-IsWellFormed s w = record {
  root = w.root;
  inodes_below = w.inodes_below;
  targets_below = w.targets_below;
  dirs_below = w.dirs_below;
  holder = w.holder;
  self = w.self;
  live = w.live;
  not_root = w.not_root;
  one_place = w.one_place;
}

-- From an empty Redis, or from a well-formed tree such as an interrupted initialization leaves, the
-- initialization leaves a well-formed tree, whatever the manifest holds, also where it stops by an
-- exception.
pub initialize_filesystem-IsWellFormed :
    (primary_user : String) (manifest : List ManifestEntry) (timestamp : ℕ) (s : Namespace)
    → IsStart s
    → IsWellFormed (initialize_filesystem primary_user manifest timestamp s).1
unfolding initialize_filesystem
initialize_filesystem-IsWellFormed primary_user manifest timestamp s start =
    elim (Bool-cases s.initialized) [
      | inl done ↦
          let w : IsWellFormed s = elim start [
            | inl e ↦ absurd (ground (arith, done, ap (λ (t : Namespace). t.initialized) e))
            | inr w ↦ w
          ] in
          simp done w
      | inr open_still ↦
          let next =
            make_entries primary_user timestamp (sort_by_depth manifest) (make_root timestamp s) in
          let w =
            make_entries-IsWellFormed primary_user timestamp (sort_by_depth manifest)
              (make_root timestamp s) (make_root-IsWellFormed timestamp s start) in
          elim (Option-cases next.0) [
            | inr (e, stops) ↦ simp (open_still, stops) w
            | inl ends ↦ simp (open_still, ends) (initialized-IsWellFormed next.1 w)
          ]
    ]

-- Once the initialization has ended without an exception, a further one changes nothing.
initialize_filesystem_again :
    (primary_user : String) (manifest : List ManifestEntry) (timestamp later : ℕ) (s : Namespace)
    → (initialize_filesystem primary_user manifest timestamp s).0 ≡ none
    → let s' = (initialize_filesystem primary_user manifest timestamp s).1 in
      initialize_filesystem primary_user manifest later s' ≡ (none, s')
unfolding initialize_filesystem
initialize_filesystem_again primary_user manifest timestamp later s finished =
    elim (Bool-cases s.initialized) [
      | inl done ↦ simp done refl
      | inr open_still ↦
          let next =
            make_entries primary_user timestamp (sort_by_depth manifest) (make_root timestamp s) in
          elim (Option-cases next.0) [
            | inr (e, stops) ↦ absurd (ground (arith, open_still, stops, finished))
            | inl ends ↦ simp (open_still, ends) refl
          ]
    ]

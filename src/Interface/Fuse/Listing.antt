-- ===== src/Interface/Fuse/Listing.antt =====
-- fuse.py, `readdir`: the names that are listed are those that the directory has.
use apate.Interface.Fuse.{Result, ok, audit, apply_in, in_session, readdir}
use apate.Core.Action.{then_do-ok, Action}
use apate.Core.Content.{Bytes}
use apate.Interface.Fuse.State.{
  listing, Context, Audited, ChronosFuse, resolve_inode, current_session,
}
use apate.Prelude.{
  ℕ, String, ◌≡◌, refl, sym, ap, ◌∙◌, inl, inr, Bool, ◌&&◌, ◌||◌, List, [], ◌∷◌, map, arith, ltb,
  ◌==◌, nat_eq, string_eq, Bool-cases, is_some, select, contains, true, false, not, Option, ==-symm,
  get_or, Option-cases, is_empty, ◌++◌,
}
use apate.Dict
use apate.Dict.{Dict}
use apate.Core.Namespace.{Namespace, zscore, insert_by_score, sort_by_score, zrange, members}

abbrev names : List (String × ℕ) → List String
names = map (λ entry. entry.0)

contains-insert_by_score :
    (entry : String × ℕ) (entries : List (String × ℕ)) (name : String)
    → contains (names (insert_by_score entry entries)) name
      ≡ entry.0 == name || contains (names entries) name
unfolding insert_by_score
contains-insert_by_score entry [] name = refl
contains-insert_by_score entry (first ∷ rest) name =
    let rest_lem = contains-insert_by_score entry rest name in
    elim (Bool-cases (ltb first.1 entry.1)) [
      | inr stops ↦ simp stops refl
      | inl goes_on ↦ simp (goes_on, rest_lem) (grind arith)
    ]

contains-sort_by_score :
    (entries : List (String × ℕ)) (name : String)
    → contains (names (sort_by_score entries)) name ≡ is_some (Dict.get entries name)
unfolding sort_by_score Dict.get
contains-sort_by_score [] name = refl
contains-sort_by_score ((first, i) ∷ rest) name =
    contains-insert_by_score (first, i) (sort_by_score rest) name
    ∙ (elim (Bool-cases (first == name)) [
      | inl is ↦ simp is refl
      | inr is ↦ simp is (contains-sort_by_score rest name)
    ])

contains-select :
    (p : String → Bool) (xs : List String) (name : String)
    → contains (select p xs) name ≡ p name && contains xs name
contains-select p [] name = ground arith
contains-select p (x ∷ xs) name =
    let rest = contains-select p xs name in
    elim (Bool-cases (x == name)) [
      | inl is ↦
          let same : p x ≡ p name = ap p ((string_eq.beq_iff x name).0 is) in
          elim (Bool-cases (p x)) [
            | inl kept ↦ simp (kept, is, sym same ∙ kept) refl
            | inr dropped ↦ simp (dropped, rest, sym same ∙ dropped) refl
          ]
      | inr is ↦ elim (Bool-cases (p x)) [
        | inl kept ↦ simp (kept, is, rest) refl
        | inr dropped ↦ simp (dropped, is, rest) refl
      ]
    ]

without_dots : (a b z : Bool) → a || (b || (not (a || b) && z)) ≡ a || (b || z)
without_dots true b z = refl
without_dots false true z = refl
without_dots false false z = refl

contains-listing :
    (n : Namespace) (i : ℕ) (name : String)
    → contains (listing (zrange n i)) name
      ≡ name == "." || (name == ".." || is_some (zscore n i name))
unfolding listing zrange zscore
contains-listing n i name =
    let entries = members n i in
    simp
      (
        ==-symm "." name,
        ==-symm ".." name,
        contains-select (λ file. not (file == "." || file == "..")) (names (sort_by_score entries))
            name,
        contains-sort_by_score entries name,
      )
      (without_dots (name == ".") (name == "..") (is_some (Dict.get entries name)))

-- The session does not hang on the namespaces.
current_session-sessions :
    (c : Context) (f : ChronosFuse) (id : String) (spaces : Dict String Namespace)
    → current_session c f ≡ (ok id, f)
    → current_session c (record f { sessions = spaces }) ≡ (ok id, record f { sessions = spaces })
unfolding current_session
current_session-sessions c f id spaces known = elim (Option-cases (Dict.get f.session_pids c.pid)) [
  | inl absent ↦ absurd (ground (arith, absent, known))
  | inr (found, there) ↦ elim (Bool-cases (is_empty found)) [
    | inl none_there ↦ absurd (ground (arith, there, none_there, known))
    | inr given ↦
        let found_one = rw (current_session, there, given) at known in
        rw (current_session, there, given)
          (ap (λ (r : Result String × ChronosFuse). (r.0, record f { sessions = spaces }))
            found_one)
  ]
]

module _ (fresh : Namespace) (admits : List Audited → Bool) (digest : Bytes → String)
    (generate : ℕ → String → Action Namespace (Option Bytes)) where
  -- A reading of the session's namespace, after which the namespace stands in the table.
  reads-sessions :
      {A : Type 0} (c : Context) (id : String) (look : Namespace → Result A) (f : ChronosFuse)
      (n : Namespace)
      → current_session c f ≡ (ok id, f)
      → get_or fresh (Dict.get f.sessions id) ≡ n
      → in_session fresh admits digest generate c (λ m. (look m, m)) f
        ≡ (look n, record f { sessions = Dict.put f.sessions id n })
  unfolding in_session apply_in
  reads-sessions c id look f n known at = then_do-ok (current_session c) _ f f id known ∙ rw at refl

  -- Where the caller has a session, the path leads to an inode and the audit spool takes the event,
  -- `readdir` returns a listing that has `.`, `..` and just the names that the directory has.
  pub readdir_lists :
      (c : Context) (path id : String) (f : ChronosFuse) (i : ℕ)
      → current_session c f ≡ (ok id, f)
      → resolve_inode path (get_or fresh (Dict.get f.sessions id)) ≡ ok i
      → admits f.audited ≡ true
      → let n = get_or fresh (Dict.get f.sessions id) in
        (files : List String) × ((readdir fresh admits digest generate c path f).0 ≡ ok files)
        × ((name : String)
            → contains files name ≡ name == "." || (name == ".." || is_some (zscore n i name)))
  unfolding readdir audit
  readdir_lists c path id f i known leads admitted =
      let n = get_or fresh (Dict.get f.sessions id) in
      let once = record f { sessions = Dict.put f.sessions id n } in
      let known_once = current_session-sessions c f id once.sessions known in
      let twice = record once { sessions = Dict.put once.sessions id n } in
      let known_twice = current_session-sessions c f id twice.sessions known in
      let resolved = reads-sessions c id (resolve_inode path) f n known refl in
      let read_names =
        reads-sessions c id (λ m. ok (zrange m i)) once n known_once (rw Dict.get-put_self refl) in
      let entry : Audited = record {
        session_id = id;
        operation = "readdir";
        path = path;
        inode = i;
      } in
      let after = record twice { audited = f.audited ++ (entry ∷ []) } in
      let result : readdir fresh admits digest generate c path f
          ≡ (ok (listing (zrange n i)), after) =
        then_do-ok _ _ f once i (resolved ∙ ap (λ (r : Result ℕ). (r, once)) leads)
        ∙ then_do-ok _ _ once twice (zrange n i) read_names
        ∙ then_do-ok _ _ twice twice id known_twice
        ∙ then_do-ok _ _ twice after tt (rw admitted refl) in
      (
        listing (zrange n i),
        ap (λ (r : Result (List String) × ChronosFuse). r.0) result,
        contains-listing n i,
      )

-- ===== src/Core/Cleanup/Spares.antt =====
-- session_cleanup.py: what a round of the reaper leaves alone.
use apate.Prelude.{
  ◌||◌, ℕ, ◌≡◌, refl, ap, ◌≢◌, inl, inr, Bool, true, false, not, List, [], ◌∷◌, ◌++◌, arith, ◌==◌,
  nat_eq, string_eq, Bool-cases, select, sym, ◌∙◌, Option, some, Option-cases, All, contains,
}
use apate.Dict
use apate.Dict.{Dict}
use apate.Core.Scoped.{Text, starts_with, session_prefix}
use apate.Core.Scoped.Isolation.{has_colon, before_prefix}
use apate.Core.Cleanup.{
  text_eq, same_codes, same_codes_iff, Mount, is_canonical, delete_namespace, remove_session,
  active_sessions, candidates, orphan_sessions, reap_session, reap_all, reap_round,
}
use apate.Core.Scoped.{codes}
use apate.Core.Scoped.Isolation.{append-injective, starts_with-append}
use apate.Core.Cleanup.{Keyspace, machine_state_key, belongs}

-- The keys of a session: those under its prefix and its machine state.
abbrev pub is_own : Text → Text → Bool
is_own sid name = starts_with (session_prefix sid) name || name == machine_state_key sid

-- The keys of the whole program: neither under a session's prefix nor a machine state.
abbrev pub is_shared : Text → Bool
is_shared name =
    not (starts_with (codes "session:") name || starts_with (codes "chronos:machine_state:") name)

-- The keys that a session depends on, of which `session_pid` keys are among the shared ones.
abbrev pub keys_of : Text → Keyspace → Keyspace
keys_of sid = select (λ row. is_own sid row.0 || is_shared row.0)

abbrev pub fds_of : Text → Dict ℕ Text → Dict ℕ Text
fds_of sid = select (λ row. row.1 == sid)

starts_with-prefix :
    (start text : Text) → starts_with start text ≡ true → (rest : Text) × (text ≡ start ++ rest)
unfolding starts_with
starts_with-prefix [] text h = (text, refl)
starts_with-prefix (c ∷ start) [] h = absurd (ground arith)
starts_with-prefix (c ∷ start) (d ∷ text) h =
    let (rest, e) = starts_with-prefix start text (ground arith) in
    let same : c ≡ d = ground arith in (rest, cc)

same_codes-differs : (t u : Text) → t ≢ u → same_codes t u ≡ false
same_codes-differs t u ne = elim (Bool-cases (same_codes t u)) [
  | inr free ↦ free
  | inl is ↦ absurd (ne ((same_codes_iff t u).0 is))
]

prefix-not_state : (sid other v : Text) → session_prefix sid ++ v ≢ machine_state_key other
unfolding session_prefix machine_state_key
prefix-not_state sid other v e = absurd (ground (arith, ap first_code e))
  where
    first_code : Text → ℕ
    first_code [] = 0
    first_code (c ∷ t) = c

under_session : (sid v : Text) → starts_with (codes "session:") (session_prefix sid ++ v) ≡ true
unfolding session_prefix starts_with
under_session sid v = refl

under_state :
    (sid : Text) → starts_with (codes "chronos:machine_state:") (machine_state_key sid) ≡ true
unfolding machine_state_key
under_state sid = starts_with-append (codes "chronos:machine_state:") sid

state_key_injective :
    (sid other : Text) → machine_state_key sid ≡ machine_state_key other → sid ≡ other
unfolding machine_state_key
state_key_injective sid other e = append-injective (codes "chronos:machine_state:") sid other e

-- A key under the prefix of another session.
under-not_kept :
    (sid other w : Text)
    → has_colon sid ≡ false
    → has_colon other ≡ false
    → sid ≢ other
    → let name = session_prefix other ++ w in (is_own sid name || is_shared name) ≡ false
under-not_kept sid other w hs ho ne =
    let name = session_prefix other ++ w in
    let not_mine : starts_with (session_prefix sid) name ≡ false =
      elim (Bool-cases (starts_with (session_prefix sid) name)) [
        | inr free ↦ free
        | inl mine ↦
            let (v, begins) = starts_with-prefix (session_prefix sid) name mine in
            absurd (ne (before_prefix sid other v w hs ho (sym begins)))
      ] in
    let not_state : same_codes name (machine_state_key sid) ≡ false =
      same_codes-differs name (machine_state_key sid) (prefix-not_state other sid w) in
    let session_key : starts_with (codes "session:") name ≡ true = under_session other w in
    rw (not_mine, not_state, session_key) refl

-- The machine state of another session.
state-not_kept :
    (sid other : Text)
    → sid ≢ other
    → let name = machine_state_key other in (is_own sid name || is_shared name) ≡ false
state-not_kept sid other ne =
    let name = machine_state_key other in
    let not_mine : starts_with (session_prefix sid) name ≡ false =
      elim (Bool-cases (starts_with (session_prefix sid) name)) [
        | inr free ↦ free
        | inl mine ↦
            let (v, begins) = starts_with-prefix (session_prefix sid) name mine in
            absurd (prefix-not_state sid other v (sym begins))
      ] in
    let not_state : same_codes name (machine_state_key sid) ≡ false =
      same_codes-differs name (machine_state_key sid)
        (λ e. ne (sym (state_key_injective other sid e))) in
    rw (not_mine, not_state, under_state other) (ground arith)

kept-not_belongs :
    (sid other name : Text)
    → has_colon sid ≡ false
    → has_colon other ≡ false
    → sid ≢ other
    → (is_own sid name || is_shared name) ≡ true
    → belongs other name ≡ false
unfolding belongs
kept-not_belongs sid other name hs ho ne kept =
    let not_theirs : starts_with (session_prefix other) name ≡ false =
      elim (Bool-cases (starts_with (session_prefix other) name)) [
        | inr free ↦ free
        | inl theirs ↦
            let (w, begins) = starts_with-prefix (session_prefix other) name theirs in
            absurd (
              ground (
                arith,
                sym kept
                    ∙ ap (λ n. is_own sid n || is_shared n) begins
                    ∙ under-not_kept sid other w hs ho ne,
              ))
      ] in
    let not_state : same_codes name (machine_state_key other) ≡ false =
      same_codes-differs name (machine_state_key other) (λ e. absurd (
        ground (
          arith,
          sym kept ∙ ap (λ n. is_own sid n || is_shared n) e ∙ state-not_kept sid other ne,
        ))) in
    rw (not_theirs, not_state) refl

select-disjoint {ℓ} :
    {A : Type ℓ} (p q : A → Bool)
    → ((x : A) → p x ≡ true → q x ≡ false)
    → (xs : List A) → select p (select (λ x. not (q x)) xs) ≡ select p xs
select-disjoint p q apart [] = refl
select-disjoint p q apart (x ∷ xs) = elim (Bool-cases (p x)) [
  | inl is ↦ simp (apart x is, is, select-disjoint p q apart xs) refl
  | inr is ↦ elim (Bool-cases (q x)) [
    | inl drops ↦ simp (drops, is) (select-disjoint p q apart xs)
    | inr stays ↦ simp (stays, is) (select-disjoint p q apart xs)
  ]
]

-- What the mount holds of a session is the same.
pub record Keeps (sid : Text) (m m' : Mount) : Type 0 where
  pub keys : keys_of sid m'.keys ≡ keys_of sid m.keys
  pub generator : Dict.get m'.sessions sid ≡ Dict.get m.sessions sid
  pub descriptors : fds_of sid m'.fd_table ≡ fds_of sid m.fd_table

Keeps-same : (sid : Text) (m : Mount) → Keeps sid m m
Keeps-same sid m = record { keys = refl; generator = refl; descriptors = refl }

Keeps-both : (sid : Text) (m n o : Mount) → Keeps sid m n → Keeps sid n o → Keeps sid m o
Keeps-both sid m n o first next = record {
  keys = next.keys ∙ first.keys;
  generator = next.generator ∙ first.generator;
  descriptors = next.descriptors ∙ first.descriptors;
}

fds-apart :
    (sid other : Text)
    → sid ≢ other
    → (table : Dict ℕ Text)
    → fds_of sid (select (λ row. not (row.1 == other)) table) ≡ fds_of sid table
fds-apart sid other ne table =
    select-disjoint (λ (row : ℕ × Text). row.1 == sid) (λ row. row.1 == other)
      (λ row mine.
        same_codes-differs row.1 other (λ e. ne (sym ((same_codes_iff row.1 sid).0 mine) ∙ e)))
      table

others_inactive :
    (sid : Text) (active : List Text)
    → contains active sid ≡ true
    → (found : List Text) → All (λ other. sid ≢ other) (select (λ t. not (contains active t)) found)
others_inactive sid active h [] = tt
others_inactive sid active h (t ∷ found) = elim (Bool-cases (contains active t)) [
  | inl is ↦ simp is (others_inactive sid active h found)
  | inr free ↦ simp free (
    λ e. absurd (ground (arith, h, free, ap (contains active) e)),
    others_inactive sid active h found,
  )
]

module _ (uuid : Text → Option Text)
    (colonless : (t : Text) → uuid t ≡ some t → has_colon t ≡ false) where
  pub canonical-uuid : (t : Text) → is_canonical uuid t ≡ true → uuid t ≡ some t
  unfolding is_canonical
  canonical-uuid t h = elim (Option-cases (uuid t)) [
    | inl refused ↦ absurd (ground arith)
    | inr (written, e) ↦
        let same : same_codes written t ≡ true = rw (is_canonical, e) at h in
        e ∙ ap some ((same_codes_iff written t).0 same)
  ]

  remove_session-Keeps :
      (sid other : Text) (m : Mount)
      → uuid sid ≡ some sid
      → sid ≢ other
      → Keeps sid m (remove_session uuid other m).1
  unfolding remove_session delete_namespace
  remove_session-Keeps sid other m known ne = elim (Bool-cases (is_canonical uuid other)) [
    | inr refused ↦ rw (remove_session, delete_namespace, refused) (Keeps-same sid m)
    | inl known' ↦
        let ho = colonless other (canonical-uuid other known') in
        let differs : same_codes other sid ≡ false =
          same_codes-differs other sid (λ e. ne (sym e)) in
        rw (remove_session, delete_namespace, known')
          (record {
            keys =
                select-disjoint (λ (row : Text × Text). is_own sid row.0 || is_shared row.0)
                  (λ row. belongs other row.0)
                  (λ row mine. kept-not_belongs sid other row.0 (colonless sid known) ho ne mine)
                  m.keys;
            generator = rw (Dict.get-remove, differs) refl;
            descriptors = fds-apart sid other ne m.fd_table;
          })
  ]

  reap_session-Keeps :
      (closes : ℕ → Bool) (sid other : Text) (m : Mount)
      → uuid sid ≡ some sid
      → sid ≢ other
      → Keeps sid m (reap_session uuid closes other m).1
  unfolding reap_session
  reap_session-Keeps closes sid other m known ne = elim (Option-cases (Dict.get m.sessions other)) [
    | inl absent ↦ rw (reap_session, absent) (remove_session-Keeps sid other m known ne)
    | inr (generator, there) ↦ elim (Bool-cases (closes generator)) [
      | inr raises ↦ rw (reap_session, there, raises) (Keeps-same sid m)
      | inl returns ↦
          let m' = record m { closed = generator ∷ m.closed } in
          let after = remove_session-Keeps sid other m' known ne in
          rw (reap_session, there, returns)
            (record {
              keys = after.keys;
              generator = after.generator;
              descriptors = after.descriptors;
            })
    ]
  ]

  reap_all-Keeps :
      (closes : ℕ → Bool) (sid : Text) (stale : List Text) (m : Mount)
      → uuid sid ≡ some sid
      → All (λ other. sid ≢ other) stale
      → Keeps sid m (reap_all uuid closes stale m)
  unfolding reap_all
  reap_all-Keeps closes sid [] m known ne = Keeps-same sid m
  reap_all-Keeps closes sid (other ∷ stale) m known ne =
      let next = reap_session uuid closes other m in
      let first = reap_session-Keeps closes sid other m known ne.0 in
      elim (Bool-cases next.0) [
        | inr raises ↦ simp raises first
        | inl returns ↦ simp returns (
            Keeps-both sid m next.1 (reap_all uuid closes stale next.1) first
              (reap_all-Keeps closes sid stale next.1 known ne.1))
      ]

  -- A round of the reaper, whichever closings raise, leaves alone what an active session depends on:
  -- the keys under its prefix, its machine state, every key that is of no session, its generator and
  -- its file descriptors. The session's id is a UUID, and a UUID has no colon.
  pub reap_round_spares_active :
      (closes : ℕ → Bool) (sid : Text) (m : Mount)
      → uuid sid ≡ some sid
      → contains (active_sessions m.keys) sid ≡ true
      → Keeps sid m (reap_round uuid closes m)
  unfolding reap_round orphan_sessions
  reap_round_spares_active closes sid m known active =
      let active_now = active_sessions m.keys in
      reap_all-Keeps closes sid (orphan_sessions uuid m.keys) m known
        (others_inactive sid active_now active (candidates uuid m.keys))

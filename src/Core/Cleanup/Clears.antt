-- ===== src/Core/Cleanup/Clears.antt =====
-- session_cleanup.py: what a round of the reaper takes away.
use apate.Prelude.{
  ℕ, ◌≡◌, refl, inl, inr, Bool, true, not, Option, none, List, [], ◌∷◌, arith, ◌==◌, nat_eq,
  string_eq, ==_refl, Bool-cases, Option-cases, select, ap, ◌∙◌, ◌&&◌, All, contains, subst, sym,
}
use apate.Dict
use apate.Dict.{Dict}
use apate.Core.Scoped.{Text}
use apate.Core.Cleanup.{
  text_eq, belongs, Mount, is_canonical, delete_namespace, remove_session, reap_session, Keyspace,
  until_colon, after_colon, has_counter, candidates, orphan_sessions, reap_all, reap_round,
}
use apate.Core.Cleanup.Spares.{fds_of}

-- Nothing of the session is left.
pub record IsGone (sid : Text) (m : Mount) : Type 0 where
  pub keys : select (λ row. belongs sid row.0) m.keys ≡ []
  pub generator : Dict.get m.sessions sid ≡ none
  pub descriptors : fds_of sid m.fd_table ≡ []

select-without {ℓ} :
    {A : Type ℓ} (p : A → Bool) (xs : List A) → select p (select (λ x. not (p x)) xs) ≡ []
select-without p [] = refl
select-without p (x ∷ xs) = elim (Bool-cases (p x)) [
  | inl is ↦ simp (is, select-without p xs) refl
  | inr is ↦ simp (is, select-without p xs) refl
]

select-empty {ℓ} :
    {A : Type ℓ} (p q : A → Bool) (xs : List A) → select p xs ≡ [] → select p (select q xs) ≡ []
select-empty p q [] e = refl
select-empty p q (x ∷ xs) e = elim (Bool-cases (p x)) [
  | inl is ↦ absurd (ground (arith, is, e))
  | inr is ↦
      let rest = select-empty p q xs (simp is at e) in
      elim (Bool-cases (q x)) [ inl stays ↦ simp (stays, is) rest | inr drops ↦ simp drops rest ]
]

All-select {ℓ κ} :
    {A : Type ℓ} (Holds : A → Type κ) (p : A → Bool) (xs : List A)
    → All Holds xs
    → All Holds (select p xs)
All-select Holds p [] h = tt
All-select Holds p (x ∷ xs) h = elim (Bool-cases (p x)) [
  | inl is ↦ simp is (h.0, All-select Holds p xs h.1)
  | inr is ↦ simp is (All-select Holds p xs h.1)
]

module _ (uuid : Text → Option Text) (closes : ℕ → Bool)
    (all_close : (g : ℕ) → closes g ≡ true) where
  remove_session_returns :
      (sid : Text) (m : Mount) → is_canonical uuid sid ≡ true → (remove_session uuid sid m).0 ≡ true
  unfolding remove_session delete_namespace
  remove_session_returns sid m known = rw (remove_session, delete_namespace, known) refl

  remove_session-IsGone :
      (sid : Text) (m : Mount)
      → is_canonical uuid sid ≡ true
      → IsGone sid (remove_session uuid sid m).1
  unfolding remove_session delete_namespace
  remove_session-IsGone sid m known =
      rw (remove_session, delete_namespace, known)
        (record {
          keys = select-without (λ (row : Text × Text). belongs sid row.0) m.keys;
          generator = rw (Dict.get-remove, ==_refl sid) refl;
          descriptors = select-without (λ (row : ℕ × Text). row.1 == sid) m.fd_table;
        })

  remove_session_stays-IsGone :
      (sid other : Text) (m : Mount)
      → is_canonical uuid other ≡ true
      → IsGone sid m
      → IsGone sid (remove_session uuid other m).1
  unfolding remove_session delete_namespace
  remove_session_stays-IsGone sid other m known gone =
      rw (remove_session, delete_namespace, known)
        (record {
          keys = select-empty (λ (row : Text × Text). belongs sid row.0) _ m.keys gone.keys;
          generator = ground (arith, Dict.get-remove m.sessions other sid, gone.generator);
          descriptors =
              select-empty (λ (row : ℕ × Text). row.1 == sid) _ m.fd_table gone.descriptors;
        })

  -- A session is reaped by `remove_session`, on the mount that has its generator closed.
  reap_session-cases :
      (sid : Text) (m : Mount)
      → (closed : List ℕ) × (reap_session uuid closes sid m
          ≡ remove_session uuid sid (record m { closed = closed }))
  unfolding reap_session remove_session
  reap_session-cases sid m = elim (Option-cases (Dict.get m.sessions sid)) [
    | inl absent ↦ (m.closed, rw (reap_session, absent) refl)
    | inr (generator, there) ↦
        (generator ∷ m.closed, rw (reap_session, there, all_close generator) refl)
  ]

  reap_session_lem :
      (sid : Text) (m : Mount)
      → is_canonical uuid sid ≡ true
      → (m' : Mount) × (reap_session uuid closes sid m ≡ (true, m'))
        × IsGone sid m'
        × ((t : Text) → IsGone t m → IsGone t m')
  reap_session_lem sid m known =
      let (closed, e) = reap_session-cases sid m in
      let start = record m { closed = closed } in
      let done = remove_session uuid sid start in
      (
        done.1,
        e ∙ ap (λ (returns : Bool). (returns, done.1)) (remove_session_returns sid start known),
        remove_session-IsGone sid start known,
        λ t gone. remove_session_stays-IsGone t sid start known (record {
          keys = gone.keys;
          generator = gone.generator;
          descriptors = gone.descriptors;
        }),
      )

  reap_all_stays-IsGone :
      (t : Text) (stale : List Text) (m : Mount)
      → All (λ sid. is_canonical uuid sid ≡ true) stale
      → IsGone t m
      → IsGone t (reap_all uuid closes stale m)
  unfolding reap_all
  reap_all_stays-IsGone t [] m known gone = gone
  reap_all_stays-IsGone t (sid ∷ stale) m known gone =
      let (m', e, there, others) = reap_session_lem sid m known.0 in
      rw (reap_all, e) (reap_all_stays-IsGone t stale m' known.1 (others t gone))

  reap_all-IsGone :
      (stale : List Text) (m : Mount)
      → All (λ sid. is_canonical uuid sid ≡ true) stale
      → All (λ sid. IsGone sid (reap_all uuid closes stale m)) stale
  unfolding reap_all
  reap_all-IsGone [] m known = tt
  reap_all-IsGone (sid ∷ stale) m known =
      let (m', e, there, others) = reap_session_lem sid m known.0 in
      let next : reap_all uuid closes (sid ∷ stale) m ≡ reap_all uuid closes stale m' =
        rw (reap_all, e) refl in
      subst (λ after. IsGone sid after × All (λ t. IsGone t after) stale) (sym next)
        (reap_all_stays-IsGone sid stale m' known.1 there, reap_all-IsGone stale m' known.1)

  candidates_known :
      (keys : Keyspace) → All (λ sid. is_canonical uuid sid ≡ true) (candidates uuid keys)
  unfolding candidates
  candidates_known [] = tt
  candidates_known ((name, value) ∷ keys) =
      let sid = until_colon (after_colon name) in
      let rest = candidates_known keys in
      elim (Bool-cases
        (has_counter name && is_canonical uuid sid && not (contains (candidates uuid keys) sid))) [
          | inl is ↦ rw (candidates, is) (ground (arith, is), rest)
          | inr is ↦ rw (candidates, is) rest
        ]

  -- Where no closing of a generator raises, a round of the reaper leaves nothing of the sessions that
  -- are orphaned at its beginning: no key, no generator and no file descriptor.
  pub reap_round_clears_orphans :
      (m : Mount) → All (λ sid. IsGone sid (reap_round uuid closes m)) (orphan_sessions uuid m.keys)
  unfolding reap_round orphan_sessions
  reap_round_clears_orphans m = reap_all-IsGone (orphan_sessions uuid m.keys) m (
      All-select (λ sid. is_canonical uuid sid ≡ true) _ (candidates uuid m.keys)
        (candidates_known m.keys))

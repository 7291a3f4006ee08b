-- ===== src/Simulation/Bus/Order.antt =====
-- The order in which the subscribers of an event run.
use apate.Prelude.{
  ◌≤◌, ◌<◌, ◌≡◌, refl, inl, inr, Bool, List, [], ◌∷◌, ◌++◌, arith, leb, nat_beq, nat_beq_iff,
  nat_eq, string_eq, Bool-cases, select, All, append-nil, append_assoc, All-map, ℕ, String, sym, ap,
  ◌∙◌, not, ◌&&◌, Option, map, get_or, All-append,
}
use apate.Dict.{get-put_self}
use apate.Simulation.Bus.{
  EventPriority, high, normal, low, rank, Subscription, insert_sorted, sort, EventBus,
  subscribers_of, subscribe, Publication, is_low, run_callbacks, publish,
}

abbrev pub same_priority : EventPriority → Subscription → Bool
same_priority p s = nat_beq (rank p) (rank s.0)

-- The callbacks of one priority, in the order of the list.
abbrev pub with_priority : EventPriority → List Subscription → List Subscription
with_priority p subs = select (same_priority p) subs

abbrev pub ordered : List Subscription → List Subscription
ordered subs = with_priority high subs ++ (with_priority normal subs ++ with_priority low subs)

insert-past :
    (x : Subscription) (before after : List Subscription)
    → All (λ y. rank y.0 < rank x.0) before
    → insert_sorted x (before ++ after) ≡ before ++ insert_sorted x after
unfolding insert_sorted
insert-past x [] after all = refl
insert-past x (y ∷ before) after all =
    let rest = insert-past x before after all.1 in
    elim (Bool-cases (leb (rank x.0) (rank y.0))) [
      | inl h ↦ absurd (ground (arith, all.0))
      | inr h ↦ rw (h, rest) refl
    ]

insert-front :
    (x : Subscription) (after : List Subscription)
    → All (λ y. rank x.0 ≤ rank y.0) after
    → insert_sorted x after ≡ x ∷ after
unfolding insert_sorted
insert-front x [] all = refl
insert-front x (y ∷ after) all = elim (Bool-cases (leb (rank x.0) (rank y.0))) [
  | inl h ↦ rw h refl
  | inr h ↦ absurd (ground (arith, all.0))
]

rank-with_priority :
    (p : EventPriority) (subs : List Subscription)
    → All (λ y. rank y.0 ≡ rank p) (with_priority p subs)
rank-with_priority p [] = tt
rank-with_priority p (s ∷ subs) = elim (Bool-cases (same_priority p s)) [
  | inl h ↦ rw h (ground (arith, nat_beq_iff (rank p) (rank s.0)), rank-with_priority p subs)
  | inr h ↦ rw h (rank-with_priority p subs)
]

above :
    (p : EventPriority) (n : ℕ) (subs : List Subscription)
    → n ≤ rank p
    → All (λ y. n ≤ rank y.0) (with_priority p subs)
above p n subs h =
    All-map (λ (y : Subscription). rank y.0 ≡ rank p) (λ (y : Subscription). n ≤ rank y.0)
      (λ y e. omega (arith, e)) (with_priority p subs) (rank-with_priority p subs)

below :
    (p : EventPriority) (n : ℕ) (subs : List Subscription)
    → rank p < n
    → All (λ y. rank y.0 < n) (with_priority p subs)
below p n subs h =
    All-map (λ (y : Subscription). rank y.0 ≡ rank p) (λ (y : Subscription). rank y.0 < n)
      (λ y e. omega (arith, e)) (with_priority p subs) (rank-with_priority p subs)

least : (subs : List Subscription) → All (λ y. 1 ≤ rank y.0) subs
least [] = tt
least ((high, name) ∷ subs) = (omega arith, least subs)
least ((normal, name) ∷ subs) = (omega arith, least subs)
least ((low, name) ∷ subs) = (omega arith, least subs)

sort-ordered : (subs : List Subscription) → sort subs ≡ ordered subs
unfolding sort
sort-ordered [] = refl
sort-ordered ((high, name) ∷ subs) =
    ap (insert_sorted (high, name)) (sort-ordered subs)
    ∙ insert-front (high, name) (ordered subs) (least (ordered subs))
sort-ordered ((normal, name) ∷ subs) =
    let highs = with_priority high subs in
    let normals = with_priority normal subs in
    let lows = with_priority low subs in
    ap (insert_sorted (normal, name)) (sort-ordered subs)
    ∙ insert-past (normal, name) highs (normals ++ lows) (below high 5 subs (omega arith))
    ∙ ap (λ (l : List Subscription). highs ++ l)
        (insert-front (normal, name) (normals ++ lows)
          (All-append (λ (y : Subscription). 5 ≤ rank y.0) normals lows
            (above normal 5 subs (omega arith)) (above low 5 subs (omega arith))))
sort-ordered ((low, name) ∷ subs) =
    let highs = with_priority high subs in
    let normals = with_priority normal subs in
    let lows = with_priority low subs in
    ap (insert_sorted (low, name)) (sort-ordered subs)
    ∙ insert-past (low, name) highs (normals ++ lows) (below high 10 subs (omega arith))
    ∙ ap (λ (l : List Subscription). highs ++ l)
        (insert-past (low, name) normals lows (below normal 10 subs (omega arith))
          ∙ ap (λ (l : List Subscription). normals ++ l)
              (insert-front (low, name) lows (above low 10 subs (omega arith))))

abbrev pub names : List Subscription → List String
names subs = map (λ s. s.1) subs

run_callbacks-split :
    (subs : List Subscription) (p : Publication)
    → let p' = run_callbacks subs p in
      (p'.executed ≡ p.executed ++ names (select (λ s. not (is_low s.0)) subs))
      × (p'.submitted ≡ p.submitted ++ names (with_priority low subs))
unfolding run_callbacks
run_callbacks-split [] p = (sym (append-nil p.executed), sym (append-nil p.submitted))
run_callbacks-split ((high, name) ∷ subs) p =
    let (e, s) = run_callbacks-split subs (record p { executed = p.executed ++ name ∷ [] }) in
    (e ∙ append_assoc p.executed (name ∷ []) (names (select (λ s. not (is_low s.0)) subs)), s)
run_callbacks-split ((normal, name) ∷ subs) p =
    let (e, s) = run_callbacks-split subs (record p { executed = p.executed ++ name ∷ [] }) in
    (e ∙ append_assoc p.executed (name ∷ []) (names (select (λ s. not (is_low s.0)) subs)), s)
run_callbacks-split ((low, name) ∷ subs) p =
    let (e, s) = run_callbacks-split subs (record p { submitted = p.submitted ++ name ∷ [] }) in
    (e, s ∙ append_assoc p.submitted (name ∷ []) (names (with_priority low subs)))

-- After a subscription, whatever was subscribed before, the subscribers of the event are those
-- before and the new one, the high ones first, then the normal ones, then the low ones, each in the
-- order in which they stood; a publication runs them in that order, but hands the low ones to the
-- executor.
pub subscribe-ordered :
    (bus : EventBus) (event_type callback : String) (priority : EventPriority) (local_only : Bool)
    → let subs = subscribers_of bus event_type ++ (priority, callback) ∷ [] in
      let bus' = subscribe event_type callback priority bus in
      let p = publish event_type local_only bus' in
      (subscribers_of bus' event_type ≡ ordered subs)
      × (p.executed ≡ names (select (λ s. not (is_low s.0)) (ordered subs)))
      × (p.submitted ≡ names (with_priority low (ordered subs)))
unfolding subscribe publish
subscribe-ordered bus event_type callback priority local_only =
    let subs = subscribers_of bus event_type ++ (priority, callback) ∷ [] in
    let placed =
      ap (λ (o : Option (List Subscription)). get_or [] o)
        (get-put_self bus.subscribers event_type (sort subs))
      ∙ sort-ordered subs in
    let (executed, submitted) =
      run_callbacks-split (subscribers_of (subscribe event_type callback priority bus) event_type)
        (record {
          forwarded = bus.redis && not local_only && bus.experimental;
          executed = [];
          submitted = [];
        }) in
    (
      placed,
      executed ∙ ap (λ (l : List Subscription). names (select (λ s. not (is_low s.0)) l)) placed,
      submitted ∙ ap (λ (l : List Subscription). names (with_priority low l)) placed,
    )

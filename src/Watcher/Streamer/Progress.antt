-- ===== src/Watcher/Streamer/Progress.antt =====
-- log_streamer.py: the streamer goes through the log in order, and no row is passed that a
-- subscriber did not take.
use apate.Prelude.{
  ℕ, zero, suc, ◌-◌, ◌≤◌, ◌<◌, ◌≡◌, refl, true, List, [], ◌∷◌, ◌++◌, arith, ltb, nat_eq, string_eq,
  length, take, select, subst, append_assoc, String, sym, ap, ◌∙◌, inl, inr, Bool, false, Option,
  Bool-cases, none, some, drop, take-append-drop,
}
use apate.Dict.{Dict}
use apate.Watcher.Streamer.{
  LogRow, prepared, notify_subscribers, deliver, Streamer, fetch_new_events, poll,
}

-- Ids grow, from above this one.
abbrev pub IsAbove : ℕ → List LogRow → Type 0
IsAbove n [] = Unit
IsAbove n (row ∷ rows) = (n < row.id) × IsAbove row.id rows

-- The id of the last row.
abbrev pub last_from : ℕ → List LogRow → ℕ
last_from n [] = n
last_from n (row ∷ rows) = last_from row.id rows

pub last_from-append :
    (n : ℕ) (rows : List LogRow) (row : LogRow) → last_from n (rows ++ (row ∷ [])) ≡ row.id
last_from-append n [] row = refl
last_from-append n (first ∷ rows) row = last_from-append first.id rows row

le-last_from : (n : ℕ) (rows more : List LogRow) → IsAbove n (rows ++ more) → n ≤ last_from n rows
le-last_from n [] more h = omega arith
le-last_from n (row ∷ rows) more h = omega (arith, h.0, le-last_from row.id rows more h.1)

pub last_from-lt :
    (n : ℕ) (rows more : List LogRow) (row : LogRow)
    → IsAbove n (rows ++ (row ∷ more))
    → last_from n rows < row.id
last_from-lt n [] more row h = h.0
last_from-lt n (first ∷ rows) more row h = last_from-lt first.id rows more row h.1

pub IsAbove-front : (n : ℕ) (rows more : List LogRow) → IsAbove n (rows ++ more) → IsAbove n rows
IsAbove-front n [] more h = tt
IsAbove-front n (row ∷ rows) more h = (h.0, IsAbove-front row.id rows more h.1)

pub IsAbove-behind :
    (n : ℕ) (rows more : List LogRow) (row : LogRow)
    → IsAbove n (rows ++ (row ∷ more))
    → IsAbove row.id more
IsAbove-behind n [] more row h = h.1
IsAbove-behind n (first ∷ rows) more row h = IsAbove-behind first.id rows more row h.1

select_all :
    (n floor k : ℕ) (rows : List LogRow)
    → n ≤ floor
    → IsAbove floor rows
    → select (λ row. ltb n row.id) (take k rows) ≡ take k rows
select_all n floor zero rows le h = refl
select_all n floor (suc k) [] le h = refl
select_all n floor (suc k) (row ∷ rows) le h =
    let newer : ltb n row.id ≡ true = ground (arith, h.0) in
    rw (newer, select_all n row.id k rows (omega (arith, h.0)) h.1) refl

pub take_eq {ℓ} : {A : Type ℓ} (m n : ℕ) (xs : List A) → m ≡ n → take m xs ≡ take n xs
take_eq m n xs e = ap (λ j. take j xs) e

-- Of the rows visible so far, those after the last one are the next ones.
pub select_rest :
    (floor k : ℕ) (passed rest : List LogRow)
    → IsAbove floor (passed ++ rest)
    → select (λ row. ltb (last_from floor passed) row.id) (take k (passed ++ rest))
      ≡ take (k - length passed) rest
select_rest floor k [] rest h =
    subst (λ j. select (λ row. ltb floor row.id) (take k rest) ≡ take j rest) (omega arith)
      (select_all floor floor k rest (omega arith) h)
select_rest floor zero (row ∷ passed) rest h =
    take_eq 0 (0 - suc (length passed)) rest (omega arith)
select_rest floor (suc k) (row ∷ passed) rest h =
    let older : ltb (last_from row.id passed) row.id ≡ false =
      ground (arith, le-last_from row.id passed rest h.1) in
    rw older (
      select_rest row.id k passed rest h.1
      ∙ take_eq (k - length passed) (suc k - suc (length passed)) rest (omega arith))

-- What a poll fetches begins what was not passed yet.
fetch-rest :
    (audit_log passed rest : List LogRow) (k last_id : ℕ)
    → IsAbove 0 audit_log
    → passed ++ rest ≡ audit_log
    → last_id ≡ last_from 0 passed
    → (more : List LogRow) × (fetch_new_events (take k audit_log) last_id ++ more ≡ rest)
unfolding fetch_new_events
fetch-rest audit_log passed rest k last_id above whole at =
    let j = k - length passed in
    let fetched : select (λ row. ltb last_id row.id) (take k audit_log) ≡ take j rest =
      rw (at, sym whole) (select_rest 0 k passed rest (rw whole above)) in
    (
      drop 1000 (take j rest) ++ drop j rest,
      ap (λ rows. take 1000 rows ++ (drop 1000 (take j rest) ++ drop j rest)) fetched
          ∙ sym (append_assoc (take 1000 (take j rest)) (drop 1000 (take j rest)) (drop j rest))
          ∙ ap (λ rows. rows ++ drop j rest) (take-append-drop 1000 (take j rest))
          ∙ take-append-drop j rest,
    )

module _ {S : Type 0} (loads : String → Option (Dict String String))
    (call : ℕ → LogRow → S → Bool × S) where
  -- What holds of the rows passed, the rows to come and the subscribers' state is kept: where a
  -- row is taken, it is passed; where one is refused, it is the next one still.
  pub record IsKept (subscribers : List ℕ) (audit_log : List LogRow)
      (Holds : List LogRow → List LogRow → S → Type 0) : Type 0 where
    pub on_taken :
        (passed rest : List LogRow) (row : LogRow) (s : S)
        → passed ++ (row ∷ rest) ≡ audit_log
        → Holds passed (row ∷ rest) s
        → (notify_subscribers loads call subscribers (prepared loads row) s).0 ≡ true
        → Holds
            (passed ++ (row ∷ []))
            rest
            (notify_subscribers loads call subscribers (prepared loads row) s).1
    pub on_refused :
        (passed rest : List LogRow) (row : LogRow) (s : S)
        → passed ++ (row ∷ rest) ≡ audit_log
        → Holds passed (row ∷ rest) s
        → (notify_subscribers loads call subscribers (prepared loads row) s).0 ≡ false
        → Holds passed
            (row ∷ rest)
            (notify_subscribers loads call subscribers (prepared loads row) s).1

  -- The streamer stands after some of the log's rows, and of the rest this holds.
  pub record StandsAt (audit_log : List LogRow) (Holds : List LogRow → List LogRow → S → Type 0)
      (last_id : ℕ) (s : S) : Type 0 where
    pub passed : List LogRow
    pub rest : List LogRow
    pub whole : passed ++ rest ≡ audit_log
    pub at_last : last_id ≡ last_from 0 passed
    pub holds : Holds passed rest s

  deliver-StandsAt :
      (subscribers : List ℕ) (audit_log : List LogRow)
      (Holds : List LogRow → List LogRow → S → Type 0)
      → IsKept subscribers audit_log Holds
      → (passed rows more : List LogRow) (last_id : ℕ) (s : S)
      → passed ++ (rows ++ more) ≡ audit_log
      → last_id ≡ last_from 0 passed
      → Holds passed (rows ++ more) s
      → let next = deliver loads call subscribers rows last_id s in
        StandsAt audit_log Holds next.0 next.1
  unfolding deliver
  deliver-StandsAt subscribers audit_log Holds kept passed [] more last_id s whole at h = record {
    passed = passed;
    rest = more;
    whole = whole;
    at_last = at;
    holds = h;
  }
  deliver-StandsAt subscribers audit_log Holds kept passed (row ∷ rows) more last_id s whole at h =
      let told = notify_subscribers loads call subscribers (prepared loads row) s in
      elim (Bool-cases told.0) [
        | inl accepted ↦
            rw (deliver, accepted)
              (deliver-StandsAt subscribers audit_log Holds kept (passed ++ (row ∷ [])) rows more
                row.id told.1 (append_assoc passed (row ∷ []) (rows ++ more) ∙ whole)
                (sym (last_from-append 0 passed row))
                (kept.on_taken passed (rows ++ more) row s whole h accepted))
        | inr refused ↦
            rw (deliver, refused)
              (record {
                passed = passed;
                rest = row ∷ (rows ++ more);
                whole = whole;
                at_last = at;
                holds = kept.on_refused passed (rows ++ more) row s whole h refused;
              })
      ]

  -- What a poll sees of the log, or that it cannot read it.
  abbrev pub seen : List LogRow → Option ℕ → Option (List LogRow)
  seen audit_log none = none
  seen audit_log (some k) = some (take k audit_log)

  -- `_poll_loop`, each round with the rows that are visible to it.
  unfoldable pub poll_all : List LogRow → List (Option ℕ) → Streamer → S → Streamer × S
  poll_all audit_log [] streamer s = (streamer, s)
  poll_all audit_log (visible ∷ polls) streamer s =
      let (streamer', s') = poll loads call (seen audit_log visible) streamer s in
      poll_all audit_log polls streamer' s'

  poll-StandsAt :
      (audit_log : List LogRow) (Holds : List LogRow → List LogRow → S → Type 0)
      (visible : Option ℕ) (streamer : Streamer) (s : S)
      → IsAbove 0 audit_log
      → IsKept streamer.subscribers audit_log Holds
      → StandsAt audit_log Holds streamer.last_id s
      → let next = poll loads call (seen audit_log visible) streamer s in
        StandsAt audit_log Holds next.0.last_id next.1 × (next.0.subscribers ≡ streamer.subscribers)
  unfolding poll fetch_new_events
  poll-StandsAt audit_log Holds none streamer s above kept h = (h, refl)
  poll-StandsAt audit_log Holds (some k) streamer s above kept h =
      elim (Bool-cases streamer.running) [
        | inr off ↦ rw off (h, refl)
        | inl on ↦
            let (more, parts) =
              fetch-rest audit_log h.passed h.rest k streamer.last_id above h.whole h.at_last in
            let rows = fetch_new_events (take k audit_log) streamer.last_id in
            rw on (
              deliver-StandsAt streamer.subscribers audit_log Holds kept h.passed rows more
                  streamer.last_id s (ap (λ r. h.passed ++ r) parts ∙ h.whole) h.at_last
                  (subst (λ r. Holds h.passed r s) (sym parts) h.holds),
              refl,
            )
      ]

  -- Whatever the polls see of a log with growing ids, and whichever callbacks raise: what the
  -- subscribers keep when a row is taken or refused holds where the streamer stands.
  pub poll_all-StandsAt :
      (audit_log : List LogRow) (Holds : List LogRow → List LogRow → S → Type 0)
      (polls : List (Option ℕ)) (streamer : Streamer) (s : S)
      → IsAbove 0 audit_log
      → IsKept streamer.subscribers audit_log Holds
      → StandsAt audit_log Holds streamer.last_id s
      → let next = poll_all audit_log polls streamer s in
        StandsAt audit_log Holds next.0.last_id next.1
  unfolding poll_all
  poll_all-StandsAt audit_log Holds [] streamer s above kept h = h
  poll_all-StandsAt audit_log Holds (visible ∷ polls) streamer s above kept h =
      let next = poll loads call (seen audit_log visible) streamer s in
      let (stands, same) = poll-StandsAt audit_log Holds visible streamer s above kept h in
      poll_all-StandsAt audit_log Holds polls next.0 next.1 above
        (subst (λ subscribers. IsKept subscribers audit_log Holds) (sym same) kept) stands

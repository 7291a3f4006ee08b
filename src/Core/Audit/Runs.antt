-- ===== src/Core/Audit/Runs.antt =====
-- The audit log over any interleaving of appends and deliveries, failed ones included.
use apate.Prelude.{
  ℕ, zero, suc, ◌≡◌, refl, ap, ◌⊎◌, inl, inr, List, [], ◌∷◌, ◌++◌, nat_eq, string_eq, take, All-map,
  sym, ◌∙◌, true, arith, drop, All, take-append-drop, subst, append-nil, append_assoc,
}
use apate.Core.Audit.{
  Event, Store, has_id, insert_all, acknowledge, pending, Round, failed, unconfirmed, delivered,
  deliver,
}
use apate.Core.Audit.Delivery.{
  Distinct, has_id-append, Distinct-append_left, insert_all-new, insert_all-old, insert_all-append,
  All-has_id, acknowledge-head, Distinct-append_right,
}

module _ {Payload : Type 0} where
  -- `history` is what was admitted, oldest first. It falls into what was delivered and
  -- acknowledged, what was delivered but is still in the outbox, and what waits.
  pub record IsDelivering (history : List (Event Payload)) (s : Store Payload) : Type 0 where
    pub acked : List (Event Payload)
    pub kept : List (Event Payload)
    pub waiting : List (Event Payload)
    pub all : history ≡ acked ++ (kept ++ waiting)
    pub logged : s.audit_log ≡ acked ++ kept
    pub outbox : s.outbox ≡ kept ++ waiting
    pub distinct : Distinct history

  take-append :
      (n : ℕ) (xs ys : List (Event Payload))
      → ((zs : List (Event Payload)) × (xs ≡ take n (xs ++ ys) ++ zs))
        ⊎ ((k : ℕ) × (take n (xs ++ ys) ≡ xs ++ take k ys))
  take-append zero xs ys = inl (xs, refl)
  take-append (suc n) [] ys = inr (suc n, refl)
  take-append (suc n) (x ∷ xs) ys = elim (take-append n xs ys) [
    | inl (zs, e) ↦ inl (zs, ap (λ (l : List (Event Payload)). x ∷ l) e)
    | inr (k, e) ↦ inr (k, ap (λ (l : List (Event Payload)). x ∷ l) e)
  ]

  -- What committing the batch `take n kept_waiting` does: the batch becomes the head of the part
  -- that is both delivered and in the outbox.
  record Commits (n : ℕ) (acked kept waiting : List (Event Payload)) : Type 0 where
    tail : List (Event Payload)
    later : List (Event Payload)
    split_at : kept ++ waiting ≡ take n (kept ++ waiting) ++ (tail ++ later)
    log :
        insert_all (acked ++ kept) (take n (kept ++ waiting))
        ≡ acked ++ (take n (kept ++ waiting) ++ tail)

  Commits-old :
      (n : ℕ) (acked kept waiting zs : List (Event Payload))
      → kept ≡ take n (kept ++ waiting) ++ zs
      → Commits n acked kept waiting
  Commits-old n acked kept waiting zs e =
      let batch = take n (kept ++ waiting) in
      record {
        tail = zs;
        later = waiting;
        split_at =
            ap (λ (l : List (Event Payload)). l ++ waiting) e ∙ append_assoc batch zs waiting;
        log =
            insert_all-old (acked ++ kept) batch (
              subst (λ (l : List (Event Payload)). All (λ e. has_id e.0 (acked ++ l) ≡ true) batch)
                (sym e) (old batch zs))
            ∙ ap (λ (l : List (Event Payload)). acked ++ l) e;
      }
    where
      old :
          (batch zs : List (Event Payload))
          → All (λ e. has_id e.0 (acked ++ (batch ++ zs)) ≡ true) batch
      old batch zs =
          All-map (λ (e : Event Payload). has_id e.0 (acked ++ batch) ≡ true)
            (λ (e : Event Payload). has_id e.0 (acked ++ (batch ++ zs)) ≡ true)
            (λ e h. rw (← append_assoc) (ground (arith, has_id-append e.0 (acked ++ batch) zs)))
            batch (All-has_id acked batch)

  Commits-new :
      (n k : ℕ) (acked kept waiting : List (Event Payload))
      → Distinct (acked ++ (kept ++ waiting))
      → take n (kept ++ waiting) ≡ kept ++ take k waiting
      → Commits n acked kept waiting
  Commits-new n k acked kept waiting d e = record {
    tail = [];
    later = drop k waiting;
    split_at =
        ap (λ (l : List (Event Payload)). kept ++ l) (sym (take-append-drop k waiting))
        ∙ sym (append_assoc kept (take k waiting) (drop k waiting))
        ∙ ap (λ (l : List (Event Payload)). l ++ drop k waiting) (sym e);
    log =
        rw (e, append-nil)
          (insert_all-append (acked ++ kept) kept (take k waiting)
            ∙ ap (λ (l : List (Event Payload)). insert_all l (take k waiting))
                (insert_all-old (acked ++ kept) kept (All-has_id acked kept))
            ∙ insert_all-new (acked ++ kept) (take k waiting) fresh
            ∙ append_assoc acked kept (take k waiting));
  }
    where
      parts : acked ++ (kept ++ waiting) ≡ ((acked ++ kept) ++ take k waiting) ++ drop k waiting
      parts =
          sym (append_assoc acked kept waiting)
          ∙ ap (λ (l : List (Event Payload)). (acked ++ kept) ++ l)
              (sym (take-append-drop k waiting))
          ∙ sym (append_assoc (acked ++ kept) (take k waiting) (drop k waiting))

      fresh : Distinct ((acked ++ kept) ++ take k waiting)
      fresh =
          Distinct-append_left ((acked ++ kept) ++ take k waiting) (drop k waiting)
            (subst Distinct parts d)

  commits :
      (n : ℕ) (acked kept waiting : List (Event Payload))
      → Distinct (acked ++ (kept ++ waiting))
      → Commits n acked kept waiting
  commits n acked kept waiting d = elim (take-append n kept waiting) [
    | inl (zs, e) ↦ Commits-old n acked kept waiting zs e
    | inr (k, e) ↦ Commits-new n k acked kept waiting d e
  ]

  -- A turn of the worker, however it goes, keeps the log a duplicate-free beginning of what was
  -- admitted, and the rest of it in the outbox.
  pub deliver-IsDelivering :
      (r : Round) (history : List (Event Payload)) (s : Store Payload)
      → IsDelivering history s
      → IsDelivering history (deliver r s)
  unfolding deliver pending
  deliver-IsDelivering failed history s d = d
  deliver-IsDelivering unconfirmed history s d =
      let batch = take 100 (d.kept ++ d.waiting) in
      let c = commits 100 d.acked d.kept d.waiting (subst Distinct d.all d.distinct) in
      record {
        acked = d.acked;
        kept = batch ++ c.tail;
        waiting = c.later;
        all =
            d.all
            ∙ ap (λ (l : List (Event Payload)). d.acked ++ l)
                (c.split_at ∙ sym (append_assoc batch c.tail c.later));
        logged = rw (d.logged, d.outbox) c.log;
        outbox = d.outbox ∙ c.split_at ∙ sym (append_assoc batch c.tail c.later);
        distinct = d.distinct;
      }
  deliver-IsDelivering delivered history s d =
      let batch = take 100 (d.kept ++ d.waiting) in
      let c = commits 100 d.acked d.kept d.waiting (subst Distinct d.all d.distinct) in
      record {
        acked = d.acked ++ batch;
        kept = c.tail;
        waiting = c.later;
        all =
            d.all
            ∙ ap (λ (l : List (Event Payload)). d.acked ++ l) c.split_at
            ∙ sym (append_assoc d.acked batch (c.tail ++ c.later));
        logged = rw (d.logged, d.outbox) (c.log ∙ sym (append_assoc d.acked batch c.tail));
        outbox = rw d.outbox (
            ap (acknowledge batch) c.split_at
            ∙ acknowledge-head batch (c.tail ++ c.later) (
                Distinct-append_right d.acked (batch ++ (c.tail ++ c.later)) (
                  subst (λ (l : List (Event Payload)). Distinct (d.acked ++ l)) c.split_at
                    (subst Distinct d.all d.distinct))));
        distinct = d.distinct;
      }

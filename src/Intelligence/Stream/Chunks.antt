-- ===== src/Intelligence/Stream/Chunks.antt =====
-- inference.py, `generate`: how the answer is cut into chunks does not matter.
use apate.Intelligence.Stream.Binding.{
  Afterwards, bind-Afterwards, bind-cong_after, bind-cong, bind_assoc,
}
use apate.Prelude.{
  ℕ, ◌≤◌, ◌≡◌, refl, true, false, Option, none, some, List, [], ◌∷◌, ◌++◌, nat_beq, if◌then◌else◌,
  nat_eq, string_eq, length, All, append-nil, append_assoc, zero, suc, sym, inl, inr, arith,
  nat_beq_iff, Bool-cases, length-append, All-append, subst, ◌+◌, ltb,
}
use apate.Core.Content.{Bytes}
use apate.Intelligence.Breaker.{Attempt}
use apate.Intelligence.Stream.{
  Loaded, Answer, Reading, going, failed, ◌>>=◌, newline, partition, on_line, take_lines, no_answer,
  ended, max_received, Arrival, chunk, handled, read_chunks, read_response, attempt_of,
}

-- The lines of a text that goes on from `pending`, each ended by a newline, and what follows the
-- last newline.
split_from : Bytes → Bytes → List Bytes × Bytes
split_from pending [] = ([], pending)
split_from pending (b ∷ bs) =
    let next = split_from [] bs in
    let longer = split_from (pending ++ (b ∷ [])) bs in
    if nat_beq b newline then (pending ∷ next.0, next.1) else longer

unfoldable pub split_lines : Bytes → List Bytes × Bytes
unfolding split_from
split_lines = split_from []

-- What holds of the state when reading goes on.
abbrev pub timely : List Bytes → List Arrival
timely [] = []
timely (bytes ∷ chunks) = chunk bytes false ∷ timely chunks

abbrev pub flat : List Bytes → Bytes
flat [] = []
flat (bytes ∷ chunks) = bytes ++ flat chunks

module _ (loads : Bytes → Option Loaded) where
  -- Line by line.
  unfoldable pub on_lines : List Bytes → Answer → Reading Answer
  on_lines [] a = going a
  on_lines (line ∷ lines) a = on_line loads line a >>= on_lines lines

  -- The whole text at once.
  unfoldable pub read_text : Bytes → Attempt
  read_text text = elim (on_lines (split_lines text).0 no_answer) [
    | failed e ↦ attempt_of e
    | going a ↦ ended ((split_lines text).1, a)
  ]

  -- Byte by byte: a newline ends the pending line.
  feed : Bytes → Bytes → Answer → Reading (Bytes × Answer)
  feed [] pending a = going (pending, a)
  feed (b ∷ bs) pending a =
      if nat_beq b newline
      then (on_line loads pending a >>= feed bs [])
      else feed bs (pending ++ (b ∷ [])) a

  HasNoNewline : Bytes → Type 0
  HasNoNewline bs = All (λ b. nat_beq b newline ≡ false) bs

  partition-none : (front : Bytes) → HasNoNewline front → partition front ≡ none
  unfolding partition HasNoNewline
  partition-none [] h = refl
  partition-none (b ∷ bs) h = rw (h.0, partition-none bs h.1) refl

  partition-some :
      (front rest : Bytes)
      → HasNoNewline front
      → partition (front ++ (newline ∷ rest)) ≡ some (front, rest)
  unfolding partition HasNoNewline
  partition-some [] rest h = refl
  partition-some (b ∷ bs) rest h = rw (h.0, partition-some bs rest h.1) refl

  take_lines-feed :
      (bs front : Bytes) (count : ℕ) (a : Answer)
      → HasNoNewline front
      → length (front ++ bs) ≤ count
      → take_lines loads count (front ++ bs) a ≡ feed bs front a
  unfolding take_lines feed HasNoNewline
  take_lines-feed [] front zero a h enough = ground (arith, append-nil front)
  take_lines-feed [] front (suc count) a h enough =
      subst (λ text. take_lines loads (suc count) text a ≡ going (front, a))
        (sym (append-nil front)) (rw (take_lines, partition-none front h) refl)
  take_lines-feed (b ∷ bs) front zero a h enough =
      absurd (omega (arith, length-append front (b ∷ bs)))
  take_lines-feed (b ∷ bs) front (suc count) a h enough = elim (Bool-cases (nat_beq b newline)) [
    | inl ends ↦
        rw ((nat_beq_iff b newline).0 ends, take_lines, partition-some front bs h)
          (bind-cong (on_line loads front a) (λ a'. take_lines loads count bs a')
            (λ a'. feed bs [] a')
            (λ a'. take_lines-feed bs [] count a' tt (omega (arith, length-append front (b ∷ bs)))))
    | inr other ↦
        rw (other, sym (append_assoc front (b ∷ []) bs))
          (take_lines-feed bs (front ++ (b ∷ [])) (suc count) a
            (All-append (λ b. nat_beq b newline ≡ false) front (b ∷ []) h (other, tt))
            (rw (append_assoc front (b ∷ []) bs) enough))
  ]

  feed-append :
      (front back pending : Bytes) (a : Answer)
      → feed (front ++ back) pending a ≡ (feed front pending a >>= λ s. feed back s.0 s.1)
  unfolding feed
  feed-append [] back pending a = refl
  feed-append (b ∷ front) back pending a = elim (Bool-cases (nat_beq b newline)) [
    | inl ends ↦
        rw
          (
            ends,
            bind_assoc {C = Bytes × Answer} (on_line loads pending a) (feed front [])
                (λ s. feed back s.0 s.1),
          )
          (bind-cong (on_line loads pending a) _ _ (λ a'. feed-append front back [] a'))
    | inr other ↦ rw other (feed-append front back (pending ++ (b ∷ [])) a)
  ]

  -- What is pending after a chunk has no newline.
  feed-HasNoNewline :
      (bs pending : Bytes) (a : Answer)
      → HasNoNewline pending
      → Afterwards (λ s. HasNoNewline s.0) (feed bs pending a)
  unfolding feed HasNoNewline
  feed-HasNoNewline [] pending a h = h
  feed-HasNoNewline (b ∷ bs) pending a h = elim (Bool-cases (nat_beq b newline)) [
    | inl ends ↦ rw ends (
        bind-Afterwards (λ s. HasNoNewline s.0) (on_line loads pending a) (feed bs [])
          (λ a'. feed-HasNoNewline bs [] a' tt))
    | inr other ↦ rw other (
        feed-HasNoNewline bs (pending ++ (b ∷ [])) a
          (All-append (λ b. nat_beq b newline ≡ false) pending (b ∷ []) h (other, tt)))
  ]

  read_chunks-feed :
      (chunks : List Bytes) (pending : Bytes) (received : ℕ) (a : Answer)
      → HasNoNewline pending
      → received + length (flat chunks) ≤ max_received
      → read_chunks loads (timely chunks) pending received a ≡ feed (flat chunks) pending a
  unfolding read_chunks feed
  read_chunks-feed [] pending received a h small = refl
  read_chunks-feed (bytes ∷ chunks) pending received a h small =
      let sum : length (bytes ++ flat chunks) ≡ length bytes + length (flat chunks) =
        length-append bytes (flat chunks) in
      let fits : ltb max_received (received + length bytes) ≡ false = ground (arith, sum) in
      rw
        (
          fits,
          take_lines-feed bytes pending (length (pending ++ bytes)) a h (omega arith),
          feed-append bytes (flat chunks) pending a,
        )
        (bind-cong_after (λ s. HasNoNewline s.0) (feed bytes pending a) _ _
          (feed-HasNoNewline bytes pending a h)
          (λ s clean.
            read_chunks-feed chunks s.0 (received + length bytes) s.1 clean (omega (arith, sum))))

  feed-split_from :
      (bs pending : Bytes) (a : Answer)
      → feed bs pending a
        ≡ (on_lines (split_from pending bs).0 a >>= λ a'. going ((split_from pending bs).1, a'))
  unfolding feed split_from on_lines
  feed-split_from [] pending a = refl
  feed-split_from (b ∷ bs) pending a = elim (Bool-cases (nat_beq b newline)) [
    | inl ends ↦
        rw
          (
            ends,
            bind_assoc {C = Bytes × Answer} (on_line loads pending a)
                (on_lines (split_from [] bs).0) (λ a'. going ((split_from [] bs).1, a')),
          )
          (bind-cong (on_line loads pending a) _ _ (λ a'. feed-split_from bs [] a'))
    | inr other ↦ rw other (feed-split_from bs (pending ++ (b ∷ [])) a)
  ]

  -- An answer of at most 262,144 bytes that comes in time means what its text means, however it is
  -- cut into chunks: its lines are taken one after the other.
  pub read_response-chunks :
      (chunks : List Bytes)
      → length (flat chunks) ≤ max_received
      → read_response loads true false (timely chunks) ≡ read_text (flat chunks)
  unfolding read_response read_text split_lines handled HasNoNewline
  read_response-chunks chunks small =
      rw
        (
          read_chunks-feed chunks [] 0 no_answer tt (omega arith),
          feed-split_from (flat chunks) [] no_answer,
        )
        (elim (on_lines (split_from [] (flat chunks)).0 no_answer)
          as (λ r.
            (elim (r >>= λ a'. going ((split_from [] (flat chunks)).1, a')) [
              | failed e ↦ handled false e
              | going s ↦ ended s
            ])
            ≡ (elim r [
              | failed e ↦ attempt_of e
              | going a ↦ ended ((split_from [] (flat chunks)).1, a)
            ])) [ going a ↦ refl | failed e ↦ refl ])

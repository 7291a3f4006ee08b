-- ===== src/Intelligence/Stream/Answers.antt =====
-- inference.py, `generate`: what an answer that is returned was in the stream.
use apate.Intelligence.Stream.Chunks.{
  on_lines, split_lines, read_text, timely, flat, read_response-chunks,
}
use apate.Prelude.{
  String, ◌≡◌, inl, inr, Bool, true, false, Option, none, some, List, [], ◌∷◌, ◌++◌, arith,
  if◌then◌else◌, nat_eq, string_eq, Option-cases, Bool-cases, refl, ◌⊎◌, subst, append_assoc, ◌≤◌,
  sym, ap, ◌∙◌, length,
}
use apate.Core.Content.{Bytes}
use apate.Intelligence.Stream.{
  answered, Loaded, Answer, going, is_blank, take_event, on_line, Reading, failed, ◌>>=◌,
  max_received, no_answer, join, ended, read_response, request_fault, value_fault, other_fault,
  attempt_of,
}

-- An event that adds this part, and says whether it is the last.
abbrev pub IsEvent : Loaded → String → Bool → Type 0
IsEvent event part last =
    (event.is_dict ≡ true)
    × (event.response ≡ some part)
    × (event.done ≡ some last)
    × (event.cut_at_limit ≡ false)

-- The events of a whole answer, of which just the last is done, and their parts.
pub data IsAnswer : List Loaded → List String → Type 0 where
  ends_with :
      (event : Loaded) (part : String) → IsEvent event part true → IsAnswer (event ∷ []) (part ∷ [])
  begins_with :
      (event : Loaded) (part : String) (events : List Loaded) (parts : List String)
      → IsEvent event part false
      → IsAnswer events parts
      → IsAnswer (event ∷ events) (part ∷ parts)

bind-going {ℓ κ} :
    {A : Type ℓ} {B : Type κ} (r : Reading A) (f : A → Reading B) (b : B)
    → (r >>= f) ≡ going b
    → (a : A) × (r ≡ going a) × (f a ≡ going b)
bind-going (going a) f b e = (a, refl, e)
bind-going (failed x) f b e = absurd (ground arith)

take_event-IsEvent :
    (event : Loaded) (a a' : Answer)
    → take_event event a ≡ going a'
    → (a.completed ≡ false)
      × ((part : String) × IsEvent event part a'.completed × (a'.parts ≡ a.parts ++ (part ∷ [])))
unfolding take_event
take_event-IsEvent event a a' e = elim (Option-cases event.response) [
  | inl absent ↦ absurd (ground arith)
  | inr (part, present) ↦ elim (Option-cases event.done) [
    | inl absent ↦ absurd (ground arith)
    | inr (done, given) ↦ ground (arith)
  ]
]

module _ (loads : Bytes → Option Loaded) where
  -- The lines that are not blank, each loaded.
  unfoldable pub loaded : List Bytes → Option (List Loaded)
  loaded [] = some []
  loaded (line ∷ lines) =
      let rest = loaded lines in
      if is_blank line then rest else elim (loads line) [
        | none ↦ none
        | some event ↦ elim rest [ none ↦ none | some events ↦ some (event ∷ events) ]
      ]

  on_line-cases :
      (line : Bytes) (a a' : Answer)
      → on_line loads line a ≡ going a'
      → ((is_blank line ≡ true) × (a' ≡ a))
        ⊎ ((event : Loaded) × (is_blank line ≡ false)
            × (loads line ≡ some event)
            × (take_event event a ≡ going a'))
  unfolding on_line
  on_line-cases line a a' e = elim (Bool-cases (is_blank line)) [
    | inl blank ↦ inl (ground arith)
    | inr full ↦ elim (Option-cases (loads line)) [
      | inl bad ↦ absurd (ground arith)
      | inr (event, there) ↦ inr (event, full, there, ground arith)
    ]
  ]

  -- After the last event only blank lines follow.
  on_lines-completed :
      (lines : List Bytes) (a a' : Answer)
      → a.completed ≡ true
      → on_lines loads lines a ≡ going a'
      → (loaded lines ≡ some []) × (a' ≡ a)
  unfolding on_lines loaded
  on_lines-completed [] a a' h e = (refl, ground arith)
  on_lines-completed (line ∷ lines) a a' h e =
      let (a1, first, rest) = bind-going (on_line loads line a) (on_lines loads lines) a' e in
      elim (on_line-cases line a a1 first) [
        | inl (blank, same) ↦ ground (arith, on_lines-completed lines a a' h)
        | inr (event, full, there, taken) ↦
            absurd (ground (arith, (take_event-IsEvent event a a1 taken).0))
      ]

  on_lines-IsAnswer :
      (lines : List Bytes) (a a' : Answer)
      → a.completed ≡ false
      → a'.completed ≡ true
      → on_lines loads lines a ≡ going a'
      → (events : List Loaded) × (parts : List String) × (loaded lines ≡ some events)
        × IsAnswer events parts
        × (a'.parts ≡ a.parts ++ parts)
  unfolding on_lines loaded
  on_lines-IsAnswer [] a a' h done e = absurd (ground arith)
  on_lines-IsAnswer (line ∷ lines) a a' h done e =
      let (a1, first, rest) = bind-going (on_line loads line a) (on_lines loads lines) a' e in
      elim (on_line-cases line a a1 first) [
        | inl (blank, same) ↦
            let rest' : on_lines loads lines a ≡ going a' = ground arith in
            rw blank (on_lines-IsAnswer lines a a' h done rest')
        | inr (event, full, there, taken) ↦
            let (before, (part, valid, added)) = take_event-IsEvent event a a1 taken in
            rw (full, there)
              (elim (Bool-cases a1.completed) [
                | inl over ↦
                    let (none_left, same) = on_lines-completed lines a1 a' over rest in
                    (
                      event ∷ [],
                      part ∷ [],
                      rw none_left refl,
                      ends_with event part (subst (IsEvent event part) over valid),
                      ap (λ (x : Answer). x.parts) same ∙ added,
                    )
                | inr more ↦
                    let (events, parts, read, answer, ends) =
                      on_lines-IsAnswer lines a1 a' more done rest in
                    (
                      event ∷ events,
                      part ∷ parts,
                      rw read refl,
                      begins_with event part events parts (subst (IsEvent event part) more valid)
                          answer,
                      ends ∙ ap (λ ps. ps ++ parts) added ∙ append_assoc a.parts (part ∷ []) parts,
                    )
              ])
      ]

  ended-answered :
      (rest : Bytes) (a : Answer) (text : String)
      → ended (rest, a) ≡ answered text
      → (is_blank rest ≡ true) × (a.completed ≡ true) × (text ≡ join a.parts)
  unfolding ended
  ended-answered rest a text e = ground arith

  abbrev pub ReadsAs : List Bytes × Bytes → String → Type 0
  ReadsAs (lines, rest) text =
      (is_blank rest ≡ true)
      × ((events : List Loaded) × (parts : List String) × (loaded lines ≡ some events)
          × IsAnswer events parts
          × (text ≡ join parts))

  read_text-ReadsAs :
      (bytes : Bytes) (text : String)
      → read_text loads bytes ≡ answered text
      → ReadsAs (split_lines bytes) text
  unfolding read_text attempt_of
  read_text-ReadsAs bytes text e = go (on_lines loads (split_lines bytes).0 no_answer) refl
    where
      go :
          (r : Reading Answer)
          → on_lines loads (split_lines bytes).0 no_answer ≡ r
          → ReadsAs (split_lines bytes) text
      go (failed request_fault) is = absurd (ground arith)
      go (failed value_fault) is = absurd (ground arith)
      go (failed other_fault) is = absurd (ground arith)
      go (going a) is =
          let (blank, done, same) = ended-answered (split_lines bytes).1 a text (ground arith) in
          let (events, parts, read, answer, ends) =
            on_lines-IsAnswer (split_lines bytes).0 no_answer a refl done is in
          (blank, (events, parts, read, answer, same ∙ ap join ends))

  -- Where an answer that came in time, in at most 262,144 bytes, is returned, the lines of the
  -- stream that are not blank are events of which just the last is done, none was cut at the token
  -- limit, only blanks follow, and the text returned is that of the parts.
  pub answered-ReadsAs :
      (chunks : List Bytes) (text : String)
      → length (flat chunks) ≤ max_received
      → read_response loads true false (timely chunks) ≡ answered text
      → ReadsAs (split_lines (flat chunks)) text
  answered-ReadsAs chunks text small e =
      read_text-ReadsAs (flat chunks) text (sym (read_response-chunks loads chunks small) ∙ e)

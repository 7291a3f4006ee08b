-- ===== src/Skills/Detector/Batches.antt =====
-- skill_detector.py: commands may be handed over together or one batch after the other.
use apate.Prelude.{
  contains, ◌||◌, ◌==◌, Bool, true, Bool-cases, inl, inr, arith, ℕ, String, ◌≡◌, refl, List, [],
  ◌∷◌, ◌++◌, nat_eq, string_eq, length, sym, ap, ◌∙◌, get_or,
}
use apate.Dict.{Dict}
use apate.Dict
use apate.Skills.Commands.{CommandAnalysis}
use apate.Skills.Detector.{
  add_item, update_set, tools_in, sophisticated_tools, basic_tools, SessionData, SkillDetector,
  aggregate, Assessment, text_of, use_tools, findings, assess, analyze_session, new_session,
}

aggregate-append :
    (xs ys : List CommandAnalysis) (session : SessionData)
    → aggregate (xs ++ ys) session ≡ aggregate ys (aggregate xs session)
unfolding aggregate
aggregate-append [] ys session = refl
aggregate-append (x ∷ xs) ys session = aggregate-append xs ys _

-- What was derived from the commands so far plays no part.
abbrev derived : List String → ℕ → SessionData → SessionData
derived tools count session = record session { tools_used = tools; unique_techniques_count = count }

aggregate-derived :
    (xs : List CommandAnalysis) (tools : List String) (count : ℕ) (session : SessionData)
    → aggregate xs (derived tools count session) ≡ derived tools count (aggregate xs session)
unfolding aggregate
aggregate-derived [] tools count session = refl
aggregate-derived (x ∷ xs) tools count session = aggregate-derived xs tools count _

contains-append :
    (xs : List String) (item other : String)
    → contains (xs ++ item ∷ []) other ≡ contains xs other || item == other
contains-append [] item other = ground arith
contains-append (x ∷ xs) item other = ground (arith, contains-append xs item other)

contains-add_item :
    (xs : List String) (item other : String)
    → contains (add_item xs item) other ≡ contains xs other || item == other
unfolding add_item
contains-add_item xs item other = elim (Bool-cases (contains xs item)) [
  | inr new ↦ rw new (contains-append xs item other)
  | inl old ↦ elim (Bool-cases (item == other)) [
    | inr apart ↦ rw (old, apart) (ground arith)
    | inl same ↦
        let e : item ≡ other = (string_eq.beq_iff item other).0 same in
        let there : contains xs other ≡ true = sym (ap (contains xs) e) ∙ old in
        rw (old, same, there) refl
  ]
]

contains-update_set :
    (xs ys : List String) (item : String)
    → contains (update_set xs ys) item ≡ contains xs item || contains ys item
unfolding update_set
contains-update_set xs [] item = ground arith
contains-update_set xs (y ∷ ys) item =
    contains-update_set (add_item xs y) ys item ∙ ground (arith, contains-add_item xs y item)

tools_used-aggregate :
    (xs : List CommandAnalysis) (session : SessionData)
    → (aggregate xs session).tools_used ≡ session.tools_used
unfolding aggregate
tools_used-aggregate [] session = refl
tools_used-aggregate (x ∷ xs) session = tools_used-aggregate xs _

-- An assessment but for the tools, which are those of every batch.
abbrev pub judged : Assessment → Assessment
judged a = record a { tools_detected = [] }

module _ (lower : String → String) where
  abbrev judgement : SessionData → Assessment
  judgement session = judged (
      assess lower
        (use_tools lower (record session { unique_techniques_count = length session.techniques })))

  judgement-derived :
      (tools : List String) (count : ℕ) (session : SessionData)
      → judgement (derived tools count session) ≡ judgement session
  unfolding assess use_tools findings text_of
  judgement-derived tools count session = refl

  -- The tools named in the text of a session.
  abbrev named_in : SessionData → String → Bool
  named_in session tool =
      contains (tools_in sophisticated_tools (text_of lower session)) tool
      || contains (tools_in basic_tools (text_of lower session)) tool

  contains-use_tools :
      (session : SessionData) (tool : String)
      → contains (use_tools lower session).tools_used tool
        ≡ contains session.tools_used tool || named_in session tool
  unfolding use_tools
  contains-use_tools session tool =
      let sophisticated = tools_in sophisticated_tools (text_of lower session) in
      let basic = tools_in basic_tools (text_of lower session) in
      contains-update_set (update_set session.tools_used sophisticated) basic tool
      ∙ ground (arith, contains-update_set session.tools_used sophisticated tool)

  -- The session's assessment detects the tool.
  abbrev detected : String → SessionData → Bool
  detected tool session =
      contains
        (use_tools lower
          (record session { unique_techniques_count = length session.techniques })).tools_used
        tool

  contains-detected :
      (session : SessionData) (tool : String)
      → detected tool session ≡ contains session.tools_used tool || named_in session tool
  unfolding text_of
  contains-detected session tool =
      contains-use_tools (record session { unique_techniques_count = length session.techniques })
        tool

  regrouped :
      (old early now before whole : Bool)
      → before ≡ old || early
      → whole ≡ old || now
      → before || now ≡ whole || before
  regrouped old early now before whole e f = ground arith

  -- The tools after two batches.
  tools-append :
      (session_id : String) (xs ys : List CommandAnalysis) (sessions : SkillDetector)
      (tool : String)
      → let (first, between) = analyze_session lower session_id xs sessions in
        contains (analyze_session lower session_id ys between).0.tools_detected tool
        ≡ contains (analyze_session lower session_id (xs ++ ys) sessions).0.tools_detected tool
          || contains first.tools_detected tool
  unfolding analyze_session assess use_tools text_of
  tools-append session_id xs ys sessions tool =
      let start = get_or new_session (Dict.get sessions session_id) in
      let gathered = aggregate xs start in
      let counted = record gathered { unique_techniques_count = length gathered.techniques } in
      let kept = use_tools lower counted in
      let whole = aggregate (xs ++ ys) start in
      let named_now : Bool = named_in whole tool in
      let old : Bool = contains start.tools_used tool in
      let second : detected tool (aggregate ys kept) ≡ contains kept.tools_used tool || named_now =
        contains-detected (aggregate ys kept) tool
        ∙ ap (λ (s : SessionData). contains s.tools_used tool || named_in s tool)
            (aggregate-derived ys kept.tools_used kept.unique_techniques_count gathered)
        ∙ ap (λ (s : SessionData). contains kept.tools_used tool || named_in s tool)
            (sym (aggregate-append xs ys start)) in
      let first : contains kept.tools_used tool ≡ old || named_in gathered tool =
        contains-detected gathered tool
        ∙ ap (λ (tools : List String). contains tools tool || named_in gathered tool)
            (tools_used-aggregate xs start) in
      let all_at_once : detected tool whole ≡ old || named_now =
        contains-detected whole tool
        ∙ ap (λ (tools : List String). contains tools tool || named_in whole tool)
            (tools_used-aggregate (xs ++ ys) start) in
      ap (λ found. detected tool (aggregate ys (get_or new_session found)))
        (Dict.get-put_self sessions session_id kept)
      ∙ second
      ∙ regrouped _ _ _ _ _ first all_at_once

  judged-append :
      (session_id : String) (xs ys : List CommandAnalysis) (sessions : SkillDetector)
      → let between = (analyze_session lower session_id xs sessions).1 in
        judged (analyze_session lower session_id ys between).0
        ≡ judged (analyze_session lower session_id (xs ++ ys) sessions).0
  unfolding analyze_session use_tools
  judged-append session_id xs ys sessions =
      let start = get_or new_session (Dict.get sessions session_id) in
      let gathered = aggregate xs start in
      let kept =
        use_tools lower
          (record gathered { unique_techniques_count = length gathered.techniques }) in
      ap (λ found. judgement (aggregate ys (get_or new_session found)))
        (Dict.get-put_self sessions session_id kept)
      ∙ ap judgement (aggregate-derived ys kept.tools_used kept.unique_techniques_count gathered)
      ∙ judgement-derived kept.tools_used kept.unique_techniques_count (aggregate ys gathered)
      ∙ ap judgement (sym (aggregate-append xs ys start))

  -- Commands that are analyzed in two batches are judged as the same commands in one: the level, the
  -- score, the confidence, the indicators, the counts, the phases and the characteristics are the same.
  -- The tools are those that one batch detects and those that the first of the two has detected.
  pub analyze_session-append :
      (session_id : String) (xs ys : List CommandAnalysis) (sessions : SkillDetector)
      → let (first, between) = analyze_session lower session_id xs sessions in
        let second = (analyze_session lower session_id ys between).0 in
        let whole = (analyze_session lower session_id (xs ++ ys) sessions).0 in
        (judged second ≡ judged whole)
        × ((tool : String)
            → contains second.tools_detected tool
              ≡ contains whole.tools_detected tool || contains first.tools_detected tool)
  analyze_session-append session_id xs ys sessions =
      (judged-append session_id xs ys sessions, tools-append session_id xs ys sessions)

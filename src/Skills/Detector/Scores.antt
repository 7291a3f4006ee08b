-- ===== src/Skills/Detector/Scores.antt =====
-- skill_detector.py: what the observations can add up to.
use apate.Prelude.{
  ℕ, ◌≤◌, ◌<◌, String, Bool, List, [], ◌∷◌, arith, nat_eq, string_eq, length, select, has_substring,
  ℤ, pos, negsuc,
}
use apate.Skills.Detector.{
  deliberate, sophisticated_tools, Timing, SessionData, analyze_timing, Finding, tools_in,
  tool_finding, progression_finding, complexity_finding, evasion_finding, diversity_finding,
  timing_finding, errors_finding, recon_finding, total, difference, findings, count_if, is_chained,
  handles_errors, phases_in_order, text_of, assess,
}

length-select_le {ℓ} : {A : Type ℓ} (p : A → Bool) (xs : List A) → length (select p xs) ≤ length xs
length-select_le p [] = omega arith
length-select_le p (x ∷ xs) = ground (arith, length-select_le p xs)

length-tools_in :
    (tools : List String) (text : String) → length (tools_in tools text) ≤ length tools
unfolding tools_in
length-tools_in tools text = length-select_le (λ tool. has_substring tool text) tools

-- -10 to 165
abbrev InRange : ℤ → Type 0
InRange (negsuc n) = n < 10
InRange (pos n) = n ≤ 165

difference-InRange : (m n : ℕ) → m ≤ 165 → n ≤ 10 → InRange (difference m n)
unfolding difference
difference-InRange m n h k = ground arith

abbrev AtMost : ℕ → ℕ → Finding → Type 0
AtMost most least f = (f.gained ≤ most) × (f.lost ≤ least)

tool_finding-AtMost : (tools : List String) → length tools ≤ 5 → AtMost 75 0 (tool_finding tools)
unfolding tool_finding
tool_finding-AtMost tools h = ground arith

small_findings :
    (n : ℕ) (timing : Timing)
    → AtMost 20 0 (progression_finding n)
      × AtMost 10 0 (complexity_finding n)
      × AtMost 15 0 (evasion_finding n)
      × AtMost 15 0 (diversity_finding n)
      × AtMost 10 10 (timing_finding timing)
      × AtMost 10 0 (errors_finding n)
      × AtMost 10 0 (recon_finding n)
unfolding progression_finding complexity_finding evasion_finding diversity_finding timing_finding
    errors_finding recon_finding
small_findings n timing = ground arith

module _ (lower : String → String) where
  findings-AtMost : (session : SessionData) → AtMost 165 10 (total (findings lower session))
  unfolding findings total
  findings-AtMost session = ground (
    arith,
    tool_finding-AtMost (tools_in sophisticated_tools (text_of lower session))
        (length-tools_in sophisticated_tools (text_of lower session)),
    small_findings (length (phases_in_order session.phases)) deliberate,
    small_findings (count_if is_chained session.commands) deliberate,
    small_findings (count_if (has_substring "defense_evasion") session.techniques) deliberate,
    small_findings session.unique_techniques_count (analyze_timing session.commands),
    small_findings (count_if handles_errors session.commands) deliberate,
    small_findings (count_if (has_substring "reconnaissance") session.techniques) deliberate,
  )

  -- The score of a session is at least -10 and at most 165, whatever its commands.
  assess-InRange : (session : SessionData) → InRange (assess lower session).skill_score
  unfolding assess
  assess-InRange session =
      let (most, least) = findings-AtMost session in
      difference-InRange (total (findings lower session)).gained
        (total (findings lower session)).lost most least

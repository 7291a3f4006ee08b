-- ===== src/Skills/Detector/Tests.antt =====
-- Two commands, judged together and one after the other.
use apate.Prelude.{
  contains, ◌||◌, concat, has_prefix, has_substring, String, ◌≡◌, refl, false, List, [], ◌∷◌, ◌++◌,
  nat_eq, string_eq, is_empty, split, ℤ, pos,
}
use apate.Dict.{Dict}
use apate.Dict
use apate.Skills.Commands.{CommandAnalysis, benign}
use apate.Skills.Detector.{
  Indicator, SkillLevel, evades, uses_tool, opportunistic, get_characteristics, add_item,
  update_set, phase_of, aggregate, count_if, joined, is_chained, handles_errors, analyze_timing,
  tools_in, tool_finding, phases_in_order, progression_finding, complexity_finding, evasion_finding,
  diversity_finding, timing_finding, errors_finding, recon_finding, total, difference,
  score_to_level, calculate_confidence, Assessment, text_of, use_tools, findings, assess,
  analyze_session,
}
use apate.Skills.Detector.Batches.{judged, analyze_session-append}

abbrev analysis_of : String → List String → CommandAnalysis
analysis_of command techniques = record {
  command = command;
  techniques = techniques;
  risk_score = 0;
  risk_level = benign;
  indicators = [];
  metadata = record {
    has_pipe = false;
    has_redirect = false;
    has_background = false;
    has_variables = false;
    command_length = 0;
  };
}

abbrev fetched : List CommandAnalysis
fetched = analysis_of "wget linpeas.sh" ("execution.wget_execute" ∷ []) ∷ []

abbrev hidden : List CommandAnalysis
hidden =
    analysis_of "history -c"
      ("defense_evasion.history" ∷ "defense_evasion.history" ∷ "defense_evasion.unset" ∷ [])
    ∷ []

abbrev id_text : String → String
id_text s = s

abbrev judged_level : Assessment → SkillLevel × ℤ × List Indicator
unfolding analyze_session aggregate assess use_tools findings total text_of tools_in tool_finding
    progression_finding complexity_finding evasion_finding diversity_finding timing_finding
    errors_finding recon_finding phases_in_order count_if is_chained handles_errors analyze_timing
    update_set add_item joined score_to_level difference calculate_confidence get_characteristics
    phase_of split has_substring has_prefix is_empty concat Dict.get Dict.put
judged_level a = (a.skill_level, a.skill_score, a.indicators)

both_batches :
    judged_level (analyze_session id_text "s" (fetched ++ hidden) []).0
    ≡ (opportunistic, pos 30, uses_tool "linpeas" ∷ evades 2 ∷ [])
unfolding judged_level
both_batches = refl

analyze_session-append_example :
    let (first, between) = analyze_session id_text "s" fetched [] in
    let second = (analyze_session id_text "s" hidden between).0 in
    let whole = (analyze_session id_text "s" (fetched ++ hidden) []).0 in
    (judged second ≡ judged whole)
    × ((tool : String)
        → contains second.tools_detected tool
          ≡ contains whole.tools_detected tool || contains first.tools_detected tool)
analyze_session-append_example = analyze_session-append id_text "s" fetched hidden []

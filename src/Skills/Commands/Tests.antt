-- ===== src/Skills/Commands/Tests.antt =====
-- Instances of the theorems, with an expression found in a command if it is a part of it.
use apate.Prelude.{
  concat, size, has_prefix, has_substring, ℕ, ◌+◌, ◌*◌, ◌≤◌, String, ◌≡◌, refl, ◌↔◌, Bool, List, [],
  ◌∷◌, nat_eq, string_eq, length, has_code, is_empty,
}
use apate.Skills.Commands.{benign, found, metadata_of, is_complex, scan, scan_all, analyze}
use apate.Skills.Commands.Scores.{complex_count, analyze-IsScored}

literal : String → String → Bool
literal pattern command = has_substring pattern command

abbrev score_of : String → ℕ × List String
unfolding analyze scan_all scan found is_complex metadata_of literal has_substring has_prefix
    has_code is_empty size concat
score_of command = ((analyze literal command).risk_score, (analyze literal command).techniques)

sudoers : score_of "cp x /etc/sudoers" ≡ (30, "privilege_escalation.sudoers_edit" ∷ [])
unfolding score_of
sudoers = refl

analyze-IsScored_example :
    let a = analyze literal "cp x /etc/sudoers" in
    let extra = complex_count "cp x /etc/sudoers" in
    (length a.indicators ≡ length a.techniques + extra)
    × (length a.techniques * 5 + extra * 5 ≤ a.risk_score)
    × (a.risk_score ≤ length a.techniques * 35 + extra * 5)
    × ((a.risk_level ≡ benign) ↔ (a.risk_score ≡ 0))
analyze-IsScored_example = analyze-IsScored literal "cp x /etc/sudoers"

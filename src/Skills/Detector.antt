-- ===== src/Skills/Detector.antt =====
-- src/chronos/skills/skill_detector.py: how skilled the attacker of a session is. Python's sets are
-- lists without repetition, in the order of insertion. `lower` stands for str.lower. The texts of
-- the indicators are constructors, and the time at which a session begins is left out.
mod Texts
pub mod Batches
pub mod Scores
pub mod Tests
unfoldable pub use Texts.*
use apate.Prelude.{
  concat, has_substring, ℕ, suc, ◌+◌, ◌*◌, String, Bool, ◌&&◌, ◌||◌, List, [], ◌∷◌, ◌++◌, map, ltb,
  leb, if◌then◌else◌, nat_eq, string_eq, length, any, select, contains, split, ℤ, pos, negsuc, ◌-◌,
  Option, none, some, get_or,
}
use apate.Dict
use apate.Dict.{Dict}
use apate.Skills.Commands.{CommandAnalysis, found}

pub record SessionData : Type 0 where
  pub commands : List String
  pub techniques : List String
  pub phases : List String
  pub tools_used : List String
  pub unique_techniques_count : ℕ

abbrev pub new_session : SessionData
new_session = record {
  commands = [];
  techniques = [];
  phases = [];
  tools_used = [];
  unique_techniques_count = 0;
}

-- `session_data`
abbrev pub SkillDetector : Type 0
SkillDetector = Dict String SessionData

-- s.add_item(x)
unfoldable pub add_item : List String → String → List String
add_item xs x = if contains xs x then xs else xs ++ (x ∷ [])

-- s.update(ys)
unfoldable pub update_set : List String → List String → List String
update_set xs [] = xs
update_set xs (y ∷ ys) = update_set (add_item xs y) ys

-- technique.split('.')[0]
unfoldable pub phase_of : String → String
phase_of technique = elim (split 46 technique) [ [] ↦ "" | phase ∷ rest ↦ phase ]

-- The loop over command_analyses.
unfoldable pub aggregate : List CommandAnalysis → SessionData → SessionData
aggregate [] session = session
aggregate (analysis ∷ rest) session = aggregate rest (record session {
  commands = session.commands ++ (analysis.command ∷ []);
  techniques = update_set session.techniques analysis.techniques;
  phases = update_set session.phases (map phase_of analysis.techniques);
})

unfoldable pub count_if {ℓ} : {A : Type ℓ} → (A → Bool) → List A → ℕ
count_if p [] = 0
count_if p (x ∷ xs) = if p x then suc (count_if p xs) else count_if p xs

-- ' '.join(commands)
unfoldable pub joined : List String → String
joined [] = ""
joined (command ∷ []) = command
joined (command ∷ next ∷ rest) = concat command (concat " " (joined (next ∷ rest)))

unfoldable pub is_chained : String → Bool
is_chained cmd = has_substring "|" cmd || has_substring ";" cmd || has_substring "&&" cmd

unfoldable pub handles_errors : String → Bool
handles_errors cmd = any (λ p. has_substring p cmd) ("2>/dev/null" ∷ "2>&1" ∷ "try" ∷ "catch" ∷ [])

-- `_analyze_timing`; the test `unique_ratio < 0.3` is taken in whole numbers.
unfoldable pub analyze_timing : List String → Timing
analyze_timing commands =
    if ltb (length commands) 5
    then insufficient_data
    else if ltb (10 * length (update_set [] commands)) (3 * length commands)
    then automated
    else deliberate

-- What one of the eight observations adds to the score, or takes from it, and its indicators.
pub record Finding : Type 0 where
  pub gained : ℕ
  pub lost : ℕ
  pub indicators : List Indicator

abbrev pub nothing : Finding
nothing = record { gained = 0; lost = 0; indicators = [] }

abbrev pub gain : ℕ → List Indicator → Finding
gain points indicators = record { gained = points; lost = 0; indicators = indicators }

-- 1: the tools in the text of the commands.
unfoldable pub tools_in : List String → String → List String
tools_in tools command_text = select (λ tool. has_substring tool command_text) tools

unfoldable pub tool_finding : List String → Finding
tool_finding found = gain (15 * length found) (map uses_tool found)

unfoldable pub phases_in_order : List String → List String
phases_in_order phases = select (contains phases) expected_progression

unfoldable pub progression_finding : ℕ → Finding
progression_finding phases =
    if leb 4 phases then gain 20 (follows_methodology phases ∷ []) else nothing

unfoldable pub complexity_finding : ℕ → Finding
complexity_finding commands =
    if ltb 3 commands then gain 10 (chains_commands commands ∷ []) else nothing

unfoldable pub evasion_finding : ℕ → Finding
evasion_finding techniques = if leb 2 techniques then gain 15 (evades techniques ∷ []) else nothing

unfoldable pub diversity_finding : ℕ → Finding
diversity_finding techniques =
    if leb 10 techniques
    then gain 15 (is_diverse techniques ∷ [])
    else if leb 5 techniques
    then gain 5 []
    else nothing

unfoldable pub timing_finding : Timing → Finding
timing_finding automated = record { gained = 0; lost = 10; indicators = is_automated ∷ [] }
timing_finding deliberate = gain 10 (is_manual ∷ [])
timing_finding insufficient_data = nothing

unfoldable pub errors_finding : ℕ → Finding
errors_finding commands = if leb 3 commands then gain 10 (catches_errors ∷ []) else nothing

unfoldable pub recon_finding : ℕ → Finding
recon_finding techniques =
    if leb 5 techniques then gain 10 (is_thorough techniques ∷ []) else nothing

unfoldable pub total : List Finding → Finding
total [] = nothing
total (f ∷ fs) =
    let rest = total fs in
    record {
      gained = f.gained + rest.gained;
      lost = f.lost + rest.lost;
      indicators = f.indicators ++ rest.indicators;
    }

-- m - n
unfoldable pub difference : ℕ → ℕ → ℤ
difference m n = if leb n m then pos (m - n) else negsuc (n - m - 1)

-- `_score_to_level`
unfoldable pub score_to_level : ℤ → SkillLevel
score_to_level (negsuc n) = script_kiddie
score_to_level (pos score) =
    if ltb score 15
    then script_kiddie
    else if ltb score 35
    then opportunistic
    else if ltb score 60
    then intermediate
    else if ltb score 85
    then advanced
    else expert

-- `_calculate_confidence`
unfoldable pub calculate_confidence : ℕ → Confidence
calculate_confidence command_count =
    if ltb command_count 5
    then low_confidence
    else if ltb command_count 15
    then medium_confidence
    else high_confidence

pub record Assessment : Type 0 where
  pub skill_level : SkillLevel
  pub skill_score : ℤ
  pub confidence : Confidence
  pub indicators : List Indicator
  pub total_commands : ℕ
  pub unique_techniques : ℕ
  pub attack_phases : List String
  pub tools_detected : List String
  pub characteristics : List String

module _ (lower : String → String) where
  -- `command_text`
  unfoldable pub text_of : SessionData → String
  text_of session = lower (joined session.commands)

  unfoldable pub use_tools : SessionData → SessionData
  use_tools session = record session {
    tools_used =
        update_set (update_set session.tools_used (tools_in sophisticated_tools (text_of session)))
          (tools_in basic_tools (text_of session));
  }

  -- The observations 1 to 8.
  unfoldable pub findings : SessionData → List Finding
  findings session =
      tool_finding (tools_in sophisticated_tools (text_of session))
      ∷ progression_finding (length (phases_in_order session.phases))
      ∷ complexity_finding (count_if is_chained session.commands)
      ∷ evasion_finding (count_if (has_substring "defense_evasion") session.techniques)
      ∷ diversity_finding session.unique_techniques_count
      ∷ timing_finding (analyze_timing session.commands)
      ∷ errors_finding (count_if handles_errors session.commands)
      ∷ recon_finding (count_if (has_substring "reconnaissance") session.techniques)
      ∷ []

  unfoldable pub assess : SessionData → Assessment
  assess session =
      let f = total (findings session) in
      let score = difference f.gained f.lost in
      record {
        skill_level = score_to_level score;
        skill_score = score;
        confidence = calculate_confidence (length session.commands);
        indicators = f.indicators;
        total_commands = length session.commands;
        unique_techniques = session.unique_techniques_count;
        attack_phases = session.phases;
        tools_detected = session.tools_used;
        characteristics = get_characteristics (score_to_level score);
      }

  unfoldable pub analyze_session :
      String → List CommandAnalysis → SkillDetector → Assessment × SkillDetector
  analyze_session session_id command_analyses sessions =
      let gathered =
        aggregate command_analyses (get_or new_session (Dict.get sessions session_id)) in
      let session =
        use_tools (record gathered { unique_techniques_count = length gathered.techniques }) in
      (assess session, Dict.put sessions session_id session)

pub record Summary : Type 0 where
  pub commands_count : ℕ
  pub techniques_count : ℕ
  pub phases : List String
  pub tools : List String

-- `none` is the answer "Session not found".
unfoldable pub get_session_summary : String → SkillDetector → Option Summary
get_session_summary session_id sessions = elim (Dict.get sessions session_id) [
  | none ↦ none
  | some session ↦ some record {
    commands_count = length session.commands;
    techniques_count = length session.techniques;
    phases = session.phases;
    tools = session.tools_used;
  }
]

-- ===== src/Skills/Commands.antt =====
-- src/chronos/skills/command_analyzer.py: the attack techniques in a command and its risk. `search`
-- says whether a regular expression finds a match in a command, as Python's re does, and `size` is
-- len() of a text in characters.
mod Tables
pub mod Scores
pub mod Profiles
pub mod Tests
pub use Tables.*
use apate.Prelude.{
  size, ℕ, zero, suc, ◌+◌, ◌*◌, ◌/◌, String, Bool, true, false, ◌&&◌, ◌||◌, List, [], ◌∷◌, ◌++◌,
  map, ltb, leb, if◌then◌else◌, nat_eq, string_eq, length, select, has_code, concat,
}

-- The strings of `risk_level`.
pub data RiskLevel : Type 0 where
  critical high medium low benign : RiskLevel

pub record Metadata : Type 0 where
  pub has_pipe : Bool
  pub has_redirect : Bool
  pub has_background : Bool
  pub has_variables : Bool
  pub command_length : ℕ

pub record CommandAnalysis : Type 0 where
  pub command : String
  pub techniques : List String
  pub risk_score : ℕ
  pub risk_level : RiskLevel
  pub indicators : List String
  pub metadata : Metadata

-- A category's patterns, what stands before a technique's name in `techniques` and `indicators`,
-- and the score of a match.
pub record Category : Type 0 where
  pub patterns : Patterns
  pub prefix : String
  pub title : String
  pub risk : ℕ

abbrev pub categories : List Category
categories =
    record {
      patterns = recon_patterns;
      prefix = "reconnaissance.";
      title = "Reconnaissance: ";
      risk = 5;
    }
    ∷ record {
      patterns = persistence_patterns;
      prefix = "persistence.";
      title = "Persistence: ";
      risk = 25;
    }
    ∷ record {
      patterns = privesc_patterns;
      prefix = "privilege_escalation.";
      title = "Privilege Escalation: ";
      risk = 30;
    }
    ∷ record {
      patterns = lateral_patterns;
      prefix = "lateral_movement.";
      title = "Lateral Movement: ";
      risk = 20;
    }
    ∷ record {
      patterns = exfil_patterns;
      prefix = "exfiltration.";
      title = "Data Exfiltration: ";
      risk = 25;
    }
    ∷ record {
      patterns = execution_patterns;
      prefix = "execution.";
      title = "Code Execution: ";
      risk = 35;
    }
    ∷ record {
      patterns = evasion_patterns;
      prefix = "defense_evasion.";
      title = "Defense Evasion: ";
      risk = 20;
    }
    ∷ record {
      patterns = credential_patterns;
      prefix = "credential_access.";
      title = "Credential Access: ";
      risk = 30;
    }
    ∷ []

pub record Findings : Type 0 where
  pub techniques : List String
  pub indicators : List String
  pub risk_score : ℕ

abbrev pub nothing_found : Findings
nothing_found = record { techniques = []; indicators = []; risk_score = 0 }

unfoldable pub calculate_risk_level : ℕ → RiskLevel
calculate_risk_level score =
    if leb 60 score
    then critical
    else if leb 40 score
    then high
    else if leb 20 score
    then medium
    else if ltb 0 score
    then low
    else benign

unfoldable pub found : Category → String → Findings → Findings
found category technique f = record {
  techniques = f.techniques ++ concat category.prefix technique ∷ [];
  indicators = f.indicators ++ concat category.title technique ∷ [];
  risk_score = f.risk_score + category.risk;
}

unfoldable pub metadata_of : String → Metadata
metadata_of command = record {
  has_pipe = has_code b'|' command;
  has_redirect = has_code b'>' command || has_code b'<' command;
  has_background = has_code b'&' command;
  has_variables = has_code b'$' command;
  command_length = size command;
}

-- A piped command of more than 50 characters.
unfoldable pub is_complex : String → Bool
is_complex command = has_code b'|' command && ltb 50 (size command)

module _ (search : String → String → Bool) where
  -- One category's loop.
  unfoldable pub scan : Category → Patterns → String → Findings → Findings
  scan category [] command f = f
  scan category ((technique, pattern) ∷ rest) command f =
      let on_match = scan category rest command (found category technique f) in
      let otherwise = scan category rest command f in
      if search pattern command then on_match else otherwise

  unfoldable pub scan_all : List Category → String → Findings → Findings
  scan_all [] command f = f
  scan_all (category ∷ rest) command f =
      scan_all rest command (scan category category.patterns command f)

  unfoldable pub analyze : String → CommandAnalysis
  analyze command =
      let f = scan_all categories command nothing_found in
      let score = if is_complex command then f.risk_score + 5 else f.risk_score in
      record {
        command = command;
        techniques = f.techniques;
        risk_score = score;
        risk_level = calculate_risk_level score;
        indicators =
            if is_complex command
            then f.indicators ++ "Complex piped command" ∷ []
            else f.indicators;
        metadata = metadata_of command;
      }

  unfoldable pub batch_analyze : List String → List CommandAnalysis
  batch_analyze commands = map analyze commands

abbrev pub total_risk : List CommandAnalysis → ℕ
total_risk [] = 0
total_risk (a ∷ rest) = a.risk_score + total_risk rest

abbrev pub is_nonempty {ℓ} : {A : Type ℓ} → List A → Bool
is_nonempty [] = false
is_nonempty (x ∷ xs) = true

unfoldable pub is_malicious : CommandAnalysis → Bool
is_malicious a = is_nonempty a.techniques

-- total // count if count else 0
unfoldable pub average : ℕ → ℕ → ℕ
average total zero = 0
average total (suc n) = total / suc n

-- The counts of `get_session_risk_profile`.
pub record RiskProfile : Type 0 where
  pub total_commands : ℕ
  pub malicious_commands : ℕ
  pub total_risk_score : ℕ
  pub overall_risk_level : RiskLevel

module _ (search : String → String → Bool) where
  unfoldable pub get_session_risk_profile : List String → RiskProfile
  get_session_risk_profile commands =
      let analyses = batch_analyze search commands in
      record {
        total_commands = length commands;
        malicious_commands = length (select is_malicious analyses);
        total_risk_score = total_risk analyses;
        overall_risk_level = calculate_risk_level (average (total_risk analyses) (length commands));
      }

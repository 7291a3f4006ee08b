-- ===== src/Skills/Detector/Texts.antt =====
-- skill_detector.py: the levels, the tables of texts, and the indicators.
use apate.Prelude.{ℕ, String, List, [], ◌∷◌, nat_eq, string_eq}

-- `SKILL_LEVELS`
pub data SkillLevel : Type 0 where
  script_kiddie opportunistic intermediate advanced expert : SkillLevel

-- Its number in `SKILL_LEVELS`.
abbrev pub rank : SkillLevel → ℕ
rank script_kiddie = 0
rank opportunistic = 1
rank intermediate = 2
rank advanced = 3
rank expert = 4

-- "low", "medium" and "high".
pub data Confidence : Type 0 where
  low_confidence medium_confidence high_confidence : Confidence

-- What `_analyze_timing` returns.
pub data Timing : Type 0 where
  insufficient_data automated deliberate : Timing

pub data Indicator : Type 0 where
  uses_tool : String → Indicator
  follows_methodology chains_commands evades is_diverse is_thorough : ℕ → Indicator
  is_automated is_manual catches_errors : Indicator

abbrev pub sophisticated_tools : List String
sophisticated_tools = "metasploit" ∷ "empire" ∷ "cobalt" ∷ "linpeas" ∷ "pspy" ∷ []

abbrev pub basic_tools : List String
basic_tools = "nc" ∷ "netcat" ∷ "wget" ∷ "curl" ∷ []

abbrev pub expected_progression : List String
expected_progression =
    "reconnaissance" ∷ "execution" ∷ "persistence" ∷ "privilege_escalation" ∷ "credential_access"
    ∷ "lateral_movement" ∷ "exfiltration" ∷ []

-- `_get_characteristics`
unfoldable pub get_characteristics : SkillLevel → List String
get_characteristics script_kiddie =
    "Uses basic, well-known exploits" ∷ "Limited understanding of techniques"
    ∷ "Copy-paste commands from tutorials" ∷ "No customization or adaptation" ∷ []
get_characteristics opportunistic =
    "Scans for known vulnerabilities" ∷ "Uses basic exploitation frameworks"
    ∷ "Limited post-exploitation capability" ∷ "Follows simple attack patterns" ∷ []
get_characteristics intermediate =
    "Understands attack methodology" ∷ "Uses multiple techniques" ∷ "Some evasion awareness"
    ∷ "Basic lateral movement attempts" ∷ []
get_characteristics advanced =
    "Sophisticated tool usage" ∷ "Methodical attack progression" ∷ "Active evasion techniques"
    ∷ "Custom scripts and tools" ∷ []
get_characteristics expert =
    "Advanced persistent threat behavior" ∷ "Complex multi-stage attacks" ∷ "Custom malware/tools"
    ∷ "Advanced evasion and anti-forensics" ∷ "Strategic objective-driven" ∷ []

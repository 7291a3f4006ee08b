-- ===== src/Skills/Threats.antt =====
-- src/chronos/skills/threat_library.py: the signatures of known attacks, and which of them a text
-- matches. `lower` stands for Python's str.lower.
pub mod Signatures
pub mod Matching
pub mod Tests
use apate.Prelude.{
  has_substring, ℕ, ◌+◌, String, Bool, true, false, ◌||◌, Option, List, [], ◌∷◌, if◌then◌else◌,
  ◌==◌, nat_eq, string_eq, get_or, is_some, length, select,
}
use apate.Dict
use apate.Dict.{Dict}

pub record ThreatSignature : Type 0 where
  pub id : String
  pub name : String
  pub category : String
  pub severity : String
  pub description : String
  pub indicators : List String
  pub mitre_attack_id : Option String
  pub references : List String

abbrev pub ThreatLibrary : Type 0
ThreatLibrary = Dict String ThreatSignature

unfoldable pub add_signature : ThreatSignature → ThreatLibrary → ThreatLibrary
add_signature signature signatures = Dict.put signatures signature.id signature

unfoldable pub remove_signature : String → ThreatLibrary → Bool × ThreatLibrary
remove_signature signature_id signatures =
    if is_some (Dict.get signatures signature_id)
    then (true, Dict.remove signatures signature_id)
    else (false, signatures)

unfoldable pub get_signature : String → ThreatLibrary → Option ThreatSignature
get_signature signature_id signatures = Dict.get signatures signature_id

unfoldable pub add_all : List ThreatSignature → ThreatLibrary → ThreatLibrary
add_all [] signatures = signatures
add_all (sig ∷ rest) signatures = add_all rest (add_signature sig signatures)

abbrev pub values : ThreatLibrary → List ThreatSignature
values [] = []
values ((id, sig) ∷ rest) = sig ∷ values rest

-- The indicators' loop: it stops at the first that is in the text.
unfoldable pub has_indicator : (String → String) → String → List String → Bool
has_indicator lower text_lower [] = false
has_indicator lower text_lower (indicator ∷ rest) =
    has_substring (lower indicator) text_lower || has_indicator lower text_lower rest

unfoldable pub matches_in : (String → String) → String → List ThreatSignature → List ThreatSignature
matches_in lower text_lower [] = []
matches_in lower text_lower (signature ∷ rest) =
    let others = matches_in lower text_lower rest in
    if has_indicator lower text_lower signature.indicators then signature ∷ others else others

-- `match`
unfoldable pub match_text : (String → String) → String → ThreatLibrary → List ThreatSignature
match_text lower text signatures = matches_in lower (lower text) (values signatures)

unfoldable pub search_by_category : String → ThreatLibrary → List ThreatSignature
search_by_category category signatures =
    select (λ sig. sig.category == category) (values signatures)

unfoldable pub search_by_severity : String → ThreatLibrary → List ThreatSignature
search_by_severity severity signatures =
    select (λ sig. sig.severity == severity) (values signatures)

-- categories[k] = categories.get(k, 0) + 1
unfoldable pub counted : String → Dict String ℕ → Dict String ℕ
counted k counts = Dict.put counts k (get_or 0 (Dict.get counts k) + 1)

unfoldable pub count_by :
    (ThreatSignature → String) → List ThreatSignature → Dict String ℕ → Dict String ℕ
count_by field [] counts = counts
count_by field (sig ∷ rest) counts = count_by field rest (counted (field sig) counts)

pub record Statistics : Type 0 where
  pub total_signatures : ℕ
  pub by_category : Dict String ℕ
  pub by_severity : Dict String ℕ

unfoldable pub get_statistics : ThreatLibrary → Statistics
get_statistics signatures = record {
  total_signatures = length signatures;
  by_category = count_by (λ sig. sig.category) (values signatures) [];
  by_severity = count_by (λ sig. sig.severity) (values signatures) [];
}

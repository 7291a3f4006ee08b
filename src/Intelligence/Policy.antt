-- ===== src/Intelligence/Policy.antt =====
-- src/chronos/intelligence/artifact_policy.py: the class of a file, and the policy of its content.
-- `lower` stands for str.lower, and `choose` for random.choices of one category by its weights.
pub mod Tests
use apate.Prelude.{
  has_substring, has_suffix, ℕ, String, Bool, ◌||◌, Option, none, some, List, [], ◌∷◌,
  if◌then◌else◌, ◌==◌, nat_eq, string_eq, get_or, any,
}
use apate.Dict
use apate.Dict.{Dict}

abbrev contains_any : List String → String → Bool
contains_any words text = any (λ w. has_substring w text) words

abbrev ends_with_any : List String → String → Bool
ends_with_any ends name = any (λ e. has_suffix e name) ends

module _ (lower : String → String) where
  -- `_FILE_CLASS_RULES`: a test on the name and the path, and the class.
  unfoldable pub file_class_rules : List ((String → String → Bool) × String)
  file_class_rules =
      (
        λ n p.
            contains_any
              ("passwd" ∷ "shadow" ∷ "secret" ∷ "token" ∷ "key" ∷ ".env" ∷ "credential" ∷ "password"
                ∷ [])
              (lower n),
        "credential_file",
      )
      ∷ (
        λ n p. has_substring "authorized_keys" n || has_suffix ".pem" n || has_suffix ".key" n,
        "credential_file",
      )
      ∷ (λ n p. has_substring "history" (lower n), "history_file")
      ∷ (λ n p. has_substring "/var/log/" p || has_suffix ".log" n, "log_file")
      ∷ (
        λ n p. has_substring "/etc/" p || ends_with_any (".conf" ∷ ".cfg" ∷ ".ini" ∷ []) n,
        "config_file",
      )
      ∷ (λ n p. ends_with_any (".sh" ∷ ".py" ∷ ".pl" ∷ ".rb" ∷ []) n, "script_file")
      ∷ (
        λ n p. contains_any ("note" ∷ "todo" ∷ "readme" ∷ "scratch" ∷ "draft" ∷ []) (lower n),
        "notes_file",
      )
      ∷ (
        λ n p. has_substring "/tmp/" p || ends_with_any (".tmp" ∷ ".lock" ∷ ".pid" ∷ []) n,
        "temp_file",
      )
      ∷ []

  unfoldable pub first_class : List ((String → String → Bool) × String) → String → String → String
  first_class [] filename path = "config_file"
  first_class ((predicate, cls) ∷ rules) filename path =
      let later = first_class rules filename path in if predicate filename path then cls else later

  unfoldable pub infer_file_class : String → String → String
  infer_file_class filename path = first_class file_class_rules filename path

-- A class of generation_policy.yaml; `none` is a key that is not there. Weights are in hundredths.
pub record ClassPolicy : Type 0 where
  pub distribution : Option (Dict String ℕ)
  pub max_lines : Option ℕ
  pub max_entries : Option ℕ
  pub max_days : Option ℕ
  pub validation_strictness : Option String
  pub regeneration : Option String

pub record PolicyEngine : Type 0 where
  pub artifact_policy : Dict String ClassPolicy
  pub model_routing : Dict String String

pub record ArtifactPolicy : Type 0 where
  pub file_class : String
  pub category : String
  pub max_lines : ℕ
  pub max_entries : Option ℕ
  pub max_days : Option ℕ
  pub validation_strictness : String
  pub regeneration : String
  pub model : String
  pub manifest_class : String

abbrev no_policy : ClassPolicy
no_policy = record {
  distribution = none;
  max_lines = none;
  max_entries = none;
  max_days = none;
  validation_strictness = none;
  regeneration = none;
}

-- The class of the manifest's first entry for the path; `none` is a manifest that cannot be read.
unfoldable pub class_in : List (String × Option String) → String → String
class_in [] path = "runtime"
class_in ((entry_path, cls) ∷ entries) path =
    let later = class_in entries path in
    if entry_path == path then get_or "ai_backed" cls else later

unfoldable pub manifest_class_of : Option (List (String × Option String)) → String → String
manifest_class_of none path = "runtime"
manifest_class_of (some entries) path = class_in entries path

-- `resolve`; `manifest` is what json.loads makes of the machine state's filesystem_manifest.
unfoldable pub resolve :
    (String → String)
    → (Dict String ℕ → String)
    → PolicyEngine
    → String
    → String
    → Option (List (String × Option String))
    → ArtifactPolicy
resolve lower choose engine filename path manifest =
    let file_class = infer_file_class lower filename path in
    let class_policy = get_or no_policy (Dict.get engine.artifact_policy file_class) in
    record {
      file_class = file_class;
      category = choose (get_or (("valid", 100) ∷ []) class_policy.distribution);
      max_lines = get_or 80 class_policy.max_lines;
      max_entries = class_policy.max_entries;
      max_days = class_policy.max_days;
      validation_strictness = get_or "medium" class_policy.validation_strictness;
      regeneration = get_or "static" class_policy.regeneration;
      model =
          get_or (get_or "llama3:8b" (Dict.get engine.model_routing "default"))
            (Dict.get engine.model_routing file_class);
      manifest_class = manifest_class_of manifest path;
    }

abbrev pub skip_generation : ArtifactPolicy → Bool
skip_generation policy = policy.category == "empty"

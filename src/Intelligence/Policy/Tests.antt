-- ===== src/Intelligence/Policy/Tests.antt =====
-- The classes of some files, and a policy by default.
use apate.Prelude.{
  same_text, has_prefix, has_substring, has_suffix, String, ◌≡◌, refl, none, some, [], ◌∷◌, nat_eq,
  string_eq, is_empty,
}
use apate.Dict
use apate.Dict.{Dict}
use apate.Intelligence.Policy.{
  file_class_rules, first_class, infer_file_class, PolicyEngine, class_in, manifest_class_of,
  resolve,
}

abbrev class_of : String → String → String
unfolding infer_file_class first_class file_class_rules resolve class_in manifest_class_of
    has_substring has_prefix has_suffix same_text is_empty Dict.get
class_of filename path = infer_file_class (λ s. s) filename path

credentials_first : class_of "shadow" "/etc/shadow" ≡ "credential_file"
unfolding class_of
credentials_first = refl

logs : class_of "syslog" "/var/log/syslog" ≡ "log_file"
unfolding class_of
logs = refl

-- A name with "key" anywhere in it is taken for a credential.
keyboard : class_of "keyboard" "/etc/default/keyboard" ≡ "credential_file"
unfolding class_of
keyboard = refl

abbrev no_engine : PolicyEngine
no_engine = record { artifact_policy = []; model_routing = [] }

by_default :
    (resolve
      (λ s. s)
      (λ d. "valid")
      no_engine
      "hosts"
      "/etc/hosts"
      (some (("/etc/hosts", none) ∷ []))).manifest_class
    ≡ "ai_backed"
unfolding class_of
by_default = refl

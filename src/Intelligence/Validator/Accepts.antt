-- ===== src/Intelligence/Validator/Accepts.antt =====
-- validator.py: which contents are accepted, beside a plain list of the flaws that a content can have.
use apate.Intelligence.Validator.Checks.{reports_absent}
use apate.Prelude.{
  has_substring, String, Bool, not, ◌&&◌, List, [], ◌∷◌, ltb, ◌==◌, nat_eq, string_eq, get_or, any,
  contains, has_code,
}
use apate.Intelligence.Policy.{ArtifactPolicy}
use apate.Intelligence.Validator.{
  TextTools, MachineState, refusal_patterns, non_ubuntu_markers, daemon_package_map, exceeds,
  references, has_backend, has_web_root, is_artifact,
}

-- Some condition of the list holds.
abbrev pub some_of : List Bool → Bool
some_of = any (λ b. b)

abbrev pub is_high : ArtifactPolicy → Bool
is_high policy = policy.validation_strictness == "high"

abbrev pub too_many_entries : TextTools → String → ArtifactPolicy → Bool
too_many_entries tools content policy =
    exceeds tools (get_or 0 policy.max_entries) (tools.line_count content)

abbrev pub too_many_lines : TextTools → String → ArtifactPolicy → Bool
too_many_lines tools content policy = exceeds tools policy.max_lines (tools.line_count content)

-- The flaws for which a content is to be refused, in no particular order. Density is one at the
-- strictness `high`, as the comments of the source have it.
unfoldable pub flaws : TextTools → String → ArtifactPolicy → MachineState → List Bool
flaws tools content policy machine_state =
    let nginx = is_artifact tools "/etc/nginx/nginx.conf" machine_state in
    let html = is_artifact tools "/var/www/html/index.html" machine_state in
    ltb 65536 (tools.utf8_size content)
    ∷ has_code 0 content
    ∷ (nginx && has_backend tools content)
    ∷ (nginx
        && any (λ path. not (contains machine_state.manifest_paths path))
            (references tools content))
    ∷ (nginx && not (has_web_root tools content))
    ∷ (html && not (has_substring "<html" (tools.lower content)))
    ∷ (html && not (has_substring "</html>" (tools.lower content)))
    ∷ any (λ pattern. tools.search_flags pattern content) refusal_patterns
    ∷ any (λ marker. tools.search_i marker.0 content) non_ubuntu_markers
    ∷ (contains ("medium" ∷ "high" ∷ []) policy.validation_strictness
        && (policy.file_class == "config_file"
            && any (reports_absent tools content (get_or [] machine_state.installed_packages))
                daemon_package_map))
    ∷ (is_high policy && too_many_entries tools content policy)
    ∷ (is_high policy && too_many_lines tools content policy)
    ∷ []

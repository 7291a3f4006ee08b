-- ===== src/Intelligence/Validator/Checks.antt =====
-- validator.py: which contents each check accepts.
use apate.Prelude.{
  has_substring, String, ◌≡◌, refl, Bool, true, false, not, ◌&&◌, ◌||◌, List, [], ◌∷◌,
  if◌then◌else◌, ◌==◌, nat_eq, string_eq, get_or, any, contains, arith,
}
use apate.Intelligence.Policy.{ArtifactPolicy}
use apate.Intelligence.Validator.{
  TextTools, MachineState, ValidationResult, accepted, rejected, is_accepted, ◌then_check◌,
  reject_if, daemon_package_map, mentions, exceeds, references, has_backend, has_web_root, Pattern,
  check_refusal_from, check_conventions_from, check_daemons_from, check_contradictions,
  check_density, check_nginx, check_html,
}

abbrev pub reports_absent : TextTools → String → List String → String × String → Bool
reports_absent tools content installed_names row =
    mentions tools row.0 content && not (contains installed_names row.1)

is_accepted-then_check :
    (first next : ValidationResult)
    → is_accepted (first then_check next) ≡ is_accepted first && is_accepted next
unfolding is_accepted
is_accepted-then_check accepted next = refl
is_accepted-then_check (rejected reason) next = refl

pub is_accepted-reject_if :
    (bad : Bool) (reason : String) → is_accepted (reject_if bad reason) ≡ not bad
unfolding is_accepted
is_accepted-reject_if true reason = refl
is_accepted-reject_if false reason = refl

is_accepted-if :
    (test : Bool) (result : ValidationResult)
    → is_accepted (if test then result else accepted) ≡ not test || is_accepted result
unfolding is_accepted
is_accepted-if true result = refl
is_accepted-if false result = refl

-- One check in front of others: the flaws are those of the one and those of the others.
then_check_flawed :
    (bad : Bool) (reason : String) (next : ValidationResult) (others : Bool)
    → is_accepted next ≡ not others
    → is_accepted (reject_if bad reason then_check next) ≡ not (bad || others)
unfolding is_accepted
then_check_flawed true reason next others e = refl
then_check_flawed false reason next others e = e

pub check_refusal-accepts :
    (tools : TextTools) (patterns : List Pattern) (content : String)
    → is_accepted (check_refusal_from tools patterns content)
      ≡ not (any (λ pattern. tools.search_flags pattern content) patterns)
unfolding check_refusal_from is_accepted
check_refusal-accepts tools [] content = refl
check_refusal-accepts tools (pattern ∷ patterns) content =
    then_check_flawed _ _ _ _ (check_refusal-accepts tools patterns content)

pub check_conventions-accepts :
    (tools : TextTools) (markers : List (String × String)) (content : String)
    → is_accepted (check_conventions_from tools markers content)
      ≡ not (any (λ marker. tools.search_i marker.0 content) markers)
unfolding check_conventions_from is_accepted
check_conventions-accepts tools [] content = refl
check_conventions-accepts tools ((pattern, reason) ∷ markers) content =
    then_check_flawed _ _ _ _ (check_conventions-accepts tools markers content)

check_daemons-accepts :
    (tools : TextTools) (daemons : List (String × String)) (content : String)
    (installed_names : List String)
    → is_accepted (check_daemons_from tools daemons content installed_names)
      ≡ not (any (reports_absent tools content installed_names) daemons)
unfolding check_daemons_from is_accepted
check_daemons-accepts tools [] content installed_names = refl
check_daemons-accepts tools ((daemon, needed) ∷ daemons) content installed_names =
    then_check_flawed _ _ _ _ (check_daemons-accepts tools daemons content installed_names)

-- What stands under a test is a flaw only where the test holds.
pub if_flawed :
    (test : Bool) (result : ValidationResult) (bad : Bool)
    → is_accepted result ≡ not bad
    → is_accepted (if test then result else accepted) ≡ not (test && bad)
unfolding is_accepted
if_flawed true result bad e = e
if_flawed false result bad e = refl

pub both_flawed :
    (first next : ValidationResult) (bad others : Bool)
    → is_accepted first ≡ not bad
    → is_accepted next ≡ not others
    → is_accepted (first then_check next) ≡ not (bad || others)
unfolding is_accepted
both_flawed accepted next true others e f = absurd (ground arith)
both_flawed accepted next false others e f = f
both_flawed (rejected reason) next true others e f = refl
both_flawed (rejected reason) next false others e f = absurd (ground arith)

pub check_nginx-accepts :
    (tools : TextTools) (content : String) (machine_state : MachineState)
    → is_accepted (check_nginx tools content machine_state)
      ≡ not (
          has_backend tools content
          || (any
                (λ path. not (contains machine_state.manifest_paths path))
                (references tools content)
              || not (has_web_root tools content)))
unfolding check_nginx
check_nginx-accepts tools content machine_state = search (then_check_flawed, is_accepted-reject_if)

pub check_contradictions-accepts :
    (tools : TextTools) (content : String) (policy : ArtifactPolicy) (machine_state : MachineState)
    → is_accepted (check_contradictions tools content policy machine_state)
      ≡ not (
          policy.file_class == "config_file"
          && any
              (reports_absent tools content (get_or [] machine_state.installed_packages))
              daemon_package_map)
unfolding check_contradictions
check_contradictions-accepts tools content policy machine_state =
    search (if_flawed, check_daemons-accepts)

pub check_density-accepts :
    (tools : TextTools) (content : String) (policy : ArtifactPolicy)
    → is_accepted (check_density tools content policy)
      ≡ not (
          exceeds tools (get_or 0 policy.max_entries) (tools.line_count content)
          || exceeds tools policy.max_lines (tools.line_count content))
unfolding check_density
check_density-accepts tools content policy = search (then_check_flawed, is_accepted-reject_if)

pub check_html-accepts :
    (tools : TextTools) (content : String)
    → is_accepted (check_html tools content)
      ≡ not (
          not (has_substring "<html" (tools.lower content))
          || not (has_substring "</html>" (tools.lower content)))
unfolding check_html
check_html-accepts tools content = is_accepted-reject_if _ _

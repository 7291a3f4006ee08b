-- ===== src/Intelligence/Validator.antt =====
-- src/chronos/intelligence/validator.py: whether a generated content may be committed. What the code
-- asks of Python's `re`, of str.lower, of the UTF-8 encoding and of splitlines is a parameter.
pub mod Checks
pub mod Accepts
pub mod Tests
use apate.Prelude.{
  concat, has_substring, ℕ, String, Bool, true, false, not, ◌&&◌, ◌||◌, Option, List, [], ◌∷◌, ltb,
  if◌then◌else◌, ◌==◌, nat_eq, string_eq, get_or, any, contains, has_code,
}
use apate.Intelligence.Policy.{ArtifactPolicy}

-- A pattern and whether it has the flag MULTILINE beside IGNORECASE.
abbrev pub Pattern : Type 0
Pattern = String × Bool

pub record TextTools : Type 0 where
  -- re.search(pattern, content), with re.I, and with the pattern's own flags
  pub search : String → String → Bool
  pub search_i : String → String → Bool
  pub search_flags : Pattern → String → Bool
  -- re.findall of a pattern with one group
  pub findall : String → String → List String
  pub lower : String → String
  pub utf8_size : String → ℕ
  pub line_count : String → ℕ
  pub show : ℕ → String

-- The facts of the machine state that the checks read: `artifact_path`, the paths of the manifest,
-- and the names of the packages in lower case, `none` where they cannot be parsed.
pub record MachineState : Type 0 where
  pub artifact_path : Option String
  pub manifest_paths : List String
  pub installed_packages : Option (List String)

-- `ValidationResult`
pub data ValidationResult : Type 0 where
  accepted : ValidationResult
  rejected : String → ValidationResult

-- `result.accepted`
unfoldable pub is_accepted : ValidationResult → Bool
is_accepted accepted = true
is_accepted (rejected reason) = false

-- `if not result.accepted: return result`
infixr 4 ◌then_check◌
abbrev pub ◌then_check◌ : ValidationResult → ValidationResult → ValidationResult
accepted then_check next = next
(rejected reason) then_check next = rejected reason

abbrev pub reject_if : Bool → String → ValidationResult
reject_if bad reason = if bad then rejected reason else accepted

abbrev pub refusal_patterns : List Pattern
refusal_patterns =
    ("as an ai", false)
    ∷ ("i('m| am) (not able|unable)", false)
    ∷ ("i cannot (generate|create|produce|provide)", false)
    ∷ ("(this|that) (is|would be) (inappropriate|unethical|harmful)", false)
    ∷ ("i('d| would) (not|never) (recommend|suggest|advise)", false)
    ∷ ("i (must|need to) (warn|caution|advise)", false)
    ∷ ("```", false)
    ∷ ("^here (is|are) (the|a|an)", true)
    ∷ []

abbrev pub non_ubuntu_markers : List (String × String)
non_ubuntu_markers =
    ("windows", "windows reference in Ubuntu file")
    ∷ ("powershell", "powershell reference in Ubuntu file")
    ∷ ("C:\\\\\\\\", "Windows path separator in Ubuntu file")
    ∷ ("\\byum\\b", "yum package manager (RHEL) in Ubuntu file")
    ∷ ("\\bdnf\\b", "dnf package manager (Fedora) in Ubuntu file")
    ∷ ("\\bzypper\\b", "zypper package manager (SUSE) in Ubuntu file")
    ∷ []

abbrev pub daemon_package_map : List (String × String)
daemon_package_map =
    ("apache2", "apache2")
    ∷ ("mysql", "mysql-server")
    ∷ ("postgresql", "postgresql")
    ∷ ("docker", "docker")
    ∷ ("php", "php")
    ∷ ("redis", "redis-server")
    ∷ []

module _ (tools : TextTools) where
  unfoldable pub check_refusal_from : List Pattern → String → ValidationResult
  check_refusal_from [] content = accepted
  check_refusal_from (pattern ∷ patterns) content =
      reject_if (tools.search_flags pattern content)
        (concat "refusal_boilerplate: matched pattern '" (concat pattern.0 "'"))
      then_check check_refusal_from patterns content

  unfoldable pub check_conventions_from : List (String × String) → String → ValidationResult
  check_conventions_from [] content = accepted
  check_conventions_from ((pattern, reason) ∷ markers) content =
      reject_if (tools.search_i pattern content) (concat "ubuntu_convention: " reason)
      then_check check_conventions_from markers content

  abbrev pub mentions : String → String → Bool
  mentions daemon content = tools.search_i (concat "\\b" (concat daemon "\\b")) content

  unfoldable pub check_daemons_from :
      List (String × String) → String → List String → ValidationResult
  check_daemons_from [] content installed_names = accepted
  check_daemons_from ((daemon, needed) ∷ daemons) content installed_names =
      reject_if (mentions daemon content && not (contains installed_names needed)) (
        concat "contradiction: references '"
          (concat daemon (concat "' but package '" (concat needed "' is not installed"))))
      then_check check_daemons_from daemons content installed_names

  unfoldable pub check_contradictions : String → ArtifactPolicy → MachineState → ValidationResult
  check_contradictions content policy machine_state =
      if policy.file_class == "config_file"
      then check_daemons_from daemon_package_map content
          (get_or [] machine_state.installed_packages)
      else accepted

  -- A limit of 0 is no limit.
  abbrev pub exceeds : ℕ → ℕ → Bool
  exceeds limit lines = ltb 0 limit && ltb limit lines

  unfoldable pub check_density : String → ArtifactPolicy → ValidationResult
  check_density content policy =
      let lines = tools.line_count content in
      reject_if (exceeds (get_or 0 policy.max_entries) lines) "max_entries_exceeded"
      then_check reject_if (exceeds policy.max_lines lines) (
          concat "density: " (
            concat (tools.show lines)
              (concat " lines exceeds max_lines=" (tools.show policy.max_lines))))

  -- The files that nginx.conf refers to.
  abbrev pub references : String → List String
  references content =
      tools.findall "\\b(?:include|ssl_certificate|ssl_certificate_key)\\s+([^;\\s]+)" content

  abbrev pub has_backend : String → Bool
  has_backend content = tools.search "\\b(proxy_pass|upstream)\\b" content

  abbrev pub has_web_root : String → Bool
  has_web_root content = tools.search "\\broot\\s+/var/www/html\\s*;" content

  unfoldable pub check_nginx : String → MachineState → ValidationResult
  check_nginx content machine_state =
      reject_if (has_backend content) "nginx: backend is not defined in the profile"
      then_check reject_if
          (any (λ path. not (contains machine_state.manifest_paths path)) (references content))
          "nginx: referenced file absent from manifest"
      then_check reject_if (not (has_web_root content)) "nginx: static web root missing"

  unfoldable pub check_html : String → ValidationResult
  check_html content =
      let text = tools.lower content in
      reject_if (not (has_substring "<html" text) || not (has_substring "</html>" text))
        "html: incomplete document"

  abbrev pub is_artifact : String → MachineState → Bool
  is_artifact path machine_state = get_or "" machine_state.artifact_path == path

  unfoldable pub validate : String → ArtifactPolicy → MachineState → ValidationResult
  validate content policy machine_state =
      reject_if (ltb 65536 (tools.utf8_size content) || has_code 0 content)
        "invalid_content_size_or_nul"
      then_check (if is_artifact "/etc/nginx/nginx.conf" machine_state
          then check_nginx content machine_state
          else accepted)
      then_check (if is_artifact "/var/www/html/index.html" machine_state
          then check_html content
          else accepted)
      then_check check_refusal_from refusal_patterns content
      then_check check_conventions_from non_ubuntu_markers content
      then_check (if contains ("medium" ∷ "high" ∷ []) policy.validation_strictness
          then check_contradictions content policy machine_state
          else accepted)
      then_check check_density content policy

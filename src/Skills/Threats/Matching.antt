-- ===== src/Skills/Threats/Matching.antt =====
-- What is found in a library, and what its statistics count.
use apate.Prelude.{
  has_substring, String, ◌≡◌, refl, false, none, some, List, [], ◌∷◌, arith, ◌==◌, nat_eq,
  string_eq, is_some, any, select, ==_refl,
}
use apate.Dict.{get-put, get-remove}
use apate.Skills.Threats.{
  ThreatSignature, ThreatLibrary, add_signature, remove_signature, get_signature, values,
  has_indicator, matches_in, match_text,
}

-- Lookups after the library changes: an added signature is found under its id, a removed one is not
-- found, a removal says whether there was one, and no other id is affected.
library_lookups :
    (signatures : ThreatLibrary) (sig : ThreatSignature) (id other : String)
    → let (removed, after) = remove_signature id signatures in
      (get_signature sig.id (add_signature sig signatures) ≡ some sig)
      × ((sig.id == other) ≡ false
          → get_signature other (add_signature sig signatures) ≡ get_signature other signatures)
      × (get_signature id after ≡ none)
      × (removed ≡ is_some (get_signature id signatures))
      × ((id == other) ≡ false → get_signature other after ≡ get_signature other signatures)
unfolding add_signature remove_signature get_signature
library_lookups signatures sig id other = ground (
  arith,
  get-put signatures sig.id sig.id sig,
  get-put signatures sig.id other sig,
  get-remove signatures id id,
  get-remove signatures id other,
  ==_refl sig.id,
  ==_refl id,
)

has_indicator-any :
    (lower : String → String) (text : String) (indicators : List String)
    → has_indicator lower text indicators ≡ any (λ i. has_substring (lower i) text) indicators
unfolding has_indicator
has_indicator-any lower text [] = refl
has_indicator-any lower text (i ∷ rest) = rw (has_indicator-any lower text rest) refl

matches_in-select :
    (lower : String → String) (text : String) (sigs : List ThreatSignature)
    → matches_in lower text sigs
      ≡ select (λ sig. any (λ i. has_substring (lower i) text) sig.indicators) sigs
unfolding matches_in
matches_in-select lower text [] = refl
matches_in-select lower text (sig ∷ rest) =
    rw (matches_in-select lower text rest, has_indicator-any) refl

-- A text matches the signatures, each once and in the library's order, of which some indicator is
-- a part of it, both in lower case.
match_text-select :
    (lower : String → String) (text : String) (signatures : ThreatLibrary)
    → match_text lower text signatures
      ≡ select
          (λ sig. any (λ i. has_substring (lower i) (lower text)) sig.indicators)
          (values signatures)
unfolding match_text
match_text-select lower text signatures = matches_in-select lower (lower text) (values signatures)

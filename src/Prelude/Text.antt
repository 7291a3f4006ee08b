-- ===== src/Prelude/Text.antt =====
-- Python's `str` as the native text, taken apart character by character.
use Prim.Native.Nat.{ℕ, suc}
use Prim.Native.Char.{Char, code}
use Prim.Native.String.{String, ◌++◌}
use mathlib.Core.Bool.{Bool, true, false, ◌&&◌, ◌||◌}
use mathlib.Core.Option.{Option, none, some}
use mathlib.Core.List.{List, [], ◌∷◌}
use apate.Prelude.Tests.{if◌then◌else◌, nat_beq}

-- The text has the character with this code.
unfoldable pub has_code : ℕ → String → Bool
has_code k String.[] = false
has_code k (String.◌∷◌ c s) = nat_beq (code c) k || has_code k s

-- Is the text empty?
unfoldable pub is_empty : String → Bool
is_empty String.[] = true
is_empty (String.◌∷◌ c s) = false

unfoldable pub add_char : Char → List String → List String
add_char c [] = String.◌∷◌ c String.[] ∷ []
add_char c (w ∷ ws) = String.◌∷◌ c w ∷ ws

-- `s.split(sep)` at one separating character.
unfoldable pub split : ℕ → String → List String
unfolding add_char
split k String.[] = String.[] ∷ []
split k (String.◌∷◌ c s) =
    let rest = split k s in if nat_beq (code c) k then String.[] ∷ rest else add_char c rest

-- text.startswith(start)
unfoldable pub has_prefix : String → String → Bool
has_prefix String.[] text = true
has_prefix (String.◌∷◌ c start) String.[] = false
has_prefix (String.◌∷◌ c start) (String.◌∷◌ d text) =
    nat_beq (code c) (code d) && has_prefix start text

-- needle in text
unfoldable pub has_substring : String → String → Bool
has_substring needle String.[] = is_empty needle
has_substring needle (String.◌∷◌ c text) =
    has_prefix needle (String.◌∷◌ c text) || has_substring needle text

unfoldable pub same_text : String → String → Bool
same_text String.[] String.[] = true
same_text (String.◌∷◌ c s) (String.◌∷◌ d t) = nat_beq (code c) (code d) && same_text s t
same_text _ _ = false

-- text.endswith(end)
unfoldable pub has_suffix : String → String → Bool
has_suffix end String.[] = is_empty end
has_suffix end (String.◌∷◌ c text) = same_text end (String.◌∷◌ c text) || has_suffix end text

-- len(text)
unfoldable pub size : String → ℕ
size String.[] = 0
size (String.◌∷◌ c text) = suc (size text)

-- s + t
unfoldable pub concat : String → String → String
concat s t = s ++ t

-- `s.rsplit(sep, 1)` at one separating character, when it has two parts.
unfoldable pub rsplit : ℕ → String → Option (String × String)
rsplit k String.[] = none
rsplit k (String.◌∷◌ c s) = elim (rsplit k s) [
  | some (before, last) ↦ some (String.◌∷◌ c before, last)
  | none ↦ if nat_beq (code c) k then some (String.[], s) else none
]

-- s.rstrip(chars) for one character
unfoldable pub rstrip : ℕ → String → String
rstrip k String.[] = String.[]
rstrip k (String.◌∷◌ c s) =
    let rest = rstrip k s in
    if is_empty rest && nat_beq (code c) k then String.[] else String.◌∷◌ c rest

-- ===== src/Gateway/Environment/Paths.antt =====
-- src/chronos/gateway/dispatcher.py, SessionEnvironment: the paths that a session can name.
use Prim.Native.Char.{code}
use apate.Prelude.{
  concat, size, has_prefix, has_suffix, ℕ, ◌+◌, ◌/◌, ◌%◌, String, Bool, true, false, not, ◌&&◌,
  ◌||◌, List, [], ◌∷◌, ◌++◌, ltb, if◌then◌else◌, ◌==◌, nat_eq, string_eq, has_code, is_empty, split,
}
use apate.Dict.{Dict}
use apate.Core.Errno.{einval, eacces, Result, ok, err}
use apate.Core.Content.{Bytes}

pub record SessionEnvironment : Type 0 where
  pub honeypot_root : List String
  pub cwd : String
  pub username : String
  pub env : Dict String String

-- `str.encode`: UTF-8.
abbrev utf8 : ℕ → Bytes
utf8 c =
    if ltb c 128
    then c ∷ []
    else if ltb c 2048
    then (192 + c / 64) ∷ (128 + c % 64) ∷ []
    else if ltb c 65536
    then (224 + c / 4096) ∷ (128 + c / 64 % 64) ∷ (128 + c % 64) ∷ []
    else (240 + c / 262144) ∷ (128 + c / 4096 % 64) ∷ (128 + c / 64 % 64) ∷ (128 + c % 64) ∷ []

unfoldable pub encode : String → Bytes
encode String.[] = []
encode (String.◌∷◌ c s) = utf8 (code c) ++ encode s

-- comps.pop(), on an absolute path's components
unfoldable pub without_last : List String → List String
without_last [] = []
without_last (x ∷ []) = []
without_last (x ∷ y ∷ rest) = x ∷ without_last (y ∷ rest)

-- os.path.normpath on an absolute path's components: `comps` are those taken so far.
unfoldable pub push_part : String → List String → List String
push_part part comps =
    if is_empty part || part == "."
    then comps
    else if part == ".."
    then without_last comps
    else comps ++ part ∷ []

unfoldable pub normal_parts : List String → List String → List String
normal_parts [] comps = comps
normal_parts (part ∷ rest) comps = normal_parts rest (push_part part comps)

-- "/".join(parts)
abbrev join_parts : List String → String
join_parts [] = ""
join_parts (part ∷ []) = part
join_parts (part ∷ next ∷ rest) = concat part (concat "/" (join_parts (next ∷ rest)))

-- os.path.normpath on an absolute path, of which exactly two leading slashes stay two.
unfoldable pub normpath : String → String
normpath path =
    let slashes = if has_prefix "//" path && not (has_prefix "///" path) then "//" else "/" in
    concat slashes (join_parts (normal_parts (split b'/' path) []))

-- os.path.join(base, path), for a path that does not begin with a slash
unfoldable pub join_path : String → String → String
join_path base path =
    if is_empty base || has_suffix "/" base then concat base path else concat base (concat "/" path)

-- The loop over the parts: is the cursor, or a longer part of the path, a symbolic link?
unfoldable pub meets_link : (List String → Bool) → List String → List String → Bool
meets_link islink cursor [] = islink cursor
meets_link islink cursor (part ∷ rest) =
    islink cursor || meets_link islink (cursor ++ part ∷ []) rest

-- os.path.commonpath([root, target]) == root
unfoldable pub is_below : List String → List String → Bool
is_below [] target = true
is_below (part ∷ root) [] = false
is_below (part ∷ root) (first ∷ target) = part == first && is_below root target

unfoldable pub resolve_path :
    (List String → Bool) → SessionEnvironment → String → Result (List String)
resolve_path islink e path =
    let absolute = if has_prefix "/" path then path else join_path e.cwd path in
    let virtual = normal_parts (split b'/' absolute) [] in
    let target = e.honeypot_root ++ virtual in
    if has_code 0 path || ltb 4096 (size path)
    then err einval
    else if meets_link islink [] virtual
    then err eacces
    else if not (is_below e.honeypot_root target)
    then err eacces
    else ok target

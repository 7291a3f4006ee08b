-- ===== src/Gateway/Environment/Confined.antt =====
-- A path that resolves stays below the honeypot's root.
use apate.Prelude.{
  has_code, ltb, size, String, ◌≡◌, Bool, true, false, ◌||◌, List, [], ◌∷◌, ◌++◌, ◌==◌, nat_eq,
  string_eq, is_empty,
}
use apate.Core.Errno.{ok, err, einval, eacces, Result}

-- A component that names an entry: not empty, and neither `.` nor `..`.
abbrev pub IsProper : String → Type 0
IsProper part = (is_empty part ≡ false) × ((part == ".") ≡ false) × ((part == "..") ≡ false)

-- No prefix of the path is a symbolic link.
abbrev pub NoLink : (List String → Bool) → List String → List String → Type 0
NoLink islink cursor [] = islink cursor ≡ false
NoLink islink cursor (part ∷ rest) =
    (islink cursor ≡ false) × NoLink islink (cursor ++ part ∷ []) rest

-- A NUL, or more than 4096 characters.
abbrev pub is_bad : String → Bool
is_bad path = has_code 0 path || ltb 4096 (size path)

-- What `resolve_path` can say of a path that has the components `virtual`.
pub data Verdict (islink : List String → Bool) (root : List String) (path : String)
    (virtual : List String) : Result (List String) → Type 0 where
  refused : is_bad path ≡ true → Verdict islink root path virtual (err einval)
  linked :
      is_bad path ≡ false
      → ¬ NoLink islink [] virtual
      → Verdict islink root path virtual (err eacces)
  resolved :
      is_bad path ≡ false
      → NoLink islink [] virtual
      → Verdict islink root path virtual (ok (root ++ virtual))

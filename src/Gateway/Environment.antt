-- ===== src/Gateway/Environment.antt =====
-- src/chronos/gateway/dispatcher.py, SessionEnvironment and CommandRegistry: the paths a session can
-- name, its variables, and the commands that read or change them. A path is given by its components.
-- `islink` and `isdir` are the kernel's answers about components below the honeypot's root;
-- `strerror` is os.strerror.
mod Paths
pub mod Confined
pub mod Variables
pub mod Tests
unfoldable pub use Paths.*
use Prim.Native.Char.{Char, code}
use apate.Prelude.{
  concat, size, has_prefix, has_suffix, ℕ, ◌+◌, ◌/◌, ◌%◌, String, Bool, true, false, not, ◌&&◌,
  ◌||◌, Option, none, some, List, [], ◌∷◌, ◌++◌, ltb, nat_beq, if◌then◌else◌, ◌==◌, nat_eq,
  string_eq, get_or, length, contains, has_code, is_empty, split, ◌*◌,
}
use apate.Dict
use apate.Dict.{Dict}
use apate.Core.Errno.{Errno, key_error, runtime_error, einval, eacces, Result, ok, err, ◌>>=◌}
use apate.Core.Content.{Bytes}

-- The code, the output and the errors of a command.
abbrev pub Outcome : Type 0
Outcome = ℕ × Bytes × Bytes

abbrev pub max_io_bytes : ℕ
max_io_bytes = 1048576

abbrev pub protected_names : List String
protected_names = "PWD" ∷ "OLDPWD" ∷ "HOME" ∷ "USER" ∷ "HOSTNAME" ∷ []

unfoldable pub is_protected : String → Bool
is_protected name = contains protected_names name

-- arg.split("=", 1), if there is a "="
unfoldable pub split_once : ℕ → String → Option (String × String)
split_once k String.[] = none
split_once k (String.◌∷◌ c s) =
    let rest = split_once k s in
    if nat_beq (code c) k
    then some (String.[], s)
    else elim rest [ none ↦ none | some (key, val) ↦ some (String.◌∷◌ c key, val) ]

unfoldable pub export_all : List String → Dict String String → Dict String String
export_all [] env = env
export_all (arg ∷ rest) env = elim (split_once b'=' arg) [
  | none ↦ export_all rest env
  | some (key, val) ↦
      let set = export_all rest (Dict.put env key val) in
      let kept = export_all rest env in if is_protected key then kept else set
]

unfoldable pub unset_all : List String → Dict String String → Dict String String
unset_all [] env = env
unset_all (arg ∷ rest) env =
    let popped = unset_all rest (Dict.remove env arg) in
    let kept = unset_all rest env in if is_protected arg then kept else popped

abbrev env_lines : Dict String String → String
env_lines [] = ""
env_lines ((k, v) ∷ rest) = concat k (concat "=" (concat v (concat "\n" (env_lines rest))))

abbrev spaced : List String → String
spaced [] = ""
spaced (arg ∷ []) = arg
spaced (arg ∷ next ∷ rest) = concat arg (concat " " (spaced (next ∷ rest)))

abbrev line_of : String → Result Outcome
line_of text = ok (0, encode (concat text "\n"), [])

-- args[0] if args else default
abbrev first_or : String → List String → String
first_or default [] = default
first_or default (arg ∷ rest) = arg

-- self.env.env[name], or KeyError
abbrev variable : SessionEnvironment → String → Result String
variable e name = elim (Dict.get e.env name) [ none ↦ err key_error | some v ↦ ok v ]

-- The directory at `path` becomes the current one.
unfoldable pub entered : String → String → SessionEnvironment → SessionEnvironment
entered pwd path e = record e {
  cwd = path;
  env = Dict.put (Dict.put e.env "OLDPWD" pwd) "PWD" path;
}

module _ (islink isdir : List String → Bool) (strerror : Errno → String)
    (others : String → Option (List String → Bytes → SessionEnvironment → Result Outcome)) where
  -- `_handle_cd`, where HOME and PWD are set.
  unfoldable pub handle_cd : List String → SessionEnvironment → Result Outcome × SessionEnvironment
  handle_cd args e =
      let pwd = get_or "" (Dict.get e.env "PWD") in
      let target = first_or (get_or "" (Dict.get e.env "HOME")) args in
      let path = normpath (if has_prefix "/" target then target else join_path pwd target) in
      elim (resolve_path islink e target) [
        | err x ↦ (err x, e)
        | ok real ↦ if isdir real then (ok (0, [], []), entered pwd path e) else (
          ok (1, [], encode (concat "bash: cd: " (concat target ": No such file or directory\n"))),
          e,
        )
      ]

  -- `self.handlers[cmd](args, stdin)` for the commands modelled here; `others` are the other
  -- handlers, which read the environment and do not change it.
  unfoldable pub run_handler :
      String
      → List String
      → Bytes
      → SessionEnvironment
      → Option (Result Outcome × SessionEnvironment)
  run_handler cmd args stdin e =
      if cmd == "cd"
      then some (handle_cd args e)
      else if cmd == "pwd"
      then some (variable e "PWD" >>= line_of, e)
      else if cmd == "export"
      then some (ok (0, [], []), record e { env = export_all args e.env })
      else if cmd == "env" || cmd == "printenv"
      then some (ok (0, encode (env_lines e.env), []), e)
      else if cmd == "unset"
      then some (ok (0, [], []), record e { env = unset_all args e.env })
      else if cmd == "echo"
      then some (line_of (spaced args), e)
      else if cmd == "whoami"
      then some (variable e "USER" >>= line_of, e)
      else if cmd == "hostname"
      then some (variable e "HOSTNAME" >>= line_of, e)
      else elim (others cmd) [ none ↦ none | some run ↦ some (run args stdin e, e) ]

  abbrev pub blocked : List String
  blocked =
      "bash" ∷ "sh" ∷ "python" ∷ "python3" ∷ "perl" ∷ "curl" ∷ "wget" ∷ "nc" ∷ "netcat" ∷ "socat"
      ∷ "ruby" ∷ "php" ∷ []

  unfoldable pub is_blocked : String → Bool
  is_blocked cmd = contains blocked cmd

  abbrev not_found : String → Outcome
  not_found cmd = (127, [], encode (concat "bash: " (concat cmd ": command not found\n")))

  -- What `handle` makes of a handler's result. KeyError and RuntimeError are of the exceptions that
  -- become an input/output error.
  unfoldable pub bounded_outcome : String → Result Outcome → Outcome
  bounded_outcome cmd (ok (code, out, errors)) =
      if ltb max_io_bytes (length out + length errors)
      then (1, [], encode "bash: output limit exceeded\n")
      else (code, out, errors)
  bounded_outcome cmd (err key_error) = (1, [], encode (concat cmd ": Input/output error\n"))
  bounded_outcome cmd (err runtime_error) = (1, [], encode (concat cmd ": Input/output error\n"))
  bounded_outcome cmd (err x) =
      (1, [], encode (concat cmd (concat ": " (concat (strerror x) "\n"))))

  unfoldable pub handle :
      String → List String → Bytes → SessionEnvironment → Outcome × SessionEnvironment
  handle cmd args stdin e =
      if is_blocked cmd then (not_found cmd, e) else elim (run_handler cmd args stdin e) [
        | none ↦ (not_found cmd, e)
        | some (result, e') ↦ (bounded_outcome cmd result, e')
      ]

-- ===== src/Gateway/Environment/Tests.antt =====
-- Paths and commands of one session, and instances of the theorems.
use apate.Prelude.{
  same_text, concat, size, has_prefix, has_suffix, String, ◌≡◌, refl, ◌⊎◌, Bool, true, false,
  Option, none, some, List, [], ◌∷◌, nat_eq, string_eq, has_code, is_empty, split,
}
use apate.Dict
use apate.Dict.{Dict}
use apate.Core.Errno.{Errno, Result, ok}
use apate.Core.Content.{Bytes}
use apate.Gateway.Environment.{
  SessionEnvironment, encode, without_last, push_part, normal_parts, normpath, join_path,
  meets_link, is_below, resolve_path, Outcome, is_protected, split_once, export_all, unset_all,
  entered, handle_cd, run_handler, is_blocked, bounded_outcome, handle,
}
use apate.Gateway.Environment.Variables.{handle-protects}

abbrev session : SessionEnvironment
session = record {
  honeypot_root = "mnt" ∷ "honeypot" ∷ [];
  cwd = "/home/ubuntu";
  username = "ubuntu";
  env =
      ("HOME", "/home/ubuntu")
      ∷ ("USER", "ubuntu")
      ∷ ("PWD", "/home/ubuntu")
      ∷ ("OLDPWD", "/home/ubuntu")
      ∷ [];
}

abbrev unset_command : String
unset_command = "unset"

abbrev home : String
home = "HOME"

abbrev no_links : List String → Bool
no_links path = false

abbrev all_directories : List String → Bool
all_directories path = true

message : Errno → String
message e = "error"

no_others : String → Option (List String → Bytes → SessionEnvironment → Result Outcome)
no_others cmd = none

abbrev target_of : String → Result (List String)
unfolding resolve_path normal_parts push_part without_last join_path normpath meets_link is_below
    handle run_handler handle_cd entered export_all unset_all is_protected split_once is_blocked
    bounded_outcome encode concat split has_prefix has_suffix same_text has_code size is_empty
    Dict.get Dict.put Dict.remove no_others message
target_of path = resolve_path no_links session path

escape : target_of "../../../etc/./passwd" ≡ ok ("mnt" ∷ "honeypot" ∷ "etc" ∷ "passwd" ∷ [])
unfolding target_of
escape = refl

up_then_pwd :
    (handle no_links all_directories message no_others "cd" (".." ∷ []) [] session).1.cwd ≡ "/home"
unfolding target_of
up_then_pwd = refl

handle-protects_example :
    let e' =
      (handle no_links all_directories message no_others "unset"
        ("HOME" ∷ "PWD" ∷ [])
        []
        session).1 in
    (Dict.get e'.env "PWD" ≡ some e'.cwd)
    × ((Dict.get e'.env "HOME" ≡ Dict.get session.env "HOME")
        ⊎ ((unset_command ≡ "cd") × ((home ≡ "PWD") ⊎ (home ≡ "OLDPWD"))))
unfolding target_of
handle-protects_example =
    handle-protects no_links all_directories message no_others "unset" ("HOME" ∷ "PWD" ∷ []) []
      session "HOME" refl refl

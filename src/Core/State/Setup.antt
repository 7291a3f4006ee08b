-- ===== src/Core/State/Setup.antt =====
-- src/chronos/core/state.py, `_initialize_filesystem`: a session's tree is made from the profile's
-- manifest, and an interrupted making is resumed. A namespace that holds nothing is the one of an
-- empty Redis, where a counter that is not set reads as 0. The modes of the manifest are below
-- 0o10000, so that `|` with the file type adds.
pub mod Sound
pub mod Placed
pub mod Manifest
pub mod Tests
use apate.Prelude.{
  rsplit, rstrip, concat, size, has_prefix, ℕ, ◌+◌, ◌/◌, String, Bool, true, false, ◌||◌, Option,
  none, some, List, [], ◌∷◌, ltb, nat_beq, if◌then◌else◌, ◌==◌, nat_eq, string_eq, get_or, is_some,
  length, contains, is_empty, split, pos,
}
use apate.Core.Errno.{eexist, Errno, Result, ok, err}
use apate.Core.Namespace.{Inode, no_fields, Namespace, inode, hset, zadd}
use apate.Core.State.{create_file, make_directory, resolve_path_sync}

-- An entry of the manifest, with the defaults of `type` ("file") and `class` ("static").
pub record ManifestEntry : Type 0 where
  pub path : String
  pub is_directory : Bool
  pub entry_class : String
  pub uid : Option ℕ
  pub gid : Option ℕ
  pub mode : Option ℕ

abbrev pub empty_namespace : Namespace
empty_namespace = record {
  initialized = false;
  next_inode = 0;
  inodes = [];
  dirs = [];
  blobs = [];
  generating = [];
  bytes_allocated = 0;
}

-- What ends the making: a manifest without the parent, or an exception of a script.
pub data SetupError : Type 0 where
  missing_parent : String → SetupError
  raised : Errno → SetupError

abbrev pub root_fields : ℕ → Inode
root_fields timestamp = record no_fields {
  mode = some 16877;
  uid = some 0;
  gid = some 0;
  size = some 4096;
  ctime = some timestamp;
  mtime = some timestamp;
  atime = some timestamp;
  nlink = some (pos 2);
}

-- SET fs:next_inode 1 NX
unfoldable pub set_counter : Namespace → Namespace
set_counter s = if nat_beq s.next_inode 0 then record s { next_inode = 1 } else s

-- The root's inode and its own entries.
unfoldable pub make_root : ℕ → Namespace → Namespace
make_root timestamp s =
    let counted = set_counter s in
    let rooted =
      if is_some (inode counted 1) then counted else hset counted 1 (λ _. root_fields timestamp) in
    zadd (zadd rooted 1 "." 1) 1 ".." 1

-- os.path.dirname and os.path.basename
unfoldable pub dirname : String → String
dirname path = elim (rsplit b'/' path) [
  | none ↦ ""
  | some (before, last) ↦
      let head = rstrip b'/' before in if is_empty head then concat before "/" else head
]

unfoldable pub basename : String → String
basename path = elim (rsplit b'/' path) [ none ↦ path | some (before, last) ↦ last ]

-- sorted(entries, key=lambda x: len(x["path"].split("/"))), which is stable.
unfoldable pub depth : ManifestEntry → ℕ
depth entry = length (split b'/' entry.path)

unfoldable pub insert_by_depth : ManifestEntry → List ManifestEntry → List ManifestEntry
insert_by_depth entry [] = entry ∷ []
insert_by_depth entry (first ∷ rest) =
    if ltb (depth first) (depth entry)
    then first ∷ insert_by_depth entry rest
    else entry ∷ first ∷ rest

unfoldable pub sort_by_depth : List ManifestEntry → List ManifestEntry
sort_by_depth [] = []
sort_by_depth (entry ∷ entries) = insert_by_depth entry (sort_by_depth entries)

-- HSETNX
unfoldable pub keep_or : String → Option String → Option String
keep_or v none = some v
keep_or v (some old) = some old

unfoldable pub classify : String → Inode → Inode
classify entry_class meta = record meta {
  content_state =
      keep_or
        (if contains ("ai_backed" ∷ "deterministic" ∷ []) entry_class then "missing" else "static")
        meta.content_state;
  manifest_class = keep_or entry_class meta.manifest_class;
}

unfoldable pub default_mode : String → ManifestEntry → ℕ
default_mode user_home entry =
    if entry.path == "/tmp"
    then 1023
    else if entry.path == "/root" || entry.path == concat user_home "/.ssh"
    then 448
    else if entry.is_directory
    then 493
    else 420

-- Ownership and mode, which are written each time.
unfoldable pub owned_by_profile : String → ManifestEntry → Inode → Inode
owned_by_profile primary_user entry meta =
    let user_home = concat "/home/" primary_user in
    let user_owned = entry.path == user_home || has_prefix (concat user_home "/") entry.path in
    let owner = if user_owned then 1000 else 0 in
    record meta {
      uid = some (get_or owner entry.uid);
      gid = some (get_or owner entry.gid);
      mode = some (
          (if entry.is_directory then 16384 else 32768)
          + get_or (default_mode user_home entry) entry.mode);
    }

-- The inode of a creation that succeeds, or of what is at the path already.
unfoldable pub created_or_there : String → Result ℕ × Namespace → Result (Option ℕ) × Namespace
created_or_there path (ok i, s) = (ok (some i), s)
created_or_there path (err eexist, s) = (ok (resolve_path_sync s path), s)
created_or_there path (err e, s) = (err e, s)

-- HSET fs:inode:<inode>, where `fs:inode:None` is no key of the tree.
unfoldable pub hset_found : Option ℕ → (Inode → Inode) → Namespace → Namespace
hset_found none f s = s
hset_found (some i) f s = hset s i f

-- The classification, ownership and mode, once there is an inode.
unfoldable pub settle :
    String → ManifestEntry → Result (Option ℕ) × Namespace → Option SetupError × Namespace
settle primary_user entry (err e, s) = (some (raised e), s)
settle primary_user entry (ok i, s) =
    let classified =
      if entry.is_directory then s else hset_found i (classify entry.entry_class) s in
    (none, hset_found i (owned_by_profile primary_user entry) classified)

-- An entry of the manifest, other than the root, with its parent's inode.
unfoldable pub make_entry :
    String → ℕ → ManifestEntry → ℕ → Namespace → Option SetupError × Namespace
make_entry primary_user timestamp entry parent s =
    let name = basename entry.path in
    let made =
      if entry.is_directory
      then make_directory parent name 16877 timestamp s
      else create_file parent name 33188 timestamp s in
    settle primary_user entry (created_or_there entry.path made)

-- The loop over the entries. A resolved inode of 0 would count as missing, and is never given.
unfoldable pub make_entries :
    String → ℕ → List ManifestEntry → Namespace → Option SetupError × Namespace
make_entries primary_user timestamp [] s = (none, s)
make_entries primary_user timestamp (entry ∷ entries) s =
    if entry.path == "/"
    then make_entries primary_user timestamp entries s
    else elim (resolve_path_sync s (dirname entry.path)) [
      | none ↦ (some (missing_parent entry.path), s)
      | some parent ↦
          let (stopped, s') = make_entry primary_user timestamp entry parent s in
          elim stopped [
            | some e ↦ (some e, s')
            | none ↦ make_entries primary_user timestamp entries s'
          ]
    ]

-- `_initialize_filesystem`
unfoldable pub initialize_filesystem :
    String → List ManifestEntry → ℕ → Namespace → Option SetupError × Namespace
initialize_filesystem primary_user manifest timestamp s =
    if s.initialized
    then (none, s)
    else (let (stopped, s') =
          make_entries primary_user timestamp (sort_by_depth manifest) (make_root timestamp s) in
        elim stopped [ some e ↦ (some e, s') | none ↦ (none, record s' { initialized = true }) ])

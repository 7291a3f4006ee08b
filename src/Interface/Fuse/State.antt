-- ===== src/Interface/Fuse/State.antt =====
-- src/chronos/interface/fuse.py: what the callbacks keep, and their helpers.
use apate.Prelude.{
  ◌||◌, ◌==◌, get_or, pos, size, ℕ, ◌%◌, String, not, Option, none, some, List, [], ◌∷◌, ◌++◌,
  if◌then◌else◌, nat_eq, string_eq, take, drop, select, is_empty, split, ℤ,
}
use apate.Dict
use apate.Dict.{Dict}
use apate.Core.Errno.{key_error, ◌>>=◌, enoent, eacces, Result, ok, err}
use apate.Core.Action.{Action}
use apate.Core.Namespace.{inode, Inode, Namespace}
use apate.Core.State.{walk, resolve_path_sync}
use apate.Core.Content.{Bytes}

-- The caller of a callback, as fuse_get_context has it, and the time.
pub record Context : Type 0 where
  pub uid : ℕ
  pub gid : ℕ
  pub pid : ℕ
  pub now : ℕ

pub record FdEntry : Type 0 where
  pub session_id : String
  pub inode : ℕ
  pub open_time : ℕ
  pub flags : ℕ
  pub path : String

-- The events that are published, and the operations that are audited.
pub data WorldEvent : Type 0 where
  file_created file_deleted file_modified : String → String → WorldEvent

pub record Audited : Type 0 where
  pub session_id : String
  pub operation : String
  pub path : String
  pub inode : ℕ

pub record ChronosFuse : Type 0 where
  pub session_pids : Dict ℕ String
  pub sessions : Dict String Namespace
  pub fd_table : Dict ℕ FdEntry
  pub next_fd : ℕ
  pub published : List WorldEvent
  pub audited : List Audited

abbrev pub Callback : Type 0 → Type 0
Callback A = Action ChronosFuse A

-- A call of the kernel, with the disturbances of its update.
pub data Request : Type 0 where
  mkdir_call create_call chmod_call : String → ℕ → Request
  rmdir_call unlink_call : String → Request
  open_call : String → ℕ → Request
  getattr_call readdir_call : String → Request
  read_call : String → ℕ → ℕ → ℕ → Request
  write_call : String → Bytes → ℤ → ℕ → List Namespace → Request
  chown_call : String → Option ℕ → Option ℕ → Request
  truncate_call : String → ℤ → List Namespace → Request
  utimens_call : String → ℕ → ℕ → Request
  release_call : ℕ → Request

-- all but the last, and the last
abbrev pub but_last : List String → List String
but_last [] = []
but_last (x ∷ []) = []
but_last (x ∷ y ∷ rest) = x ∷ but_last (y ∷ rest)

abbrev pub last_of : List String → String
last_of [] = ""
last_of (x ∷ []) = x
last_of (x ∷ y ∷ rest) = last_of (y ∷ rest)

-- `_resolve_path`
unfoldable pub resolve_inode : String → Namespace → Result ℕ
resolve_inode path n = elim (resolve_path_sync n path) [ none ↦ err enoent | some i ↦ ok i ]

-- `_get_parent_and_name`
unfoldable pub parent_and_name : String → Namespace → Result (ℕ × String)
parent_and_name path n =
    let pieces = split b'/' path in
    elim (walk n 1 (select (λ p. not (is_empty p)) (but_last pieces))) [
      | none ↦ err enoent
      | some i ↦ ok (i, last_of pieces)
    ]

-- `_get_inode_meta`
unfoldable pub inode_meta : ℕ → Namespace → Result Inode
inode_meta i n = elim (inode n i) [ none ↦ err enoent | some meta ↦ ok meta ]

-- What `getattr` reports.
pub record Attributes : Type 0 where
  pub st_ino : ℕ
  pub st_mode : ℕ
  pub st_nlink : ℤ
  pub st_uid : ℕ
  pub st_gid : ℕ
  pub st_size : ℕ
  pub st_ctime : ℕ
  pub st_mtime : ℕ
  pub st_atime : ℕ

abbrev field : {A : Type 0} → Option A → Result A
field none = err key_error
field (some a) = ok a

unfoldable pub attributes : ℕ → Inode → Result Attributes
attributes i meta = field meta.mode >>= λ mode. field meta.uid >>= λ uid. field meta.gid >>= λ gid.
    field meta.size >>= λ bytes. ok (record {
      st_ino = i;
      st_mode = mode;
      st_nlink = get_or (pos 1) meta.nlink;
      st_uid = uid;
      st_gid = gid;
      st_size = bytes;
      st_ctime = get_or 0 meta.ctime;
      st_mtime = get_or 0 meta.mtime;
      st_atime = get_or 0 meta.atime;
    })

-- What the root reports to a process without a session.
abbrev pub mount_root : Attributes
mount_root = record {
  st_ino = 1;
  st_mode = 16877;
  st_nlink = pos 2;
  st_uid = 0;
  st_gid = 0;
  st_size = 4096;
  st_ctime = 0;
  st_mtime = 0;
  st_atime = 0;
}

-- [".", ".."] + [name for name in files if name not in (".", "..")]
unfoldable pub listing : List String → List String
listing files = "." ∷ ".." ∷ select (λ name. not (name == "." || name == "..")) files

-- `_current_session_id`
unfoldable pub current_session : Context → Callback String
current_session c f = elim (Dict.get f.session_pids c.pid) [
  | none ↦ (err eacces, f)
  | some id ↦ if is_empty id then (err eacces, f) else (ok id, f)
]

unfoldable pub publish : WorldEvent → Callback (Unit {0})
publish e f = (ok tt, record f { published = f.published ++ e ∷ [] })

abbrev pub mode_bits : ℕ → ℕ
mode_bits mode = mode % 4096

-- HSET of `uid` and `gid`
abbrev pub owned : Option ℕ → Option ℕ → Inode → Inode
owned uid gid h = record h {
  uid = elim uid [ none ↦ h.uid | some u ↦ some u ];
  gid = elim gid [ none ↦ h.gid | some g ↦ some g ];
}

-- data[offset:offset + size]
abbrev pub slice : ℕ → ℕ → Bytes → Bytes
slice offset size bytes = take size (drop offset bytes)

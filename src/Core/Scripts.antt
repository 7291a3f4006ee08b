-- ===== src/Core/Scripts.antt =====
-- src/chronos/core/lua/*.lua: the scripts that change the directory tree. Redis runs a script
-- without interruption, so each is one step on the namespace.
pub mod Tree
pub mod Replies
pub mod Fresh
pub mod Tests
use apate.Prelude.{
  ℕ, suc, String, Bool, not, ◌||◌, Option, none, some, List, [], ◌∷◌, ltb, leb, if◌then◌else◌, ◌==◌,
  get_or, has_code, pos, incr, decr, is_positive, nat_eq, string_eq,
}
use apate.Core.Errno.{Errno, einval, enotdir, eisdir, enospc}
use apate.Core.Namespace.{
  no_fields, inode, hset, del_inode, zscore, zadd, zrem, zcard, del_dir, incr_inode, mode_of,
  is_dir, Inode, Namespace,
}

-- What a script returns: an inode number, -1, -2, or an error reply.
pub data Reply : Type 0 where
  number : ℕ → Reply
  minus_one minus_two : Reply
  error_reply : Errno → Reply

-- filename == '.' or filename == '..' or filename == '' or string.find(filename, '/', 1, true)
unfoldable pub bad_name : String → Bool
bad_name name = name == "." || name == ".." || name == "" || has_code b'/' name

abbrev pub max_inodes : ℕ
max_inodes = 10000

-- HSET fs:inode:<parent> mtime <t> ctime <t>
abbrev pub touch : ℕ → Inode → Inode
touch t h = record h { mtime = some t; ctime = some t }

abbrev pub add_link : Inode → Inode
add_link h = record h { nlink = some (incr (get_or (pos 0) h.nlink)) }

abbrev pub drop_link : Inode → Inode
drop_link h = record h { nlink = some (decr (get_or (pos 0) h.nlink)) }

-- The fields that a new file or directory is given.
abbrev pub fresh_fields : ℕ → ℕ → ℕ → ℕ → Inode → Inode
fresh_fields mode size links t h = record h {
  mode = some mode;
  uid = some 0;
  gid = some 0;
  size = some size;
  ctime = some t;
  mtime = some t;
  atime = some t;
  nlink = some (pos links);
}

-- The checks that open every script.
unfoldable pub refusal : Namespace → ℕ → String → Option Errno
refusal s parent name =
    if bad_name name
    then some einval
    else if not (is_dir (mode_of s parent))
    then some enotdir
    else none

-- The writes of atomic_create.lua, once its checks have passed.
unfoldable pub add_file : ℕ → String → ℕ → ℕ → Namespace → Namespace
add_file parent name mode t s =
    let i = suc s.next_inode in
    let s1 = hset (incr_inode s) i (fresh_fields mode 0 1 t) in
    hset (zadd s1 parent name i) parent (touch t)

unfoldable pub atomic_create : ℕ → String → ℕ → ℕ → Namespace → Reply × Namespace
atomic_create parent name mode t s = elim (refusal s parent name) [
  | some e ↦ (error_reply e, s)
  | none ↦ elim (zscore s parent name) [
    | some i ↦ (minus_one, s)
    | none ↦
        if leb max_inodes s.next_inode
        then (error_reply enospc, s)
        else (number (suc s.next_inode), add_file parent name mode t s)
  ]
]

-- The writes of atomic_mkdir.lua.
unfoldable pub add_directory : ℕ → String → ℕ → ℕ → Namespace → Namespace
add_directory parent name mode t s =
    let i = suc s.next_inode in
    let s1 = hset (incr_inode s) i (fresh_fields mode 4096 2 t) in
    let s2 = zadd (zadd (zadd s1 parent name i) i "." i) i ".." parent in
    hset (hset s2 parent add_link) parent (touch t)

unfoldable pub atomic_mkdir : ℕ → String → ℕ → ℕ → Namespace → Reply × Namespace
atomic_mkdir parent name mode t s = elim (refusal s parent name) [
  | some e ↦ (error_reply e, s)
  | none ↦ elim (zscore s parent name) [
    | some i ↦ (minus_one, s)
    | none ↦
        if leb max_inodes s.next_inode
        then (error_reply enospc, s)
        else (number (suc s.next_inode), add_directory parent name mode t s)
  ]
]

-- The inode goes when its link count falls to 0 or below; its blob stays.
unfoldable pub release_inode : ℕ → Namespace → Namespace
release_inode i s =
    if is_positive (get_or (pos 0) (get_or no_fields (inode s i)).nlink)
    then s
    else del_dir (del_inode s i) i

-- The writes of atomic_unlink.lua.
unfoldable pub drop_file : ℕ → String → ℕ → ℕ → Namespace → Namespace
drop_file parent name i now s =
    hset (release_inode i (hset (zrem s parent name) i drop_link)) parent (touch now)

unfoldable pub atomic_unlink : ℕ → String → ℕ → Namespace → Reply × Namespace
atomic_unlink parent name now s = elim (refusal s parent name) [
  | some e ↦ (error_reply e, s)
  | none ↦ elim (zscore s parent name) [
    | none ↦ (minus_one, s)
    | some i ↦
        if is_dir (mode_of s i)
        then (error_reply eisdir, s)
        else (number i, drop_file parent name i now s)
  ]
]

-- The writes of atomic_rmdir.lua.
unfoldable pub drop_directory : ℕ → String → ℕ → ℕ → Namespace → Namespace
drop_directory parent name i now s =
    let s1 = del_dir (del_inode (zrem s parent name) i) i in
    hset (hset s1 parent drop_link) parent (touch now)

unfoldable pub atomic_rmdir : ℕ → String → ℕ → Namespace → Reply × Namespace
atomic_rmdir parent name now s = elim (refusal s parent name) [
  | some e ↦ (error_reply e, s)
  | none ↦ elim (zscore s parent name) [
    | none ↦ (minus_one, s)
    | some i ↦
        if not (is_dir (mode_of s i))
        then (error_reply enotdir, s)
        else if ltb 2 (zcard s i)
        then (minus_two, s)
        else (number i, drop_directory parent name i now s)
  ]
]

-- A call of one of the scripts, and a run of several, by any clients in any order.
pub data Call : Type 0 where
  creates mkdirs : ℕ → String → ℕ → ℕ → Call
  unlinks rmdirs : ℕ → String → ℕ → Call

unfoldable pub step : Call → Namespace → Reply × Namespace
step (creates parent name mode t) = atomic_create parent name mode t
step (mkdirs parent name mode t) = atomic_mkdir parent name mode t
step (unlinks parent name now) = atomic_unlink parent name now
step (rmdirs parent name now) = atomic_rmdir parent name now

unfoldable pub run : List Call → Namespace → Namespace
run [] s = s
run (c ∷ cs) s = run cs (step c s).1

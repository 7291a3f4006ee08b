-- ===== src/Core/Content.antt =====
-- src/chronos/core/content.py: bounded updates of a file's bytes under Redis' optimistic locking.
-- A file's bytes are numbers below 256. `digest` stands for hashlib.sha256(...).hexdigest().
pub mod Splice
pub mod Update
pub mod Tests
use apate.Prelude.{
  ℕ, zero, suc, ◌+◌, ◌-◌, String, not, Option, none, some, List, [], ◌∷◌, ◌++◌, ltb, if◌then◌else◌,
  nat_eq, string_eq, get_or, length, take, drop, replicate, is_empty, ℤ, pos, negsuc,
}
use apate.Dict
use apate.Core.Errno.{
  Errno, Result, ok, err, key_error, einval, efbig, enoent, eisdir, eio, enospc, eagain, ◌>>=◌,
}
use apate.Core.Namespace.{Inode, Namespace, inode, hset, is_reg}

abbrev pub Bytes : Type 0
Bytes = List ℕ

abbrev pub max_file_bytes : ℕ
max_file_bytes = 1048576

abbrev pub max_session_blob_bytes : ℕ
max_session_blob_bytes = 16777216

unfoldable pub read_blob : Namespace → String → Result Bytes
read_blob s digest = elim (Dict.get s.blobs digest) [ none ↦ err eio | some value ↦ ok value ]

-- `write buf offset` is `mutate_content(…, buf=buf, offset=offset)`, `truncate length` is
-- `mutate_content(…, length=length)`.
pub data Change : Type 0 where
  write : Bytes → ℤ → Change
  truncate : ℤ → Change

-- old.ljust(n, b"\0")
unfoldable pub ljust : Bytes → ℕ → Bytes
ljust old n = old ++ replicate (n - length old) 0

-- The new bytes, for an offset or a length that is not negative.
unfoldable pub splice : Bytes → ℕ → Bytes → Bytes
splice buf offset old =
    let padded = ljust old offset in
    take offset padded ++ (buf ++ drop (offset + length buf) padded)

unfoldable pub resized : ℕ → Bytes → Bytes
resized n old = ljust (take n old) n

-- The checks before the first round: EINVAL, then EFBIG. What passes is the edit of the bytes.
unfoldable pub edit : Change → Result (Bytes → Bytes)
edit (write buf (negsuc _)) = err einval
edit (write buf (pos offset)) =
    if ltb max_file_bytes (offset + length buf) then err efbig else ok (splice buf offset)
edit (truncate (negsuc _)) = err einval
edit (truncate (pos n)) = if ltb max_file_bytes n then err efbig else ok (resized n)

module _ (digest : Bytes → String) where
  -- `meta["content_hash"]` counts only if it is not empty.
  unfoldable pub stored : Namespace → Option String → Result Bytes
  stored s none = ok []
  stored s (some hash) = if is_empty hash then ok [] else read_blob s hash

  unfoldable pub written_fields : Bytes → ℕ → Inode → Inode
  written_fields content now meta = record meta {
    content_hash = some (digest content);
    size = some (length content);
    mtime = some now;
    content_state = some "written";
    revision = some (suc (get_or 0 meta.revision));
  }

  -- The queued commands, from `pipe.multi()` to `pipe.execute()`.
  unfoldable pub execute_write : ℕ → Bytes → ℕ → Namespace → Namespace
  execute_write i content now s =
      hset
        (record s {
          bytes_allocated = s.bytes_allocated + length content;
          blobs = Dict.put s.blobs (digest content) content;
          generating = Dict.remove s.generating i;
        })
        i (written_fields content now)

  -- One round's reads and checks: the bytes to write.
  unfoldable pub new_content : ℕ → (Bytes → Bytes) → Namespace → Result Bytes
  new_content i f s = elim (inode s i) [
    | none ↦ err enoent
    | some meta ↦ elim meta.mode [
      | none ↦ err key_error
      | some mode ↦ if not (is_reg mode) then err eisdir else do
        old ← stored s meta.content_hash
        if ltb max_session_blob_bytes (s.bytes_allocated + length (f old))
            then err enospc
            else ok (f old)
    ]
  ]

  -- The rounds. An entry of `races` is the namespace that another client's write to a watched key
  -- leaves between a round's reads and its commit: the commit fails with WatchError and the next
  -- round begins there. After the last entry no round is disturbed.
  unfoldable pub rounds :
      ℕ → ℕ → (Bytes → Bytes) → ℕ → List Namespace → Namespace → Result (Unit {0}) × Namespace
  rounds zero i f now races s = (err eagain, s)
  rounds (suc left) i f now [] s = elim (new_content i f s) [
    | err e ↦ (err e, s)
    | ok content ↦ (ok tt, execute_write i content now s)
  ]
  rounds (suc left) i f now (s' ∷ races) s =
      let retry = rounds left i f now races s' in
      elim (new_content i f s) [ err e ↦ (err e, s) | ok content ↦ retry ]

  unfoldable pub mutate_content :
      ℕ → Change → ℕ → List Namespace → Namespace → Result (Unit {0}) × Namespace
  mutate_content i change now races s = elim (edit change) [
    | err e ↦ (err e, s)
    | ok f ↦ rounds 32 i f now races s
  ]

-- ===== src/Interface/Fuse.antt =====
-- src/chronos/interface/fuse.py: the FUSE callbacks, each run for the session that the calling
-- process belongs to. Session ids are canonical UUIDs; `fresh` is the namespace that
-- `initialize_filesystem` makes, `admits` says whether the audit spool takes one more event, and
-- `generate` is `get_or_generate` on the session's namespace. A callback runs without interruption.
mod State
pub mod Sessions
pub mod Isolation
pub mod Handles
pub mod Listing
pub mod Tests
unfoldable pub use State.*
use apate.Prelude.{
  ◌&&◌, size, ℕ, suc, ◌+◌, ◌%◌, String, Bool, true, false, not, Option, none, some, List, [], ◌∷◌,
  ◌++◌, if◌then◌else◌, ◌==◌, nat_eq, string_eq, get_or, length, take, drop, select, contains,
  is_empty, split, ℤ, ◌*◌, ◌/◌,
}
use apate.Dict
use apate.Dict.{Dict}
use apate.Core.Errno.{
  key_error, runtime_error, eexist, enoent, enotempty, eagain, eacces, ebadf, Result, ok, err,
  ◌>>=◌,
}
use apate.Core.Action.{Action, then_do, give}
use apate.Core.Namespace.{zrange, inode, Inode, Namespace, hset, type_bits}
use apate.Core.State.{
  create_file, make_directory, unlink_file, remove_directory, walk, resolve_path_sync,
}
use apate.Core.Content.{Bytes, read_blob, write, truncate, mutate_content}

module _ (fresh : Namespace) (admits : List Audited → Bool) (digest : Bytes → String)
    (generate : ℕ → String → Action Namespace (Option Bytes)) where
  unfoldable pub apply_in : {A : Type 0} → String → Action Namespace A → Callback A
  apply_in id act f =
      let (result, n) = act (get_or fresh (Dict.get f.sessions id)) in
      (result, record f { sessions = Dict.put f.sessions id n })

  -- What a callback does to the namespace of the caller's session, `self.redis` and `self.hv`.
  unfoldable pub in_session : {A : Type 0} → Context → Action Namespace A → Callback A
  in_session c act = then_do (current_session c) (λ id. apply_in id act)

  abbrev reads : {A : Type 0} → Context → (Namespace → Result A) → Callback A
  reads c look = in_session c (λ n. (look n, n))

  abbrev sets : Context → ℕ → (Inode → Inode) → Callback (Unit {0})
  sets c i change = in_session c (λ n. (ok tt, hset n i change))

  -- `_audit`
  unfoldable pub audit : String → String → String → ℕ → Callback (Unit {0})
  audit session operation path i f =
      let entry : Audited = record {
        session_id = session;
        operation = operation;
        path = path;
        inode = i;
      } in
      if admits f.audited
      then (ok tt, record f { audited = f.audited ++ entry ∷ [] })
      else (err runtime_error, f)

  unfoldable pub mkdir : Context → String → ℕ → Callback (Unit {0})
  mkdir c path mode = then_do (current_session c) (λ id.
      then_do (reads c (parent_and_name path)) (λ (at : ℕ × String).
        then_do (in_session c (make_directory at.0 at.1 (mode % 512 + 16384) c.now)) (λ i.
          then_do (sets c i (owned (some c.uid) (some c.gid))) (λ done.
            then_do (current_session c) (λ session. publish (file_created path session))))))

  -- The errors of `rmdir`: FileNotFoundError is ENOENT, any other OSError ENOTEMPTY.
  abbrev rmdir_error : Result ℕ → Result ℕ
  rmdir_error (ok i) = ok i
  rmdir_error (err key_error) = err key_error
  rmdir_error (err runtime_error) = err runtime_error
  rmdir_error (err enoent) = err enoent
  rmdir_error (err e) = err enotempty

  abbrev rmdir_entry : ℕ → String → ℕ → Action Namespace ℕ
  rmdir_entry parent name now n =
      let (result, n') = remove_directory parent name now n in (rmdir_error result, n')

  unfoldable pub rmdir : Context → String → Callback (Unit {0})
  rmdir c path = then_do (reads c (parent_and_name path)) (λ (at : ℕ × String).
      then_do (current_session c) (λ session.
        then_do (in_session c (rmdir_entry at.0 at.1 c.now))
          (λ i. publish (file_deleted path session))))

  unfoldable pub unlink : Context → String → Callback (Unit {0})
  unlink c path = then_do (reads c (parent_and_name path)) (λ (at : ℕ × String).
      then_do (current_session c) (λ session. then_do (reads c (resolve_inode path)) (λ i.
        then_do (audit session "unlink" path i) (λ done.
          then_do (in_session c (unlink_file at.0 at.1 c.now))
            (λ gone. publish (file_deleted path session))))))

  unfoldable pub enter_fd : Context → String → ℕ → String → ℕ → Callback ℕ
  enter_fd c path flags session i f = (
    ok f.next_fd,
    record f {
      next_fd = suc f.next_fd;
      fd_table = Dict.put f.fd_table f.next_fd (record {
        session_id = session;
        inode = i;
        open_time = c.now;
        flags = flags;
        path = path;
      });
    },
  )

  unfoldable pub open_path : Context → String → ℕ → Callback ℕ
  open_path c path flags =
      then_do (reads c (resolve_inode path))
        (λ i. then_do (current_session c) (λ session. enter_fd c path flags session i))

  -- FileExistsError is passed over: the existing file is opened.
  unfoldable pub create_entry : ℕ → String → ℕ → Context → Action Namespace Bool
  create_entry parent name mode c n =
      let (result, n') = create_file parent name (mode_bits mode + 32768) c.now n in
      elim result [
        | ok i ↦ (ok true, hset n' i (owned (some c.uid) (some c.gid)))
        | err eexist ↦ (ok false, n')
        | err e ↦ (err e, n')
      ]

  abbrev publish_if : Bool → WorldEvent → Callback (Unit {0})
  publish_if true e = publish e
  publish_if false e = give tt

  abbrev inode_of : ℕ → ChronosFuse → ℕ
  inode_of fd f = elim (Dict.get f.fd_table fd) [ none ↦ 0 | some entry ↦ entry.inode ]

  unfoldable pub create : Context → String → ℕ → Callback ℕ
  create c path mode = then_do (reads c (parent_and_name path)) (λ (at : ℕ × String).
      then_do (current_session c) (λ session.
        then_do (in_session c (create_entry at.0 at.1 mode c)) (λ created.
          then_do (publish_if created (file_created path session)) (λ done.
            then_do (open_path c path 0) (λ fd.
              then_do (λ f. audit session "create" path (inode_of fd f) f) (λ done. give fd))))))

  -- An entry of the table, if the caller's session opened it: EBADF, then EACCES.
  unfoldable pub checked : Context → Option FdEntry → Callback FdEntry
  checked c none f = (err ebadf, f)
  checked c (some entry) f =
      then_do (current_session c)
        (λ session s. if entry.session_id == session then (ok entry, s) else (err eacces, s)) f

  unfoldable pub own_handle : Context → ℕ → Callback FdEntry
  own_handle c fh f = checked c (Dict.get f.fd_table fh) f

  abbrev some_bytes : Option Bytes → Result Bytes
  some_bytes none = err eagain
  some_bytes (some bytes) = ok bytes

  -- The bytes of a file for `read`: cached, empty, or generated.
  unfoldable pub file_bytes : ℕ → String → Action Namespace Bytes
  file_bytes i path n = elim (inode n i) [
    | none ↦ (err enoent, n)
    | some meta ↦
        let hash = get_or "" meta.content_hash in
        let generates =
          contains ("ai_backed" ∷ "deterministic" ∷ []) (get_or "runtime" meta.manifest_class) in
        let (made, n') = generate i path n in
        if not (is_empty hash)
        then (read_blob n hash, n)
        else if generates
        then (made >>= some_bytes, n')
        else (ok [], n)
  ]

  unfoldable pub read : Context → String → ℕ → ℕ → ℕ → Callback Bytes
  read c path size offset fh = then_do (own_handle c fh) (λ entry.
      then_do (in_session c (file_bytes entry.inode path)) (λ bytes.
        then_do (audit entry.session_id "read" path entry.inode)
          (λ done. give (slice offset size bytes))))

  -- `races` are the disturbances by other writers of the same file, as in `mutate_content`.
  unfoldable pub write_bytes : Context → String → Bytes → ℤ → ℕ → List Namespace → Callback ℕ
  write_bytes c path buf offset fh races = then_do (own_handle c fh) (λ entry.
      then_do (audit entry.session_id "write_attempt" path entry.inode) (λ done.
        then_do (in_session c (mutate_content digest entry.inode (write buf offset) c.now races))
          (λ done. then_do (audit entry.session_id "write" path entry.inode) (λ done.
            then_do (publish (file_modified path entry.session_id)) (λ done. give (length buf))))))

  -- Publishing under a second reading of the session.
  abbrev publish_modified : Context → String → Callback (Unit {0})
  publish_modified c path =
      then_do (current_session c) (λ session. publish (file_modified path session))

  abbrev changed_mode : ℕ → Inode → Result ℕ
  changed_mode mode meta = elim meta.mode [
    | none ↦ err key_error
    | some old ↦ ok (type_bits old + mode_bits mode)
  ]

  unfoldable pub chmod : Context → String → ℕ → Callback (Unit {0})
  chmod c path mode = then_do (current_session c) (λ session.
      then_do (reads c (resolve_inode path)) (λ i.
        then_do (reads c (λ n. inode_meta i n >>= changed_mode mode)) (λ new.
          then_do (sets c i (λ h. record h { mode = some new }))
            (λ done. publish_modified c path))))

  abbrev change_owner : Context → String → Option ℕ → Option ℕ → ℕ → Callback (Unit {0})
  change_owner c path none none i = give tt
  change_owner c path uid gid i =
      then_do (sets c i (owned uid gid)) (λ done. publish_modified c path)

  -- An id of -1 is `none`.
  unfoldable pub chown : Context → String → Option ℕ → Option ℕ → Callback (Unit {0})
  chown c path uid gid =
      then_do (current_session c)
        (λ session. then_do (reads c (resolve_inode path)) (λ i. change_owner c path uid gid i))

  unfoldable pub truncate_file : Context → String → ℤ → List Namespace → Callback (Unit {0})
  truncate_file c path length races = then_do (current_session c) (λ session.
      then_do (reads c (resolve_inode path)) (λ i.
        then_do (in_session c (mutate_content digest i (truncate length) c.now races))
          (λ done. publish_modified c path)))

  unfoldable pub utimens : Context → String → ℕ → ℕ → Callback (Unit {0})
  utimens c path atime mtime = then_do (current_session c) (λ session.
      then_do (reads c (resolve_inode path))
        (λ i. sets c i (λ h. record h { atime = some atime; mtime = some mtime })))

  unfoldable pub release_fd : ℕ → Callback (Unit {0})
  release_fd fh f = (ok tt, record f { fd_table = Dict.remove f.fd_table fh })

  abbrev quiet : {A : Type 0} → Callback A → Callback (Unit {0})
  quiet act = then_do act (λ a. give tt)

  unfoldable pub getattr : Context → String → Callback Attributes
  getattr c path f =
      if path == "/" && is_empty (get_or "" (Dict.get f.session_pids c.pid))
      then (ok mount_root, f)
      else reads c (λ n. resolve_inode path n >>= λ i. inode_meta i n >>= attributes i) f

  unfoldable pub readdir : Context → String → Callback (List String)
  readdir c path = then_do (reads c (resolve_inode path)) (λ i.
      then_do (reads c (λ n. ok (zrange n i))) (λ files.
        then_do (current_session c)
          (λ session. then_do (audit session "readdir" path i) (λ done. give (listing files)))))

  -- Any of the callbacks, its value dropped.
  unfoldable pub perform : Context → Request → Callback (Unit {0})
  perform c (mkdir_call path mode) = mkdir c path mode
  perform c (create_call path mode) = quiet (create c path mode)
  perform c (chmod_call path mode) = chmod c path mode
  perform c (rmdir_call path) = rmdir c path
  perform c (unlink_call path) = unlink c path
  perform c (getattr_call path) = quiet (getattr c path)
  perform c (readdir_call path) = quiet (readdir c path)
  perform c (open_call path flags) = quiet (open_path c path flags)
  perform c (read_call path size offset fh) = quiet (read c path size offset fh)
  perform c (write_call path buf offset fh races) = quiet (write_bytes c path buf offset fh races)
  perform c (chown_call path uid gid) = chown c path uid gid
  perform c (truncate_call path length races) = truncate_file c path length races
  perform c (utimens_call path atime mtime) = utimens c path atime mtime
  perform c (release_call fh) = release_fd fh

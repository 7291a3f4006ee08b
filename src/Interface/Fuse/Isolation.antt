-- ===== src/Interface/Fuse/Isolation.antt =====
-- No callback reaches the namespace of a session that its caller does not belong to.
use apate.Prelude.{
  Bool-cases, inl, inr, is_empty, get_or, ◌&&◌, size, ℕ, String, ◌≡◌, refl, Bool, true, false,
  Option, none, some, List, nat_eq, string_eq, length, ℤ, arith, if◌then◌else◌, ◌==◌,
}
use apate.Dict
use apate.Dict.{Dict}
use apate.Core.Action.{Action, then_do}
use apate.Core.Namespace.{Namespace}
use apate.Core.Content.{Bytes}
use apate.Interface.Fuse.{
  getattr_call, readdir_call, getattr, readdir, eacces, err, ok, change_owner, inode_of, publish_if,
  quiet, Context, WorldEvent, Audited, ChronosFuse, Callback, Request, mkdir_call, create_call,
  chmod_call, rmdir_call, unlink_call, open_call, read_call, write_call, chown_call, truncate_call,
  utimens_call, release_call, current_session, in_session, audit, mkdir, rmdir, unlink, enter_fd,
  open_path, create, own_handle, read, write_bytes, chmod, chown, truncate_file, utimens,
  release_fd, perform, FdEntry, checked,
}
use apate.Interface.Fuse.Sessions.{
  IsForeign, Spares, then_do-Spares, give-Spares, current_session-Spares, publish-Spares,
  in_session-Spares, audit-Spares,
}

module _ (fresh : Namespace) (admits : List Audited → Bool) (digest : Bytes → String)
    (generate : ℕ → String → Action Namespace (Option Bytes)) (c : Context) (other : String) where
  after_session :
      {B : Type 0} (next : String → Callback B)
      → ((a : String) → Spares c other (next a))
      → Spares c other (then_do (current_session c) next)
  after_session next =
      then_do-Spares c other (current_session c) next (current_session-Spares c other)

  after_access :
      {A B : Type 0} (act : Action Namespace A) (next : A → Callback B)
      → ((a : A) → Spares c other (next a))
      → Spares c other (then_do (in_session fresh admits digest generate c act) next)
  after_access act next =
      then_do-Spares c other _ next (in_session-Spares fresh admits digest generate c other act)

  after_audit :
      {B : Type 0} (session operation path : String) (i : ℕ) (next : Unit {0} → Callback B)
      → ((a : Unit {0}) → Spares c other (next a))
      → Spares c other (then_do (audit fresh admits digest generate session operation path i) next)
  after_audit session operation path i next =
      then_do-Spares c other _ next
        (audit-Spares fresh admits digest generate c other session operation path i)

  quiet-Spares :
      {A : Type 0} (act : Callback A)
      → Spares c other act
      → Spares c other (quiet fresh admits digest generate act)
  quiet-Spares act spares = then_do-Spares c other act _ spares (λ a. give-Spares c other tt)

  access-Spares :
      {A : Type 0} (act : Action Namespace A)
      → Spares c other (in_session fresh admits digest generate c act)
  access-Spares act = in_session-Spares fresh admits digest generate c other act

  mkdir-Spares :
      (path : String) (mode : ℕ) → Spares c other (mkdir fresh admits digest generate c path mode)
  unfolding mkdir
  mkdir-Spares path mode = after_session _ (λ s. after_access _ _ (λ a.
      after_access _ _
        (λ a. after_access _ _ (λ a. after_session _ (λ s. publish-Spares c other _)))))

  rmdir-Spares : (path : String) → Spares c other (rmdir fresh admits digest generate c path)
  unfolding rmdir
  rmdir-Spares path =
      after_access _ _
        (λ a. after_session _ (λ s. after_access _ _ (λ a. publish-Spares c other _)))

  unlink-Spares : (path : String) → Spares c other (unlink fresh admits digest generate c path)
  unfolding unlink
  unlink-Spares path = after_access _ _ (λ a. after_session _ (λ s.
      after_access _ _
        (λ a. after_audit _ _ _ _ _ (λ t. after_access _ _ (λ a. publish-Spares c other _)))))

  getattr-Spares : (path : String) → Spares c other (getattr fresh admits digest generate c path)
  unfolding getattr
  getattr-Spares path = record {
    keeps = λ f foreign.
        elim (Bool-cases (path == "/" && is_empty (get_or "" (Dict.get f.session_pids c.pid)))) [
          | inl bare ↦ simp bare (refl, refl)
          | inr served ↦ simp served ((access-Spares _).keeps f foreign)
        ];
  }

  readdir-Spares : (path : String) → Spares c other (readdir fresh admits digest generate c path)
  unfolding readdir
  readdir-Spares path = after_access _ _ (λ i.
      after_access _ _
        (λ files. after_session _ (λ s. after_audit _ _ _ _ _ (λ t. give-Spares c other _))))

  enter_fd-Spares :
      (path : String) (flags : ℕ) (session : String) (i : ℕ)
      → Spares c other (enter_fd fresh admits digest generate c path flags session i)
  unfolding enter_fd
  enter_fd-Spares path flags session i = record { keeps = λ f foreign. (refl, refl) }

  open_path-Spares :
      (path : String) (flags : ℕ)
      → Spares c other (open_path fresh admits digest generate c path flags)
  unfolding open_path
  open_path-Spares path flags =
      after_access _ _ (λ a. after_session _ (λ s. enter_fd-Spares path flags s a))

  publish_if-Spares :
      (created : Bool) (e : WorldEvent)
      → Spares c other (publish_if fresh admits digest generate created e)
  publish_if-Spares true e = publish-Spares c other e
  publish_if-Spares false e = give-Spares c other tt

  create-Spares :
      (path : String) (mode : ℕ) → Spares c other (create fresh admits digest generate c path mode)
  unfolding create
  create-Spares path mode = after_access _ _ (λ at. after_session _ (λ s. after_access _ _ (λ made.
      then_do-Spares c other _ _ (publish_if-Spares made _) (λ t.
        then_do-Spares c other _ _ (open_path-Spares path 0) (λ fd.
          then_do-Spares c other _ _
            (record {
              keeps = λ f foreign.
                  (audit-Spares fresh admits digest generate c other s "create" path
                      (inode_of fresh admits digest generate fd f)).keeps
                    f foreign;
            })
            (λ t. give-Spares c other fd))))))

  owner-Spares :
      (entry : FdEntry)
      → Spares c other (
          then_do (current_session c) (λ (session : String) (s : ChronosFuse).
            if entry.session_id == session then (ok entry, s) else (err eacces, s)))
  owner-Spares entry =
      after_session _ (λ session. record { keeps = λ f foreign. (ground arith, ground arith) })

  checked-Spares :
      (entry : Option FdEntry) → Spares c other (checked fresh admits digest generate c entry)
  unfolding checked
  checked-Spares none = record { keeps = λ f foreign. (refl, refl) }
  checked-Spares (some entry) = record { keeps = λ f foreign. (owner-Spares entry).keeps f foreign }

  own_handle-Spares : (fh : ℕ) → Spares c other (own_handle fresh admits digest generate c fh)
  unfolding own_handle
  own_handle-Spares fh = record {
    keeps = λ f foreign. (checked-Spares (Dict.get f.fd_table fh)).keeps f foreign;
  }

  read-Spares :
      (path : String) (size : ℕ) (offset : ℕ) (fh : ℕ)
      → Spares c other (read fresh admits digest generate c path size offset fh)
  unfolding read
  read-Spares path size offset fh =
      then_do-Spares c other _ _ (own_handle-Spares fh)
        (λ e. after_access _ _ (λ a. after_audit _ _ _ _ _ (λ t. give-Spares c other _)))

  write_bytes-Spares :
      (path : String) (buf : Bytes) (offset : ℤ) (fh : ℕ) (races : List Namespace)
      → Spares c other (write_bytes fresh admits digest generate c path buf offset fh races)
  unfolding write_bytes
  write_bytes-Spares path buf offset fh races =
      then_do-Spares c other _ _ (own_handle-Spares fh) (λ e. after_audit _ _ _ _ _ (λ t.
        after_access _ _ (λ a. after_audit _ _ _ _ _ (λ t.
          then_do-Spares c other _ _ (publish-Spares c other _) (λ t. give-Spares c other _)))))

  chmod-Spares :
      (path : String) (mode : ℕ) → Spares c other (chmod fresh admits digest generate c path mode)
  unfolding chmod
  chmod-Spares path mode = after_session _ (λ s. after_access _ _ (λ a.
      after_access _ _
        (λ a. after_access _ _ (λ a. after_session _ (λ s. publish-Spares c other _)))))

  change_owner-Spares :
      (path : String) (uid gid : Option ℕ) (i : ℕ)
      → Spares c other (change_owner fresh admits digest generate c path uid gid i)
  change_owner-Spares path none none i = give-Spares c other tt
  change_owner-Spares path none (some g) i =
      after_access _ _ (λ a. after_session _ (λ s. publish-Spares c other _))
  change_owner-Spares path (some u) none i =
      after_access _ _ (λ a. after_session _ (λ s. publish-Spares c other _))
  change_owner-Spares path (some u) (some g) i =
      after_access _ _ (λ a. after_session _ (λ s. publish-Spares c other _))

  chown-Spares :
      (path : String) (uid : Option ℕ) (gid : Option ℕ)
      → Spares c other (chown fresh admits digest generate c path uid gid)
  unfolding chown
  chown-Spares path uid gid =
      after_session _ (λ s. after_access _ _ (λ a. change_owner-Spares path uid gid a))

  truncate_file-Spares :
      (path : String) (length : ℤ) (races : List Namespace)
      → Spares c other (truncate_file fresh admits digest generate c path length races)
  unfolding truncate_file
  truncate_file-Spares path length races = after_session _ (λ s.
      after_access _ _
        (λ a. after_access _ _ (λ a. after_session _ (λ s. publish-Spares c other _))))

  utimens-Spares :
      (path : String) (atime : ℕ) (mtime : ℕ)
      → Spares c other (utimens fresh admits digest generate c path atime mtime)
  unfolding utimens
  utimens-Spares path atime mtime = after_session _ (λ s. after_access _ _ (λ a. access-Spares _))

  perform-Spares : (r : Request) → Spares c other (perform fresh admits digest generate c r)
  unfolding perform release_fd
  perform-Spares (mkdir_call path mode) = mkdir-Spares path mode
  perform-Spares (create_call path mode) = quiet-Spares _ (create-Spares path mode)
  perform-Spares (chmod_call path mode) = chmod-Spares path mode
  perform-Spares (rmdir_call path) = rmdir-Spares path
  perform-Spares (unlink_call path) = unlink-Spares path
  perform-Spares (getattr_call path) = quiet-Spares _ (getattr-Spares path)
  perform-Spares (readdir_call path) = quiet-Spares _ (readdir-Spares path)
  perform-Spares (open_call path flags) = quiet-Spares _ (open_path-Spares path flags)
  perform-Spares (read_call path size offset fh) = quiet-Spares _ (read-Spares path size offset fh)
  perform-Spares (write_call path buf offset fh races) =
      quiet-Spares _ (write_bytes-Spares path buf offset fh races)
  perform-Spares (chown_call path uid gid) = chown-Spares path uid gid
  perform-Spares (truncate_call path length races) = truncate_file-Spares path length races
  perform-Spares (utimens_call path atime mtime) = utimens-Spares path atime mtime
  perform-Spares (release_call fh) = record { keeps = λ f foreign. (refl, refl) }

  -- Whatever a process asks of the filesystem, with any path, any handle and any outcome, the
  -- namespace of a session that it is not registered for stays as it was, and so do the
  -- registrations.
  pub perform-isolates :
      (r : Request) (f : ChronosFuse)
      → IsForeign c other f
      → let f' = (perform fresh admits digest generate c r f).1 in
        (Dict.get f'.sessions other ≡ Dict.get f.sessions other)
        × (f'.session_pids ≡ f.session_pids)
  perform-isolates r f foreign = (perform-Spares r).keeps f foreign

-- ===== src/Interface/Fuse/Handles.antt =====
-- A handle serves the session that opened it.
use apate.Prelude.{
  size, ℕ, String, ◌≡◌, refl, inl, inr, Bool, false, Option, some, List, ◌==◌, nat_eq, string_eq, ℤ,
  subst, get_or,
}
use apate.Dict
use apate.Dict.{Dict}
use apate.Core.Errno.{eacces, err}
use apate.Core.Action.{Action, then_do}
use apate.Core.Namespace.{Namespace}
use apate.Core.Content.{Bytes}
use apate.Interface.Fuse.Sessions.{session-cases}
use apate.Interface.Fuse.{
  Context, FdEntry, Audited, ChronosFuse, own_handle, read, write_bytes, checked,
}

module _ (fresh : Namespace) (admits : List Audited → Bool) (digest : Bytes → String)
    (generate : ℕ → String → Action Namespace (Option Bytes)) (c : Context) where
  foreign_handle :
      (f : ChronosFuse) (fh : ℕ) (entry : FdEntry)
      → Dict.get f.fd_table fh ≡ some entry
      → (entry.session_id == get_or "" (Dict.get f.session_pids c.pid)) ≡ false
      → own_handle fresh admits digest generate c fh f ≡ (err eacces, f)
  unfolding own_handle checked then_do
  foreign_handle f fh entry h foreign = elim (session-cases c f) [
    | inl e ↦ rw (h, e) refl
    | inr (id, e, mine) ↦
        let differs =
          subst (λ (o : Option String). (entry.session_id == get_or "" o) ≡ false) mine foreign in
        rw (h, e, differs) refl
  ]

  -- A process that is not registered for the session which opened a handle neither reads nor writes
  -- by it: both calls raise EACCES, audit nothing and change nothing.
  pub handles_private :
      (f : ChronosFuse) (fh : ℕ) (entry : FdEntry) (path : String) (size start : ℕ) (buf : Bytes)
      (offset : ℤ) (races : List Namespace)
      → Dict.get f.fd_table fh ≡ some entry
      → (entry.session_id == get_or "" (Dict.get f.session_pids c.pid)) ≡ false
      → (read fresh admits digest generate c path size start fh f ≡ (err eacces, f))
        × (write_bytes fresh admits digest generate c path buf offset fh races f ≡ (err eacces, f))
  unfolding read write_bytes then_do
  handles_private f fh entry path size start buf offset races h foreign =
      let refused = foreign_handle f fh entry h foreign in (rw refused refl, rw refused refl)

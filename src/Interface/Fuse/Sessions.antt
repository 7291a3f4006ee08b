-- ===== src/Interface/Fuse/Sessions.antt =====
-- A callback reaches no other session's namespace.
use apate.Prelude.{
  ℕ, String, ◌≡◌, refl, ◌∙◌, Bool, false, Option, List, arith, ◌==◌, nat_eq, string_eq, get_or, ◌⊎◌,
  inl, inr, some, Bool-cases, Option-cases, is_empty,
}
use apate.Dict
use apate.Dict.{Dict, get-put}
use apate.Core.Errno.{Result, ok, err, eacces}
use apate.Core.Action.{Action, on_result, then_do, give}
use apate.Core.Namespace.{Namespace}
use apate.Core.Content.{Bytes}
use apate.Interface.Fuse.{
  Context, WorldEvent, Audited, ChronosFuse, Callback, current_session, publish, in_session, audit,
  apply_in,
}

-- The caller's process is not registered for the session `other`.
abbrev pub IsForeign : Context → String → ChronosFuse → Type 0
IsForeign c other f = (get_or "" (Dict.get f.session_pids c.pid) == other) ≡ false

-- From every state in which the caller is foreign to `other`, the callback leaves the namespace of
-- `other` and the registrations as they are.
pub record Spares {A : Type 0} (c : Context) (other : String) (act : Callback A) : Type 0 where
  pub keeps :
      (f : ChronosFuse)
      → IsForeign c other f
      → (Dict.get (act f).1.sessions other ≡ Dict.get f.sessions other)
        × ((act f).1.session_pids ≡ f.session_pids)

on_result-Spares :
    {A B : Type 0} (c : Context) (other : String) (next : A → Callback B) (r : Result A)
    → ((a : A) → Spares c other (next a))
    → Spares c other (on_result next r)
on_result-Spares c other next (err e) spares = record { keeps = λ f foreign. (refl, refl) }
on_result-Spares c other next (ok a) spares = record {
  keeps = λ f foreign. (spares a).keeps f foreign;
}

pub then_do-Spares :
    {A B : Type 0} (c : Context) (other : String) (act : Callback A) (next : A → Callback B)
    → Spares c other act
    → ((a : A) → Spares c other (next a))
    → Spares c other (then_do act next)
unfolding then_do
then_do-Spares c other act next first spares = record {
  keeps = λ f foreign.
      let (same, pids) = first.keeps f foreign in
      let (same', pids') =
        (on_result-Spares c other next (act f).0 spares).keeps (act f).1 (rw pids foreign) in
      (same' ∙ same, pids' ∙ pids);
}

pub give-Spares : {A : Type 0} (c : Context) (other : String) (a : A) → Spares c other (give a)
give-Spares c other a = record { keeps = λ f foreign. (refl, refl) }

pub current_session-Spares : (c : Context) (other : String) → Spares c other (current_session c)
unfolding current_session
current_session-Spares c other = record { keeps = λ f foreign. (ground arith, ground arith) }

pub publish-Spares : (c : Context) (other : String) (e : WorldEvent) → Spares c other (publish e)
unfolding publish
publish-Spares c other e = record { keeps = λ f foreign. (refl, refl) }

-- The session is looked up and nothing else happens.
pub session-cases :
    (c : Context) (f : ChronosFuse)
    → (current_session c f ≡ (err eacces, f))
      ⊎ ((id : String) × (current_session c f ≡ (ok id, f))
          × (Dict.get f.session_pids c.pid ≡ some id))
unfolding current_session
session-cases c f = elim (Option-cases (Dict.get f.session_pids c.pid)) [
  | inl h ↦ inl (ground arith)
  | inr (id, h) ↦ elim (Bool-cases (is_empty id)) [
    | inl e ↦ inl (ground arith)
    | inr e ↦ inr (id, ground arith, h)
  ]
]

module _ (fresh : Namespace) (admits : List Audited → Bool) (digest : Bytes → String)
    (generate : ℕ → String → Action Namespace (Option Bytes)) where
  pub in_session-Spares :
      {A : Type 0} (c : Context) (other : String) (act : Action Namespace A)
      → Spares c other (in_session fresh admits digest generate c act)
  unfolding in_session apply_in then_do
  in_session-Spares c other act = record {
    keeps = λ f foreign. elim (session-cases c f) [
      | inl h ↦ rw h (refl, refl)
      | inr (id, h, mine) ↦
          let n = (act (get_or fresh (Dict.get f.sessions id))).1 in
          rw h (ground (arith, mine, get-put f.sessions id other n), refl)
    ];
  }

  pub audit-Spares :
      (c : Context) (other session operation path : String) (i : ℕ)
      → Spares c other (audit fresh admits digest generate session operation path i)
  unfolding audit
  audit-Spares c other session operation path i = record {
    keeps = λ f foreign. (ground arith, ground arith);
  }

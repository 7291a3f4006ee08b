-- ===== src/Gateway/Environment/Variables.antt =====
-- The variables that no command of a session overwrites.
use apate.Prelude.{
  String, ◌≡◌, refl, ◌⊎◌, inl, inr, Bool, true, false, Option, some, List, [], ◌∷◌, ◌==◌, nat_eq,
  string_eq, Bool-cases, Option-cases, arith, none, has_prefix, ◌∙◌, if◌then◌else◌, get_or,
}
use apate.Dict
use apate.Dict.{Dict, get-put, get-put_self, get-remove}
use apate.Core.Errno.{Errno, Result, Result-cases}
use apate.Core.Content.{Bytes}
use apate.Gateway.Environment.{
  first_or, SessionEnvironment, Outcome, is_protected, split_once, export_all, unset_all, handle_cd,
  run_handler, handle, normpath, join_path, resolve_path, entered,
}

protected_differs :
    (name key : String)
    → is_protected name ≡ true
    → is_protected key ≡ false
    → (key == name) ≡ false
protected_differs name key p n = ground (arith, string_eq.beq_iff key name)

export_all-protects :
    (args : List String) (env : Dict String String) (name : String)
    → is_protected name ≡ true
    → Dict.get (export_all args env) name ≡ Dict.get env name
unfolding export_all
export_all-protects [] env name p = refl
export_all-protects (arg ∷ args) env name p = elim (Option-cases (split_once b'=' arg)) [
  | inl e ↦ ground (arith, e, export_all-protects args env name p)
  | inr ((key, val), e) ↦ ground (
    arith,
    e,
    export_all-protects args env name p,
    export_all-protects args (Dict.put env key val) name p,
    get-put env key name val,
    protected_differs name key p,
  )
]

unset_all-protects :
    (args : List String) (env : Dict String String) (name : String)
    → is_protected name ≡ true
    → Dict.get (unset_all args env) name ≡ Dict.get env name
unfolding unset_all
unset_all-protects [] env name p = refl
unset_all-protects (arg ∷ args) env name p = ground (
  arith,
  unset_all-protects args env name p,
  unset_all-protects args (Dict.remove env arg) name p,
  get-remove env arg name,
  protected_differs name arg p,
)

pwd_protected : is_protected "PWD" ≡ true
unfolding is_protected
pwd_protected = refl

entered-pwd :
    (pwd path : String) (e : SessionEnvironment)
    → Dict.get (entered pwd path e).env "PWD" ≡ some (entered pwd path e).cwd
unfolding entered
entered-pwd pwd path e = get-put_self (Dict.put e.env "OLDPWD" pwd) "PWD" path

entered-other :
    (pwd path : String) (e : SessionEnvironment) (name : String)
    → (Dict.get (entered pwd path e).env name ≡ Dict.get e.env name)
      ⊎ ((name ≡ "PWD") ⊎ (name ≡ "OLDPWD"))
unfolding entered
entered-other pwd path e name = ground (
  arith,
  get-put (Dict.put e.env "OLDPWD" pwd) "PWD" name path,
  get-put e.env "OLDPWD" name pwd,
  string_eq.beq_iff "PWD" name,
  string_eq.beq_iff "OLDPWD" name,
)

module _ (islink isdir : List String → Bool) (strerror : Errno → String)
    (others : String → Option (List String → Bytes → SessionEnvironment → Result Outcome)) where
  abbrev env_after :
      SessionEnvironment → Option (Result Outcome × SessionEnvironment) → SessionEnvironment
  env_after e none = e
  env_after e (some (result, e')) = e'

  -- The ways in which a handler can leave the environment.
  run_handler-cases :
      (cmd : String) (args : List String) (stdin : Bytes) (e : SessionEnvironment)
      → let e' = env_after e (run_handler islink isdir strerror others cmd args stdin e) in
        (e' ≡ e)
        ⊎ ((cmd ≡ "cd") × (e' ≡ (handle_cd islink isdir strerror others args e).1))
        ⊎ (e' ≡ record e { env = export_all args e.env })
        ⊎ (e' ≡ record e { env = unset_all args e.env })
  unfolding run_handler
  run_handler-cases cmd args stdin e = ground (arith, string_eq.beq_iff cmd "cd")

  handle-env :
      (cmd : String) (args : List String) (stdin : Bytes) (e : SessionEnvironment)
      → let e' = (handle islink isdir strerror others cmd args stdin e).1 in
        (e' ≡ e) ⊎ (e' ≡ env_after e (run_handler islink isdir strerror others cmd args stdin e))
  unfolding handle
  handle-env cmd args stdin e = ground arith

  after_cd :
      (args : List String) (e : SessionEnvironment)
      → let e' = (handle_cd islink isdir strerror others args e).1 in
        (e' ≡ e) ⊎ ((pwd : String) × (path : String) × (e' ≡ entered pwd path e))
  unfolding handle_cd
  after_cd args e =
      let pwd = get_or "" (Dict.get e.env "PWD") in
      let target = first_or (get_or "" (Dict.get e.env "HOME")) args in
      let path = normpath (if has_prefix "/" target then target else join_path pwd target) in
      elim (Result-cases (resolve_path islink e target)) [
        | inl (x, h) ↦ inl (ground arith)
        | inr (real, h) ↦ elim (Bool-cases (isdir real)) [
          | inl d ↦ inr (pwd, path, ground arith)
          | inr d ↦ inl (ground arith)
        ]
      ]

  -- Every command ends in one of these environments.
  handle-cases :
      (cmd : String) (args : List String) (stdin : Bytes) (e : SessionEnvironment)
      → let e' = (handle islink isdir strerror others cmd args stdin e).1 in
        (e' ≡ e)
        ⊎ ((cmd ≡ "cd") × (pwd : String) × (path : String) × (e' ≡ entered pwd path e))
        ⊎ (e' ≡ record e { env = export_all args e.env })
        ⊎ (e' ≡ record e { env = unset_all args e.env })
  handle-cases cmd args stdin e = elim (handle-env cmd args stdin e) [
    | inl h ↦ inl h
    | inr h ↦ elim (run_handler-cases cmd args stdin e) [
      | inl r ↦ inl (h ∙ r)
      | inr (inl (is_cd, r)) ↦ elim (after_cd args e) [
        | inl c ↦ inl (h ∙ r ∙ c)
        | inr (pwd, path, c) ↦ inr (inl (is_cd, pwd, path, h ∙ r ∙ c))
      ]
      | inr (inr (inl r)) ↦ inr (inr (inl (h ∙ r)))
      | inr (inr (inr r)) ↦ inr (inr (inr (h ∙ r)))
    ]
  ]

  -- No command overwrites a protected variable, but that `cd` sets PWD and OLDPWD; and if PWD is
  -- the working directory before a command, it is after it.
  pub handle-protects :
      (cmd : String) (args : List String) (stdin : Bytes) (e : SessionEnvironment) (name : String)
      → is_protected name ≡ true
      → Dict.get e.env "PWD" ≡ some e.cwd
      → let e' = (handle islink isdir strerror others cmd args stdin e).1 in
        (Dict.get e'.env "PWD" ≡ some e'.cwd)
        × ((Dict.get e'.env name ≡ Dict.get e.env name)
            ⊎ ((cmd ≡ "cd") × ((name ≡ "PWD") ⊎ (name ≡ "OLDPWD"))))
  handle-protects cmd args stdin e name p synced = elim (handle-cases cmd args stdin e) [
    | inl h ↦ rw h (synced, inl refl)
    | inr (inl (is_cd, pwd, path, h)) ↦ rw h (
      entered-pwd pwd path e,
      elim (entered-other pwd path e name) [ inl same ↦ inl same | inr one ↦ inr (is_cd, one) ],
    )
    | inr (inr (inl h)) ↦ rw h (
      export_all-protects args e.env "PWD" pwd_protected ∙ synced,
      inl (export_all-protects args e.env name p),
    )
    | inr (inr (inr h)) ↦ rw h (
      unset_all-protects args e.env "PWD" pwd_protected ∙ synced,
      inl (unset_all-protects args e.env name p),
    )
  ]

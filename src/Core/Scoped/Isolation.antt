-- ===== src/Core/Scoped/Isolation.antt =====
-- No key of one session's filesystem is a key of another's, or one of the control plane's.
use apate.Prelude.{
  ℕ, ◌≡◌, refl, Bool, true, false, ◌||◌, [], ◌∷◌, ◌++◌, arith, nat_beq, nat_eq, string_eq,
  append_assoc, sym, ◌∙◌, ◌≢◌, inl, inr, List, map, Bool-cases, All, subst, zero, suc, ◌≤◌, String,
  ap, none, some, length, take, drop,
}
use apate.Core.Scoped.{
  scope_first, Text, starts_with, fs, key, session_prefix, in_first_key, in_all_keys, in_no_keys,
  getattr, eval,
}

pub starts_with-append : (start text : Text) → starts_with start (start ++ text) ≡ true
unfolding starts_with
starts_with-append [] text = refl
starts_with-append (c ∷ start) text = rw (nat_beq_refl c) (starts_with-append start text)
  where
    nat_beq_refl : (c : ℕ) → nat_beq c c ≡ true
    nat_beq_refl c = ground arith

unfoldable pub has_colon : Text → Bool
has_colon [] = false
has_colon (c ∷ text) = nat_beq c b':' || has_colon text

-- What stands before the first colon is determined.
before_colon :
    (a b v w : Text)
    → has_colon a ≡ false
    → has_colon b ≡ false
    → (a ++ b':' ∷ v) ≡ (b ++ b':' ∷ w)
    → a ≡ b
unfolding has_colon
before_colon [] [] v w ha hb e = refl
before_colon [] (d ∷ b) v w ha hb e = absurd (ground arith)
before_colon (c ∷ a) [] v w ha hb e = absurd (ground arith)
before_colon (c ∷ a) (d ∷ b) v w ha hb e =
    let rest : (a ++ b':' ∷ v) ≡ (b ++ b':' ∷ w) = cc in
    cc (before_colon a b v w (ground arith) (ground arith) rest)

-- A key under the prefixes of two sessions is one session's.
pub before_prefix :
    (s t v w : Text)
    → has_colon s ≡ false
    → has_colon t ≡ false
    → session_prefix s ++ v ≡ session_prefix t ++ w
    → s ≡ t
unfolding session_prefix
before_prefix s t v w hs ht whole =
    before_colon s t v w hs ht
      (sym (append_assoc s (b':' ∷ []) v) ∙ same ∙ append_assoc t (b':' ∷ []) w)
  where
    same : (s ++ b':' ∷ []) ++ v ≡ (t ++ b':' ∷ []) ++ w
    same = cc (whole)

-- Two sessions share no filesystem key: a session's id is a UUID and has no colon, and under
-- different ids no two `fs:` keys come out equal.
pub sessions_disjoint :
    (s t v w : Text)
    → has_colon s ≡ false
    → has_colon t ≡ false
    → s ≢ t
    → starts_with fs v ≡ true
    → starts_with fs w ≡ true
    → key (session_prefix s) v ≢ key (session_prefix t) w
unfolding key
sessions_disjoint s t v w hs ht ne hv hw e = ne (before_prefix s t v w hs ht (rw (hv, hw) at e))

-- Within a session the prefix keeps different keys apart.
pub append-injective : (p v w : Text) → p ++ v ≡ p ++ w → v ≡ w
append-injective [] v w e = e
append-injective (c ∷ p) v w e = append-injective p v w (cc)

-- A text is bare if Redis would read it as a filesystem key outside every session.
abbrev is_bare : Text → Bool
is_bare = starts_with fs

key-not_bare : (s v : Text) → is_bare (key (session_prefix s) v) ≡ false
unfolding key session_prefix starts_with
key-not_bare s v = elim (Bool-cases (starts_with fs v)) [ inl h ↦ rw h | inr h ↦ rw h h ]

map-key-not_bare :
    (s : Text) (vs : List Text) → All (λ k. is_bare k ≡ false) (map (key (session_prefix s)) vs)
map-key-not_bare s [] = tt
map-key-not_bare s (v ∷ vs) = (key-not_bare s v, map-key-not_bare s vs)

take-map :
    (f : Text → Text) (n : ℕ) (xs ys : List Text)
    → n ≤ length xs
    → take n (map f (take n xs) ++ ys) ≡ map f (take n xs)
take-map f zero xs ys h = refl
take-map f (suc n) [] ys h = absurd (omega arith)
take-map f (suc n) (x ∷ xs) ys h =
    ap (λ (l : List Text). f x ∷ l) (take-map f n xs ys (omega arith))

not_bare-take_one :
    (s : Text) (args : List Text)
    → All (λ k. is_bare k ≡ false) (take 1 (scope_first (session_prefix s) args))
not_bare-take_one s [] = tt
not_bare-take_one s (k ∷ args) = (key-not_bare s k, tt)

-- No command that passes the boundary names a filesystem key outside the session: it is one of the
-- permitted commands, the key of a single-key command is not a bare `fs:` key, nor is any key of a
-- command on several keys; every other command is refused.
getattr_confines :
    (s : Text) (name : String) (args : List Text)
    → ((in_first_key name || in_all_keys name || in_no_keys name) ≡ false
        → getattr (session_prefix s) name args ≡ none)
      × (in_first_key name ≡ true
          → (out : List Text) × (getattr (session_prefix s) name args ≡ some out)
            × All (λ k. is_bare k ≡ false) (take 1 out))
      × (in_first_key name ≡ false
          → in_all_keys name ≡ true
          → (out : List Text) × (getattr (session_prefix s) name args ≡ some out)
            × All (λ k. is_bare k ≡ false) out)
unfolding getattr
getattr_confines s name args = (
  λ h. ground arith,
  λ h. (scope_first (session_prefix s) args, ground arith, not_bare-take_one s args),
  λ h k. (map (key (session_prefix s)) args, ground arith, map-key-not_bare s args),
)

-- So too for the keys of a script call: the first `count` arguments.
eval_confines :
    (s source : Text) (count : ℕ) (args : List Text)
    → count ≤ length args
    → All (λ k. is_bare k ≡ false) (take count (eval (session_prefix s) source count args).1)
unfolding eval
eval_confines s source count args h =
    subst (λ (l : List Text). All (λ k. is_bare k ≡ false) l)
      (sym (take-map (key (session_prefix s)) count args (drop count args) h))
      (map-key-not_bare s (take count args))

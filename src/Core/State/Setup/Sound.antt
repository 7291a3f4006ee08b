-- ===== src/Core/State/Setup/Sound.antt =====
-- state.py, `_initialize_filesystem`: the tree is well formed whatever the manifest says, and
-- wherever the making stops.
use apate.Core.State.Setup.{set_counter, root_fields, make_root, empty_namespace}
use apate.Dict
use apate.Prelude.{
  ℕ, String, ◌≡◌, sym, ◌∙◌, true, false, arith, nat_beq_iff, ◌==◌, nat_eq, string_eq, is_some,
  subst, refl, ap, ◌⊎◌, inl, inr, Bool-cases, if◌then◌else◌,
}
use apate.Core.Namespace.{Inode, Namespace, inode, hset, zadd, mode_of, zscore}
use apate.Core.Namespace.Laws.{
  inode-hset, inode-zadd, zscore-hset, zscore-zadd, next_inode-hset, next_inode-zadd,
}
use apate.Core.Scripts.Tree.{is_dot, IsWellFormed, root_number, is_dir-present}

-- Fields of an inode other than the root may be written.
pub hset-IsWellFormed :
    (s : Namespace) (j : ℕ) (f : Inode → Inode)
    → IsWellFormed s
    → (j == 1) ≡ false
    → is_some (inode s j) ≡ true
    → IsWellFormed (hset s j f)
unfolding mode_of
hset-IsWellFormed s j f w other there = record {
  root = ground (arith, w.root, inode-hset s j 1 f);
  inodes_below = λ i h. ground (
    arith,
    w.inodes_below i,
    w.inodes_below j there,
    inode-hset s j i f,
    nat_beq_iff j i,
    next_inode-hset s j f,
  );
  targets_below = λ d n i h.
      ground (arith, w.targets_below d n i, zscore-hset s j d n f, next_inode-hset s j f);
  dirs_below =
      λ d n i h. ground (arith, w.dirs_below d n i, zscore-hset s j d n f, next_inode-hset s j f);
  holder = λ d n i h. ground (arith, w.holder d n i, zscore-hset s j d n f, inode-hset s j d f);
  self = λ d i h. w.self d i (sym (zscore-hset s j d "." f) ∙ h);
  live = λ d n i dot h. ground (arith, w.live d n i dot, zscore-hset s j d n f, inode-hset s j i f);
  not_root = λ d n i dot h. w.not_root d n i dot (sym (zscore-hset s j d n f) ∙ h);
  one_place = λ d e n m i dot dot' h h'.
      w.one_place d e n m i dot dot' (sym (zscore-hset s j d n f) ∙ h)
        (sym (zscore-hset s j e m f) ∙ h');
}

zscore-plain :
    (s : Namespace) (n : String) (d : ℕ) (m : String)
    → is_dot n ≡ true
    → is_dot m ≡ false
    → zscore (zadd s 1 n 1) d m ≡ zscore s d m
zscore-plain s n d m dot plain = elim (Bool-cases (n == m)) [
  | inl same ↦
      let e : n ≡ m = (string_eq.beq_iff n m).0 same in
      absurd (ground (arith, sym dot ∙ ap is_dot e ∙ plain))
  | inr other ↦ ground (arith, zscore-zadd s 1 d m n 1)
]

-- An entry with a dot name leads from the root to the root.
dot-IsWellFormed :
    (s : Namespace) (n : String) → IsWellFormed s → is_dot n ≡ true → IsWellFormed (zadd s 1 n 1)
unfolding mode_of
dot-IsWellFormed s n w dot = record {
  root = ground (arith, w.root, inode-zadd s 1 1 n 1);
  inodes_below =
      λ i h. ground (arith, w.inodes_below i, inode-zadd s 1 i n 1, next_inode-zadd s 1 n 1);
  targets_below = λ d m i h. ground (
    arith,
    w.targets_below d m i,
    root_number w,
    zscore-zadd s 1 d m n 1,
    next_inode-zadd s 1 n 1,
  );
  dirs_below = λ d m i h. ground (
    arith,
    w.dirs_below d m i,
    root_number w,
    zscore-zadd s 1 d m n 1,
    next_inode-zadd s 1 n 1,
    nat_beq_iff 1 d,
  );
  holder = λ d m i h. ground (
    arith,
    w.holder d m i,
    is_dir-present s 1 w.root,
    zscore-zadd s 1 d m n 1,
    inode-zadd s 1 d n 1,
    nat_beq_iff 1 d,
  );
  self = λ d i h. ground (arith, w.self d i, zscore-zadd s 1 d "." n 1, nat_beq_iff 1 d);
  live = λ d m i plain h.
      ground (arith, w.live d m i plain, zscore-plain s n d m dot plain, inode-zadd s 1 i n 1);
  not_root = λ d m i plain h. w.not_root d m i plain (sym (zscore-plain s n d m dot plain) ∙ h);
  one_place = λ d e m k i plain plain' h h'.
      w.one_place d e m k i plain plain' (sym (zscore-plain s n d m dot plain) ∙ h)
        (sym (zscore-plain s n e k dot plain') ∙ h');
}

empty_root-IsWellFormed :
    (timestamp : ℕ)
    → IsWellFormed (hset (record empty_namespace { next_inode = 1 }) 1 (λ _. root_fields timestamp))
unfolding mode_of hset inode zscore Dict.get Dict.put
empty_root-IsWellFormed timestamp = record {
  root = refl;
  inodes_below = λ i h. ground (arith, nat_beq_iff 1 i);
  targets_below = λ d n i h. absurd (ground arith);
  dirs_below = λ d n i h. absurd (ground arith);
  holder = λ d n i h. absurd (ground arith);
  self = λ d i h. absurd (ground arith);
  live = λ d n i dot h. absurd (ground arith);
  not_root = λ d n i dot h. absurd (ground arith);
  one_place = λ d e n m i dot dot' h h'. absurd (ground arith);
}

-- An empty Redis, or a tree that a making or a session has left.
abbrev pub IsStart : Namespace → Type 0
IsStart s = (s ≡ empty_namespace) ⊎ IsWellFormed s

rooted-IsWellFormed :
    (s : Namespace) → IsWellFormed s → IsWellFormed (zadd (zadd s 1 "." 1) 1 ".." 1)
rooted-IsWellFormed s w =
    dot-IsWellFormed (zadd s 1 "." 1) ".." (dot-IsWellFormed s "." w refl) refl

pub make_root-IsWellFormed :
    (timestamp : ℕ) (s : Namespace) → IsStart s → IsWellFormed (make_root timestamp s)
unfolding make_root set_counter inode Dict.get
make_root-IsWellFormed timestamp s (inl e) =
    subst (λ s. IsWellFormed (make_root timestamp s)) (sym e)
      (rooted-IsWellFormed
        (hset (record empty_namespace { next_inode = 1 }) 1 (λ _. root_fields timestamp))
        (empty_root-IsWellFormed timestamp))
make_root-IsWellFormed timestamp s (inr w) =
    let counted : set_counter s ≡ s = ground (arith, root_number w) in
    let there : is_some (inode s 1) ≡ true = is_dir-present s 1 w.root in
    let same : (if is_some (inode (set_counter s) 1)
          then set_counter s
          else hset (set_counter s) 1 (λ _. root_fields timestamp))
        ≡ s =
      subst (λ o. (if is_some (inode o 1) then o else hset o 1 (λ _. root_fields timestamp)) ≡ s)
        (sym counted) (rw there refl) in
    subst (λ o. IsWellFormed (zadd (zadd o 1 "." 1) 1 ".." 1)) (sym same) (rooted-IsWellFormed s w)

-- ===== src/Core/Namespace/Laws.antt =====
-- What each Redis command of the model leaves of each other command's view.
use apate.Prelude.{
  ℕ, suc, String, ◌≡◌, refl, ◌&&◌, none, some, arith, if◌then◌else◌, ◌==◌, get_or, nat_eq,
  string_eq,
}
use apate.Dict.{get-nil, get-put, get-remove}
use apate.Core.Namespace.{
  members, Namespace, Inode, no_fields, inode, hset, del_inode, zscore, zadd, zrem, del_dir,
  incr_inode,
}

module _ (s : Namespace) (i : ℕ) (j : ℕ) where
  pub inode-hset :
      (f : Inode → Inode)
      → inode (hset s i f) j
        ≡ (if i == j then some (f (get_or no_fields (inode s i))) else inode s j)
  unfolding inode hset
  inode-hset f = rw get-put

  pub inode-del_inode : inode (del_inode s i) j ≡ (if i == j then none else inode s j)
  unfolding inode del_inode
  inode-del_inode = rw get-remove

  pub inode-zadd : (n : String) (k : ℕ) → inode (zadd s i n k) j ≡ inode s j
  unfolding inode zadd
  inode-zadd n k = refl

  pub inode-zrem : (n : String) → inode (zrem s i n) j ≡ inode s j
  unfolding inode zrem
  inode-zrem n = refl

  pub inode-del_dir : inode (del_dir s i) j ≡ inode s j
  unfolding inode del_dir
  inode-del_dir = refl

module _ (s : Namespace) (d : ℕ) (e : ℕ) (m : String) where
  pub zscore-hset : (f : Inode → Inode) → zscore (hset s d f) e m ≡ zscore s e m
  unfolding zscore hset
  zscore-hset f = refl

  pub zscore-del_inode : zscore (del_inode s d) e m ≡ zscore s e m
  unfolding zscore del_inode
  zscore-del_inode = refl

  pub zscore-zadd :
      (n : String) (i : ℕ)
      → zscore (zadd s d n i) e m ≡ (if d == e && n == m then some i else zscore s e m)
  unfolding zscore zadd
  zscore-zadd n i = rw get-put (ground (arith, get-put (members s d) n m i))

  pub zscore-zrem :
      (n : String) → zscore (zrem s d n) e m ≡ (if d == e && n == m then none else zscore s e m)
  unfolding zscore zrem
  zscore-zrem n = rw get-put (ground (arith, get-remove (members s d) n m))

  pub zscore-del_dir : zscore (del_dir s d) e m ≡ (if d == e then none else zscore s e m)
  unfolding zscore del_dir
  zscore-del_dir = rw get-remove (ground (arith, get-nil {V = ℕ} m))

module _ (s : Namespace) (i : ℕ) where
  pub next_inode-hset : (f : Inode → Inode) → (hset s i f).next_inode ≡ s.next_inode
  unfolding hset
  next_inode-hset f = refl

  pub next_inode-del_inode : (del_inode s i).next_inode ≡ s.next_inode
  unfolding del_inode
  next_inode-del_inode = refl

  pub next_inode-zadd : (n : String) (k : ℕ) → (zadd s i n k).next_inode ≡ s.next_inode
  unfolding zadd
  next_inode-zadd n k = refl

  pub next_inode-zrem : (n : String) → (zrem s i n).next_inode ≡ s.next_inode
  unfolding zrem
  next_inode-zrem n = refl

  pub next_inode-del_dir : (del_dir s i).next_inode ≡ s.next_inode
  unfolding del_dir
  next_inode-del_dir = refl

module _ (s : Namespace) where
  pub next_inode-incr_inode : (incr_inode s).next_inode ≡ suc s.next_inode
  unfolding incr_inode
  next_inode-incr_inode = refl

  pub inode-incr_inode : (j : ℕ) → inode (incr_inode s) j ≡ inode s j
  unfolding inode incr_inode
  inode-incr_inode j = refl

  pub zscore-incr_inode : (d : ℕ) (n : String) → zscore (incr_inode s) d n ≡ zscore s d n
  unfolding zscore incr_inode
  zscore-incr_inode d n = refl

pub ruleset inode_laws =
    (inode-hset, inode-del_inode, inode-zadd, inode-zrem, inode-del_dir, inode-incr_inode)

pub ruleset zscore_laws =
    (zscore-hset, zscore-del_inode, zscore-zadd, zscore-zrem, zscore-del_dir, zscore-incr_inode)

pub ruleset next_inode_laws = (
  next_inode-hset, next_inode-del_inode, next_inode-zadd, next_inode-zrem, next_inode-del_dir,
  next_inode-incr_inode,
)

-- ===== src/Core/Content/Update/Readers.antt =====
-- What readers see after an update: the new bytes in the file, and no change anywhere else.
use apate.Prelude.{
  ℕ, String, ◌≡◌, refl, ◌⊎◌, inl, inr, List, [], ◌∷◌, nat_eq, string_eq, get_or, All, All-map, suc,
  ◌≢◌, false, Option, none, some, arith, length, is_empty, ap, All-zip, ◌∙◌,
}
use apate.Dict
use apate.Dict.{get-put_self, get-put, get-remove}
use apate.Core.Errno.{Errno, Result, ok, err, Result-cases}
use apate.Core.Namespace.{no_fields, Namespace, inode, Inode, hset}
use apate.Core.Content.{
  Bytes, stored, read_blob, written_fields, execute_write, Change, edit, mutate_content,
}
use apate.Core.Content.Update.{rounds_induction}
use apate.Core.Content.Update.Bounds.{IsNew, new_content-IsNew}

-- The bytes of a file, as `read_blob` gives them under its content hash.
abbrev pub content_of : (Bytes → String) → Namespace → ℕ → Result Bytes
content_of digest s i = stored digest s (get_or no_fields (inode s i)).content_hash

-- One of the namespaces in which a round began.
abbrev pub Seen : Namespace → List Namespace → Namespace → Type 0
Seen s [] x = s ≡ x
Seen s (s' ∷ races) x = (s ≡ x) ⊎ Seen s' races x

Seen-self : (s : Namespace) (races : List Namespace) → Seen s races s
Seen-self s [] = refl
Seen-self s (s' ∷ races) = inl refl

Seen-races : (s : Namespace) (races : List Namespace) → All (Seen s races) races
Seen-races s [] = tt
Seen-races s (s' ∷ races) = (
  inr (Seen-self s' races),
  All-map (Seen s' races) (Seen s (s' ∷ races)) (λ x h. inr h) races (Seen-races s' races),
)

-- Each blob stands under the digest of its bytes.
abbrev pub IsAddressed : (Bytes → String) → Namespace → Type 0
IsAddressed digest s = (h : String) (b : Bytes) → Dict.get s.blobs h ≡ some b → digest b ≡ h

abbrev pub hash_of : Namespace → ℕ → Inode
hash_of s i = get_or no_fields (inode s i)

-- The update of file `i` by `f` took the namespace `seen` to `s'`.
pub record Written (digest : Bytes → String) (i : ℕ) (f : Bytes → Bytes) (seen s' : Namespace)
    : Type 0 where
  pub old : Bytes
  pub before : content_of digest seen i ≡ ok old
  pub after : content_of digest s' i ≡ ok (f old)
  pub size : (hash_of s' i).size ≡ some (length (f old))
  pub revision : (hash_of s' i).revision ≡ some (suc (get_or 0 (hash_of seen i).revision))
  pub lease : Dict.get s'.generating i ≡ none
  pub tree : s'.dirs ≡ seen.dirs
  pub hashes : (j : ℕ) → i ≢ j → inode s' j ≡ inode seen j
  pub contents :
      (j : ℕ) (b : Bytes) → i ≢ j → content_of digest seen j ≡ ok b → content_of digest s' j ≡ ok b

module _ (digest : Bytes → String) (named : (b : Bytes) → is_empty (digest b) ≡ false)
    (distinct : (a b : Bytes) → digest a ≡ digest b → a ≡ b) where
  stored-put :
      (s : Namespace) (hash : Option String) (content b : Bytes)
      → IsAddressed digest s
      → stored digest s hash ≡ ok b
      → stored digest (record s { blobs = Dict.put s.blobs (digest content) content }) hash ≡ ok b
  unfolding stored read_blob
  stored-put s none content b a h = h
  stored-put s (some hash) content b a h = ground (
    arith,
    get-put s.blobs (digest content) hash content,
    string_eq.beq_iff (digest content) hash,
    a hash b,
    distinct b content,
  )

  stored_self :
      (s : Namespace) (content : Bytes)
      → stored digest
          (record s { blobs = Dict.put s.blobs (digest content) content })
          (some (digest content))
        ≡ ok content
  unfolding stored read_blob
  stored_self s content =
      ground (arith, named content, get-put_self s.blobs (digest content) content)

  execute_write-IsAddressed :
      (i : ℕ) (content : Bytes) (now : ℕ) (s : Namespace)
      → IsAddressed digest s
      → IsAddressed digest (execute_write digest i content now s)
  unfolding execute_write hset
  execute_write-IsAddressed i content now s a h b found = ground (
    arith,
    get-put s.blobs (digest content) h content,
    string_eq.beq_iff (digest content) h,
    a h b,
  )

  execute_write-Written :
      (i : ℕ) (f : Bytes → Bytes) (content : Bytes) (now : ℕ) (s : Namespace)
      → IsAddressed digest s
      → IsNew digest i f s content
      → Written digest i f s (execute_write digest i content now s)
  unfolding execute_write written_fields hset inode stored read_blob
  execute_write-Written i f content now s a n = record {
    old = n.old;
    before = rw n.found n.before;
    after = rw get-put_self (stored_self s content ∙ ap ok n.after);
    size = simp get-put (ground (arith, ap (length {A = ℕ}) n.after));
    revision = simp get-put (ground arith);
    lease = simp get-remove (ground arith);
    tree = refl;
    hashes = λ j ne. simp get-put (ground arith);
    contents = λ j b ne h.
        simp get-put (ground (arith, stored-put s (hash_of s j).content_hash content b a h));
  }

  -- An update that returns has done all of it, once, on a namespace that it saw: the edit passed
  -- the checks, the file holds the edited bytes, its size and revision say so, the file's
  -- generation lease is gone, and no other inode, directory or file content has changed. An update
  -- that raises has left the namespace as the other clients made it.
  pub mutate_content_atomic :
      (i : ℕ) (change : Change) (now : ℕ) (races : List Namespace) (s : Namespace)
      → IsAddressed digest s
      → All (IsAddressed digest) races
      → let r = mutate_content digest i change now races s in
        ((r.0 ≡ ok tt)
          × ((f : Bytes → Bytes) × (edit change ≡ ok f)
              × ((seen : Namespace) × Seen s races seen × Written digest i f seen r.1)))
        ⊎ ((e : Errno) × (r.0 ≡ err e) × Seen s races r.1)
  unfolding mutate_content
  mutate_content_atomic i change now races s a as' = elim (Result-cases (edit change)) [
    | inl (e, h) ↦ rw (h, mutate_content) (inr (e, refl, Seen-self s races))
    | inr (f, h) ↦
        rw (h, mutate_content)
          (rounds_induction digest i f now (λ x. Seen s races x × IsAddressed digest x)
            (λ r.
              ((r.0 ≡ ok tt)
                × ((g : Bytes → Bytes) × (◌≡◌ {A = Result (Bytes → Bytes)} (ok f) (ok g))
                    × ((seen : Namespace) × Seen s races seen × Written digest i g seen r.1)))
              ⊎ ((e : Errno) × (r.0 ≡ err e) × Seen s races r.1))
            (λ e x q. inr (e, refl, q.0))
            (λ content x q new. inl (
              refl,
              (
                f,
                refl,
                (
                  x,
                  q.0,
                  execute_write-Written i f content now x q.1
                      (new_content-IsNew digest i f x content new),
                ),
              ),
            ))
            32 races s (Seen-self s races, a)
            (All-zip (Seen s races) (IsAddressed digest) races (Seen-races s races) as'))
  ]

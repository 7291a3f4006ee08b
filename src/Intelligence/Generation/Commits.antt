-- ===== src/Intelligence/Generation/Commits.antt =====
-- When a generated content reaches its file.
use apate.Prelude.{
  if◌then◌else◌, [], Bool-cases, ◌==◌, ap, ◌∙◌, ℕ, String, ◌≡◌, ◌≢◌, ◌⊎◌, true, false, Option, none,
  some, nat_eq, string_eq, get_or, is_empty, refl, inl, inr, arith, ==_refl, nat_beq_iff,
  Option-cases, length,
}
use apate.Dict
use apate.Dict.{Dict, get-put, get-put_self, get-remove}
use apate.Core.Errno.{ok, err, eio}
use apate.Core.Namespace.{inode, hset, Inode, no_fields, Namespace}
use apate.Core.Content.{Bytes, read_blob, stored, written_fields, execute_write}
use apate.Core.Content.Update.Readers.{content_of, hash_of}
use apate.Intelligence.Generation.{cached, holds, Store, execute_commit, commit}

module _ (digest : Bytes → String) where
  written-inode :
      (s : Namespace) (i : ℕ) (bytes : Bytes) (now : ℕ)
      → inode (execute_write digest i bytes now s) i
        ≡ some (written_fields digest bytes now (get_or no_fields (Dict.get s.inodes i)))
  unfolding execute_write inode hset
  written-inode s i bytes now =
      get-put_self s.inodes i
        (written_fields digest bytes now (get_or no_fields (Dict.get s.inodes i)))

  written-holds :
      (s : Namespace) (i : ℕ) (bytes : Bytes) (now : ℕ) (token : String)
      → holds i token (execute_write digest i bytes now s) ≡ false
  unfolding execute_write hset holds
  written-holds s i bytes now token = ground (arith, get-remove s.generating i i, ==_refl i)

  written-cached :
      (s : Namespace) (i : ℕ) (bytes : Bytes) (now : ℕ) (meta : Inode)
      → is_empty (digest bytes) ≡ false
      → cached (execute_write digest i bytes now s) (written_fields digest bytes now meta)
        ≡ ok (some bytes)
  unfolding execute_write written_fields hset cached read_blob
  written-cached s i bytes now meta named =
      ground (arith, get-put_self s.blobs (digest bytes) bytes)

-- The content was committed to file `i`, and nothing else happened.
pub record Committed {Provenance : Type 0} (digest : Bytes → String) (i : ℕ) (content : Bytes)
    (provenance : Provenance) (s s' : Store Provenance) : Type 0 where
  pub read : content_of digest s'.space i ≡ ok content
  pub own :
      inode s'.space i
      ≡ some (record (hash_of s.space i) {
        content_hash = some (digest content);
        size = some (length content);
        content_state = some "generated";
      })
  pub origin : Dict.get s'.blob_meta (digest content) ≡ some provenance
  pub hashes : (j : ℕ) → i ≢ j → inode s'.space j ≡ inode s.space j
  pub blobs :
      (h : String) → digest content ≢ h → Dict.get s'.space.blobs h ≡ Dict.get s.space.blobs h
  pub origins : (h : String) → digest content ≢ h → Dict.get s'.blob_meta h ≡ Dict.get s.blob_meta h
  pub contents :
      (j : ℕ)
      → i ≢ j
      → digest content ≢ get_or "" (hash_of s.space j).content_hash
      → content_of digest s'.space j ≡ content_of digest s.space j
  pub tree : s'.space.dirs ≡ s.space.dirs
  pub leases : s'.space.generating ≡ s.space.generating
  pub counter : s'.space.next_inode ≡ s.space.next_inode
  pub initialized : s'.space.initialized ≡ s.space.initialized
  pub allocated : s'.space.bytes_allocated ≡ s.space.bytes_allocated

put-apart {ℓ} :
    {A : Type ℓ} (d : Dict String A) (key h : String) (value : A)
    → key ≢ h
    → Dict.get (Dict.put d key value) h ≡ Dict.get d h
put-apart d key h value ne = elim (Bool-cases (key == h)) [
  | inl is ↦ absurd (ne ((string_eq.beq_iff key h).0 is))
  | inr other ↦ rw (get-put, other) refl
]

-- Other blobs give what they gave.
stored-blobs :
    (digest : Bytes → String) (s s' : Namespace) (hash : Option String)
    → Dict.get s'.blobs (get_or "" hash) ≡ Dict.get s.blobs (get_or "" hash)
    → stored digest s' hash ≡ stored digest s hash
unfolding stored read_blob
stored-blobs digest s s' none same = refl
stored-blobs digest s s' (some hash) same =
    ap
      (λ (o : Option Bytes).
        if is_empty hash then ok [] else (elim o [ none ↦ err eio | some value ↦ ok value ]))
      same

module _ {Provenance : Type 0} (digest : Bytes → String)
    (named : (b : Bytes) → is_empty (digest b) ≡ false) where
  -- A write to a file during its generation wins: once the write is executed, no commit of the
  -- generation changes anything, under whatever token and revision, and what the generation's
  -- reader gets are the bytes written.
  pub write_supersedes :
      (s : Store Provenance) (i : ℕ) (bytes : Bytes) (now : ℕ) (token : String) (revision : ℕ)
      (content : Bytes) (provenance : Provenance) (race : Option (Store Provenance))
      → let written = record s { space = execute_write digest i bytes now s.space } in
        commit digest i token revision content provenance race written ≡ (ok (some bytes), written)
  unfolding commit
  write_supersedes s i bytes now token revision content provenance race =
      let old = get_or no_fields (Dict.get s.space.inodes i) in
      ground (
        arith,
        written-inode digest s.space i bytes now,
        written-holds digest s.space i bytes now token,
        written-cached digest s.space i bytes now old (named bytes),
      )

  commit-cases :
      (s : Store Provenance) (i : ℕ) (token : String) (revision : ℕ) (content : Bytes)
      (provenance : Provenance)
      → ((commit digest i token revision content provenance none s).1 ≡ s)
        ⊎ ((commit digest i token revision content provenance none s
              ≡ (ok (some content), execute_commit digest i content provenance s))
            × (Dict.get s.space.generating i ≡ some token)
            × (get_or 0 (hash_of s.space i).revision ≡ revision)
            × (is_empty (get_or "" (hash_of s.space i).content_hash) ≡ true))
  unfolding commit inode holds
  commit-cases s i token revision content provenance =
      elim (Option-cases (Dict.get s.space.generating i)) [
        | inl e ↦ ground arith
        | inr (t, e) ↦ ground (
          arith,
          string_eq.beq_iff t token,
          nat_beq_iff (get_or 0 (hash_of s.space i).revision) revision,
        )
      ]

  executed :
      (s : Store Provenance) (i : ℕ) (content : Bytes) (provenance : Provenance)
      → Committed digest i content provenance s (execute_commit digest i content provenance s)
  unfolding execute_commit hset inode stored read_blob
  executed s i content provenance =
      let meta = record (hash_of s.space i) {
        content_hash = some (digest content);
        size = some (length content);
        content_state = some "generated";
      } in
      record {
        read = ground (
          arith,
          get-put_self s.space.inodes i meta,
          get-put_self s.space.blobs (digest content) content,
          named content,
        );
        own = get-put_self s.space.inodes i meta;
        origin = get-put_self s.blob_meta (digest content) provenance;
        hashes = λ j ne. ground (arith, get-put s.space.inodes i j meta, nat_eq.beq_iff i j);
        blobs = λ h ne. put-apart s.space.blobs (digest content) h content ne;
        origins = λ h ne. put-apart s.blob_meta (digest content) h provenance ne;
        contents = λ j ne apart.
            let same : inode (execute_commit digest i content provenance s).space j
                ≡ inode s.space j =
              ground (arith, get-put s.space.inodes i j meta, nat_eq.beq_iff i j) in
            let s' = (execute_commit digest i content provenance s).space in
            ap (λ (h : Option Inode). stored digest s' (get_or no_fields h).content_hash) same
            ∙ stored-blobs digest s.space s' (hash_of s.space j).content_hash
                (put-apart s.space.blobs (digest content) _ content apart);
        tree = refl;
        leases = refl;
        counter = refl;
        initialized = refl;
        allocated = refl;
      }

  -- Without a race a commit does nothing to the store, or it is of a file that had no content, at
  -- the lease and the revision it was begun with. Then the reader gets the generated bytes, and the
  -- file has them, under the given provenance and with their digest, size and state in its hash, of
  -- which no other field changes. All else is as it was: the hash of every other file, the blobs and
  -- provenances under other digests, so the content of every other file whose hash is not the digest
  -- of the generated bytes, the directories, the leases, the counters and the mark of initialization.
  pub commit_fenced :
      (s : Store Provenance) (i : ℕ) (token : String) (revision : ℕ) (content : Bytes)
      (provenance : Provenance)
      → let (result, s') = commit digest i token revision content provenance none s in
        (s' ≡ s)
        ⊎ ((result ≡ ok (some content))
            × (Dict.get s.space.generating i ≡ some token)
            × (get_or 0 (hash_of s.space i).revision ≡ revision)
            × (is_empty (get_or "" (hash_of s.space i).content_hash) ≡ true)
            × Committed digest i content provenance s s')
  commit_fenced s i token revision content provenance =
      elim (commit-cases s i token revision content provenance) [
        | inl h ↦ inl h
        | inr (done, lease, same, bare) ↦
            rw done (inr (refl, lease, same, bare, executed s i content provenance))
      ]

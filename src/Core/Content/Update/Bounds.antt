-- ===== src/Core/Content/Update/Bounds.antt =====
-- The limits on a file's size and on a session's allocations hold through every update.
use apate.Prelude.{
  ℕ, ◌+◌, ◌≤◌, String, ◌≡◌, inl, inr, true, Option, none, some, List, arith, ltb, nat_eq, string_eq,
  Bool-cases, length, All, pos, negsuc, ap,
}
use apate.Dict
use apate.Dict.{get-put}
use apate.Core.Errno.{ok, Result-cases, ok-injective}
use apate.Core.Namespace.{Inode, Namespace, inode, is_reg, hset}
use apate.Core.Content.{
  Bytes, max_file_bytes, max_session_blob_bytes, read_blob, Change, write, truncate, splice,
  resized, edit, stored, new_content, mutate_content, execute_write,
}
use apate.Core.Content.Splice.{length-splice, length-resized}
use apate.Core.Content.Update.{rounds_induction}

-- No blob passes 1 MiB, and the allocations of the session do not pass 16 MiB.
pub record IsBounded (s : Namespace) : Type 0 where
  pub blob : (h : String) (b : Bytes) → Dict.get s.blobs h ≡ some b → length b ≤ max_file_bytes
  pub allocated : s.bytes_allocated ≤ max_session_blob_bytes

-- An edit that passed the checks makes no file longer than 1 MiB out of one that is not.
edit-bounded :
    (change : Change) (f : Bytes → Bytes) (old : Bytes)
    → edit change ≡ ok f
    → length old ≤ max_file_bytes
    → length (f old) ≤ max_file_bytes
unfolding edit
edit-bounded (write buf (pos offset)) f old e h =
    elim (Bool-cases (ltb max_file_bytes (offset + length buf))) [
      | inl over ↦ absurd (ground arith)
      | inr fits ↦
          let g : splice buf offset ≡ f = ok-injective (rw fits at e) in
          rw (← g) (ground (arith, length-splice buf old offset))
    ]
edit-bounded (write buf (negsuc n)) f old e h = absurd (cc)
edit-bounded (truncate (pos n)) f old e h = elim (Bool-cases (ltb max_file_bytes n)) [
  | inl over ↦ absurd (ground arith)
  | inr fits ↦
      let g : resized n ≡ f = ok-injective (rw fits at e) in
      rw (← g) (ground (arith, length-resized n old))
]
edit-bounded (truncate (negsuc n)) f old e h = absurd (cc)

module _ (digest : Bytes → String) where
  stored-bounded :
      (s : Namespace) (hash : Option String) (old : Bytes)
      → IsBounded s
      → stored digest s hash ≡ ok old
      → length old ≤ max_file_bytes
  unfolding stored read_blob
  stored-bounded s none old b h = ground arith
  stored-bounded s (some hash) old b h = ground (arith, b.blob hash old)

  -- What a round is about to write.
  pub record IsNew (i : ℕ) (f : Bytes → Bytes) (s : Namespace) (content : Bytes) : Type 0 where
    pub meta : Inode
    pub mode : ℕ
    pub old : Bytes
    pub found : inode s i ≡ some meta
    pub has_mode : meta.mode ≡ some mode
    pub regular : is_reg mode ≡ true
    pub before : stored digest s meta.content_hash ≡ ok old
    pub after : content ≡ f old
    pub room : s.bytes_allocated + length content ≤ max_session_blob_bytes

  pub new_content-IsNew :
      (i : ℕ) (f : Bytes → Bytes) (s : Namespace) (content : Bytes)
      → new_content digest i f s ≡ ok content
      → IsNew i f s content
  unfolding new_content
  new_content-IsNew i f s content h = ground arith

  execute_write-IsBounded :
      (i : ℕ) (change : Change) (f : Bytes → Bytes) (now : ℕ) (content : Bytes) (s : Namespace)
      → edit change ≡ ok f
      → IsBounded s
      → IsNew i f s content
      → IsBounded (execute_write digest i content now s)
  unfolding execute_write hset
  execute_write-IsBounded i change f now content s e b n =
      let old-fits = stored-bounded s n.meta.content_hash n.old b n.before in
      let fits = edit-bounded change f n.old e old-fits in
      record {
        blob = λ h c found. ground (
          arith,
          n.after,
          ap (length {A = ℕ}) n.after,
          get-put s.blobs (digest content) h content,
          b.blob h c,
        );
        allocated = n.room;
      }

  -- From a bounded namespace, with every other client's writes bounded too, an update ends in a
  -- bounded namespace, whether it succeeds or raises: no blob passes 1 MiB and the session's
  -- allocations do not pass 16 MiB.
  pub mutate_content-IsBounded :
      (i : ℕ) (change : Change) (now : ℕ) (races : List Namespace) (s : Namespace)
      → IsBounded s
      → All IsBounded races
      → IsBounded (mutate_content digest i change now races s).1
  unfolding mutate_content
  mutate_content-IsBounded i change now races s b bs = elim (Result-cases (edit change)) [
    | inl (e, h) ↦ rw (h, mutate_content) b
    | inr (f, h) ↦
        rw (h, mutate_content)
          (rounds_induction digest i f now IsBounded (λ r. IsBounded r.1) (λ e s' q. q)
            (λ content s' q new.
              execute_write-IsBounded i change f now content s' h q
                (new_content-IsNew i f s' content new))
            32 races s b bs)
  ]

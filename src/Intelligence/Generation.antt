-- ===== src/Intelligence/Generation.antt =====
-- src/chronos/intelligence/orchestrator.py: a file's content is generated once, under a lease, and
-- committed only if nothing superseded it. `digest` stands for hashlib.sha256(...).hexdigest(),
-- and `Provenance` for what ProvenanceRecord.to_dict writes. The generation's content comes from
-- the renderer, the fallback and the model, whose results are given (`Facts`, `ModelCall`).
mod Production
pub mod Budget
pub mod Commits
pub mod Tests
unfoldable pub use Production.*
use apate.Prelude.{
  size, ℕ, suc, String, Bool, true, false, not, ◌||◌, Option, none, some, List, [], ◌∷◌, leb,
  nat_beq, if◌then◌else◌, ◌==◌, nat_eq, string_eq, get_or, is_some, length, take, contains,
  is_empty, ◌*◌,
}
use apate.Dict
use apate.Dict.{Dict}
use apate.Core.Errno.{key_error, eisdir, enoent, Result, ok, err, ◌>>=◌}
use apate.Core.Namespace.{Inode, Namespace, inode, hset, is_reg}
use apate.Core.Content.{Bytes, read_blob}

abbrev pub Contents : Type 0
Contents = Result (Option Bytes)

-- `_cached`
unfoldable pub cached : Namespace → Inode → Contents
cached s meta = elim meta.content_hash [
  | none ↦ ok none
  | some hash ↦ if is_empty hash then ok none else (read_blob s hash >>= λ b. ok (some b))
]

unfoldable pub is_generated_class : Option String → Bool
is_generated_class none = false
is_generated_class (some c) = contains ("ai_backed" ∷ deterministic ∷ []) c

abbrev has_content : Inode → Bool
has_content meta = not (is_empty (get_or "" meta.content_hash))

-- The lease is still held under this token.
unfoldable pub holds : ℕ → String → Namespace → Bool
holds i token s = elim (Dict.get s.generating i) [ none ↦ false | some t ↦ t == token ]

-- `get_or_generate`: what a read of the file gives before any generation, or `none` when one has
-- to be submitted.
unfoldable pub read_ready : ℕ → Namespace → Option Contents
read_ready i s = elim (inode s i) [
  | none ↦ some (err enoent)
  | some meta ↦ elim meta.mode [
    | none ↦ some (err key_error)
    | some mode ↦ if not (is_reg mode) then some (err eisdir) else elim (cached s meta) [
      | err e ↦ some (err e)
      | ok (some b) ↦ some (ok (some b))
      | ok none ↦ if is_generated_class meta.manifest_class then none else some (ok (some []))
    ]
  ]
]

-- The namespace, and the hashes fs:blob_meta:<digest>.
pub record Store (Provenance : Type 0) : Type 0 where
  pub space : Namespace
  pub blob_meta : Dict String Provenance

module _ {Provenance : Type 0} (digest : Bytes → String) where
  -- The commands between `pipe.multi()` and `pipe.execute()`.
  unfoldable pub execute_commit : ℕ → Bytes → Provenance → Store Provenance → Store Provenance
  execute_commit i content provenance s = record {
    space =
        hset (record s.space { blobs = Dict.put s.space.blobs (digest content) content }) i
          (λ meta. record meta {
            content_hash = some (digest content);
            size = some (length content);
            content_state = some "generated";
          });
    blob_meta = Dict.put s.blob_meta (digest content) provenance;
  }

  -- `_commit`. `race` is the store that another client's write to the file or its lease leaves
  -- between the reads and the commit, which then fails with WatchError.
  unfoldable pub commit :
      ℕ
      → String
      → ℕ
      → Bytes
      → Provenance
      → Option (Store Provenance)
      → Store Provenance
      → Contents × Store Provenance
  commit i token revision content provenance race s = elim (inode s.space i) [
    | none ↦ (err enoent, s)
    | some meta ↦
        if not (holds i token s.space)
          || not (nat_beq (get_or 0 meta.revision) revision)
          || has_content meta
        then (cached s.space meta, s)
        else elim race [
          | some s' ↦ (ok none, s')
          | none ↦ (ok (some content), execute_commit i content provenance s)
        ]
  ]

  -- The script of the `finally` clause.
  unfoldable pub release : ℕ → String → Store Provenance → Store Provenance
  release i token s =
      if holds i token s.space
      then record s { space = record s.space { generating = Dict.remove s.space.generating i } }
      else s

  -- SET fs:generating:<i> <token> NX EX 120, which succeeds
  unfoldable pub take_lease : ℕ → String → Store Provenance → Store Provenance
  take_lease i token s = record s {
    space = record s.space { generating = Dict.put s.space.generating i token };
  }

  -- The body of the `try` of `_resolve`, its claim made. `content` and `provenance` are what
  -- `produce` and ProvenanceRecord make for the file's class, `meanwhile` what other clients do
  -- during the generation, and the end of the lease after its 120 seconds.
  unfoldable pub generate_claimed :
      ℕ
      → String
      → (String → Bytes)
      → (String → Provenance)
      → (Store Provenance → Store Provenance)
      → Option (Store Provenance)
      → Store Provenance
      → Contents × Store Provenance
  generate_claimed i token content provenance meanwhile race s = elim (inode s.space i) [
    | none ↦ (err enoent, s)
    | some meta ↦ elim (cached s.space meta) [
      | err e ↦ (err e, s)
      | ok (some b) ↦ (ok (some b), s)
      | ok none ↦
          let c = get_or "" meta.manifest_class in
          if not (is_generated_class meta.manifest_class)
          then (ok (some []), s)
          else commit i token (get_or 0 meta.revision) (content c) (provenance c) race (meanwhile s)
    ]
  ]

  -- One pass of the waiting loop of `_resolve`: what it does at the store `s`, and `next` when it
  -- goes on waiting.
  unfoldable pub claim_or_wait :
      ℕ
      → String
      → (String → Bytes)
      → (String → Provenance)
      → (Store Provenance → Store Provenance)
      → Option (Store Provenance)
      → Contents × Store Provenance
      → Store Provenance
      → Contents × Store Provenance
  claim_or_wait i token content provenance meanwhile race next s =
      elim (Dict.get s.space.generating i) [
        | none ↦
            let (result, s') =
              generate_claimed i token content provenance meanwhile race (take_lease i token s) in
            (result, release i token s')
        | some owner ↦ elim (inode s.space i) [
          | none ↦ (err enoent, s)
          | some meta ↦ elim (cached s.space meta) [
            | err e ↦ (err e, s)
            | ok (some b) ↦ (ok (some b), s)
            | ok none ↦ next
          ]
        ]
      ]

  -- `_resolve`. `later` are the stores at the further tries to take the lease; after the last the
  -- deadline has passed.
  unfoldable pub resolve :
      ℕ
      → String
      → (String → Bytes)
      → (String → Provenance)
      → (Store Provenance → Store Provenance)
      → Option (Store Provenance)
      → List (Store Provenance)
      → Store Provenance
      → Contents × Store Provenance
  resolve i token content provenance meanwhile race [] s =
      claim_or_wait i token content provenance meanwhile race (ok none, s) s
  resolve i token content provenance meanwhile race (s' ∷ later) s =
      claim_or_wait i token content provenance meanwhile race
        (resolve i token content provenance meanwhile race later s') s

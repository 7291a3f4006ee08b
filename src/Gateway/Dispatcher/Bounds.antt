-- ===== src/Gateway/Dispatcher/Bounds.antt =====
-- What a command line returns: within its limit, and after the short circuits.
use apate.Prelude.{
  ℕ, ◌≤◌, String, ◌≡◌, refl, true, some, List, [], ◌∷◌, ◌++◌, map, arith, nat_eq, string_eq, length,
  inl, inr, ltb, Bool-cases,
}
use apate.Core.Content.{Bytes}
use apate.Gateway.Parser.{PipelineNode, SequenceNode}
use apate.Gateway.Environment.{encode, Outcome, max_io_bytes}
use apate.Gateway.Dispatcher.{is_skipped, Chars, sequence_loop, execute_sequence}

short_message : length (encode "bash: output limit exceeded\n") ≤ max_io_bytes
unfolding encode
short_message = omega arith

short_refusal : length (encode "bash: command limit exceeded\n") ≤ max_io_bytes
unfolding encode
short_refusal = omega arith

module _ {S : Type 0} (execute : PipelineNode → S → Outcome × S) (decode : Bytes → Chars) where
  sequence_loop-bounded :
      (sequence : SequenceNode) (last : ℕ) (output : Chars) (s : S)
      → length output ≤ max_io_bytes
      → length (sequence_loop execute decode sequence last output s).0.1 ≤ max_io_bytes
  unfolding sequence_loop
  sequence_loop-bounded [] last output s h = h
  sequence_loop-bounded ((pipeline, operator) ∷ rest) last output s h =
      let (o, s') = execute pipeline s in
      let output' = output ++ (decode o.1 ++ decode o.2) in
      elim (Bool-cases (is_skipped operator last)) [
        | inl e ↦ rw e (sequence_loop-bounded rest last output s h)
        | inr e ↦ elim (Bool-cases (ltb max_io_bytes (length output'))) [
          | inl l ↦ rw (e, l) short_message
          | inr l ↦ rw (e, l) (sequence_loop-bounded rest o.0 output' s' (ground arith))
        ]
      ]

  -- Whatever the commands print, a command line's output has at most MAX_IO_BYTES characters.
  pub execute_sequence-bounded :
      (sequence : SequenceNode) (s : S)
      → length (execute_sequence execute decode sequence s).0.1 ≤ max_io_bytes
  unfolding execute_sequence
  execute_sequence-bounded sequence s = elim (Bool-cases (ltb 64 (length sequence))) [
    | inl e ↦ rw e short_refusal
    | inr e ↦ rw e (sequence_loop-bounded sequence 0 [] s (omega arith))
  ]

  -- After a code other than 0 a chain of `&&` runs nothing up to the next other operator, after 0 a
  -- chain of `||`: the line goes on as if the chain were not there.
  short_circuits :
      (chain : List PipelineNode) (rest : SequenceNode) (last : ℕ) (output : Chars) (s : S)
      (op : String)
      → is_skipped (some op) last ≡ true
      → sequence_loop execute decode (map (λ p. (p, some op)) chain ++ rest) last output s
        ≡ sequence_loop execute decode rest last output s
  unfolding sequence_loop
  short_circuits [] rest last output s op h = refl
  short_circuits (p ∷ chain) rest last output s op h =
      rw (h, short_circuits chain rest last output s op h) refl

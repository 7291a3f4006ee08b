-- ===== src/Gateway/Parser/Lines.antt =====
-- A whole command line is parsed back.
use apate.Prelude.{
  append-nil, append_assoc, String, ◌≡◌, refl, ap, ◌∙◌, ◌≢◌, true, false, Option, none, some, List,
  [], ◌∷◌, ◌++◌, nat_eq, string_eq, All, All-append,
}
use apate.Gateway.Parser.{
  CommandNode, PipelineNode, SequenceNode, parsed, is_operator, parse_pipeline, pending_pipeline,
  before, sequence_from, parse_sequence,
}
use apate.Gateway.Parser.RoundTrip.{
  IsInner, command_tokens, IsCommand, pipeline_tokens, IsPipeline, sequence_tokens, IsTail, IsLine,
  parse_pipeline-tokens,
}

operators_out : (ts : List String) → All IsInner ts → All (λ t. is_operator t ≡ false) ts
operators_out [] all = tt
operators_out (t ∷ ts) (inner, all) = (inner.0, operators_out ts all)

append-cons_some : (xs : List String) (y : String) (ys : List String) → xs ++ y ∷ ys ≢ []
append-cons_some [] y ys h = cc
append-cons_some (x ∷ xs) y ys h = cc

-- No token of a pipeline is an operator, and it has one.
inner_tokens :
    (c : CommandNode) (cs : PipelineNode)
    → IsCommand c
    → All IsCommand cs
    → All (λ t. is_operator t ≡ false) (pipeline_tokens (c ∷ cs)) × (pipeline_tokens (c ∷ cs) ≢ [])
unfolding pipeline_tokens is_operator
inner_tokens c [] (args, inner, some_token) all =
    (operators_out (command_tokens c) inner, some_token)
inner_tokens c (d ∷ cs) (args, inner, some_token) (next, all) =
    let ts = command_tokens c in
    let more = pipeline_tokens (d ∷ cs) in
    (
      All-append (λ t. is_operator t ≡ false) ts ("|" ∷ more) (operators_out ts inner)
          (refl, (inner_tokens d cs next all).0),
      append-cons_some ts "|" more,
    )

sequence_from-inner :
    (ts rest : List String) (op : Option String) (current : List String)
    → All (λ t. is_operator t ≡ false) ts
    → sequence_from current op (ts ++ rest) ≡ sequence_from (current ++ ts) op rest
unfolding sequence_from
sequence_from-inner [] rest op current all = rw append-nil refl
sequence_from-inner (t ∷ ts) rest op current (inner, all) =
    rw (inner, sequence_from-inner ts rest op (current ++ t ∷ []) all, append_assoc) refl

pending-tokens :
    (ts : List String) (op : Option String) (p : PipelineNode)
    → ts ≢ []
    → parse_pipeline ts ≡ parsed p
    → pending_pipeline ts op ≡ parsed ((p, op) ∷ [])
unfolding pending_pipeline
pending-tokens [] op p some_token e = absurd (some_token refl)
pending-tokens (t ∷ ts) op p some_token e = rw e refl

at_end :
    (current : List String) (op : Option String)
    → sequence_from current op [] ≡ pending_pipeline current op
unfolding sequence_from
at_end current op = refl

at_operator :
    (o : String) (current rest : List String) (op : Option String)
    → is_operator o ≡ true
    → sequence_from current op (o ∷ rest)
      ≡ before (pending_pipeline current op) (sequence_from [] (some o) rest)
unfolding sequence_from
at_operator o current rest op h = rw h refl

pipeline_then :
    (p : PipelineNode) (op : Option String) (rest : SequenceNode)
    → IsPipeline p
    → IsTail rest
    → sequence_from [] op (pipeline_tokens p ++ sequence_tokens rest) ≡ parsed ((p, op) ∷ rest)
unfolding sequence_tokens
pipeline_then [] op rest (all, some_command) tail = absurd (some_command refl)
pipeline_then (c ∷ cs) op [] ((first, all), some_command) tail =
    let ts = pipeline_tokens (c ∷ cs) in
    let (inner, some_token) = inner_tokens c cs first all in
    sequence_from-inner ts [] op [] inner
    ∙ at_end ts op
    ∙ pending-tokens ts op (c ∷ cs) some_token
        (parse_pipeline-tokens (c ∷ cs) ((first, all), some_command))
pipeline_then (c ∷ cs) op ((q, none) ∷ rest) whole tail = absurd tail
pipeline_then (c ∷ cs) op ((q, some o) ∷ rest) ((first, all), some_command) (is_op, next, tail) =
    let ts = pipeline_tokens (c ∷ cs) in
    let (inner, some_token) = inner_tokens c cs first all in
    sequence_from-inner ts (o ∷ pipeline_tokens q ++ sequence_tokens rest) op [] inner
    ∙ at_operator o ts (pipeline_tokens q ++ sequence_tokens rest) op is_op
    ∙ ap (λ x. before x (sequence_from [] (some o) (pipeline_tokens q ++ sequence_tokens rest)))
        (pending-tokens ts op (c ∷ cs) some_token
          (parse_pipeline-tokens (c ∷ cs) ((first, all), some_command)))
    ∙ ap (before (parsed ((c ∷ cs, op) ∷ []))) (pipeline_then q (some o) rest next tail)

pending_none : pending_pipeline [] none ≡ parsed []
unfolding pending_pipeline
pending_none = refl

-- A well-formed tree printed as tokens is parsed back as itself.
pub parse_sequence-tokens :
    (line : SequenceNode) → IsLine line → parse_sequence (sequence_tokens line) ≡ parsed line
unfolding parse_sequence sequence_tokens
parse_sequence-tokens [] h = at_end [] none ∙ pending_none
parse_sequence-tokens ((p, none) ∷ rest) (pipeline, tail) = pipeline_then p none rest pipeline tail
parse_sequence-tokens ((p, some op) ∷ rest) h = absurd h

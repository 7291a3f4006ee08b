-- ===== src/Gateway/Parser/RoundTrip.antt =====
-- Printing a tree as tokens, and parsing its commands and pipelines back.
use apate.Prelude.{
  append-nil, String, ◌≡◌, refl, ◌≢◌, Bool, true, false, Option, none, some, List, [], ◌∷◌, ◌++◌,
  ◌==◌, nat_eq, string_eq, All, append_assoc, sym, ap, ◌∙◌,
}
use apate.Gateway.Parser.{
  CommandNode, PipelineNode, SequenceNode, parsed, is_redirect, is_operator, command_from,
  parse_command, piped, pipeline_from, no_command, redirected, with_arg, parse_pipeline,
}

-- A token that divides no pipeline and no sequence.
abbrev pub IsInner : String → Type 0
IsInner t = (is_operator t ≡ false) × ((t == "|") ≡ false)

abbrev pub IsArgument : String → Type 0
IsArgument t = IsInner t × (is_redirect t ≡ false)

abbrev pub out_tokens : String → String → Option (String × Bool) → List String
out_tokens op twice none = []
out_tokens op twice (some (target, false)) = op ∷ target ∷ []
out_tokens op twice (some (target, true)) = twice ∷ target ∷ []

abbrev pub in_tokens : Option String → List String
in_tokens none = []
in_tokens (some target) = "<" ∷ target ∷ []

abbrev pub redirect_tokens : CommandNode → List String
redirect_tokens c =
    out_tokens ">" ">>" c.redirect_out
    ++ (in_tokens c.redirect_in ++ out_tokens "2>" "2>>" c.redirect_err)

unfoldable pub command_tokens : CommandNode → List String
command_tokens c = c.args ++ redirect_tokens c

abbrev pub IsCommand : CommandNode → Type 0
IsCommand c = All IsArgument c.args × All IsInner (command_tokens c) × (command_tokens c ≢ [])

unfoldable pub pipeline_tokens : PipelineNode → List String
pipeline_tokens [] = []
pipeline_tokens (c ∷ []) = command_tokens c
pipeline_tokens (c ∷ d ∷ cs) = command_tokens c ++ "|" ∷ pipeline_tokens (d ∷ cs)

abbrev pub IsPipeline : PipelineNode → Type 0
IsPipeline p = All IsCommand p × (p ≢ [])

unfoldable pub sequence_tokens : SequenceNode → List String
sequence_tokens [] = []
sequence_tokens ((p, none) ∷ rest) = pipeline_tokens p ++ sequence_tokens rest
sequence_tokens ((p, some op) ∷ rest) = op ∷ pipeline_tokens p ++ sequence_tokens rest

abbrev pub IsTail : SequenceNode → Type 0
IsTail [] = Unit
IsTail ((p, none) ∷ rest) = ⊥
IsTail ((p, some op) ∷ rest) = (is_operator op ≡ true) × IsPipeline p × IsTail rest

abbrev pub IsLine : SequenceNode → Type 0
IsLine [] = Unit
IsLine ((p, none) ∷ rest) = IsPipeline p × IsTail rest
IsLine ((p, some op) ∷ rest) = ⊥

command_from-args :
    (ws rest : List String) (c : CommandNode)
    → All IsArgument ws
    → command_from none c (ws ++ rest) ≡ command_from none (record c { args = c.args ++ ws }) rest
unfolding command_from
command_from-args [] rest c all = rw append-nil refl
command_from-args (a ∷ ws) rest c (plain, all) =
    rw (plain.1, command_from-args ws rest (with_arg a c) all, append_assoc) refl

command_from-redirects :
    (c : CommandNode) (o e : Option (String × Bool)) (i : Option String)
    → command_from none
        (record no_command { args = c.args })
        (out_tokens ">" ">>" o ++ (in_tokens i ++ out_tokens "2>" "2>>" e))
      ≡ parsed (record { args = c.args; redirect_out = o; redirect_in = i; redirect_err = e })
unfolding command_from is_redirect redirected
command_from-redirects c none none none = refl
command_from-redirects c none none (some i) = refl
command_from-redirects c none (some (e, false)) none = refl
command_from-redirects c none (some (e, false)) (some i) = refl
command_from-redirects c none (some (e, true)) none = refl
command_from-redirects c none (some (e, true)) (some i) = refl
command_from-redirects c (some (o, false)) none none = refl
command_from-redirects c (some (o, false)) none (some i) = refl
command_from-redirects c (some (o, false)) (some (e, false)) none = refl
command_from-redirects c (some (o, false)) (some (e, false)) (some i) = refl
command_from-redirects c (some (o, false)) (some (e, true)) none = refl
command_from-redirects c (some (o, false)) (some (e, true)) (some i) = refl
command_from-redirects c (some (o, true)) none none = refl
command_from-redirects c (some (o, true)) none (some i) = refl
command_from-redirects c (some (o, true)) (some (e, false)) none = refl
command_from-redirects c (some (o, true)) (some (e, false)) (some i) = refl
command_from-redirects c (some (o, true)) (some (e, true)) none = refl
command_from-redirects c (some (o, true)) (some (e, true)) (some i) = refl

parse_command-tokens :
    (c : CommandNode) → All IsArgument c.args → parse_command (command_tokens c) ≡ parsed c
unfolding parse_command command_tokens
parse_command-tokens c all =
    command_from-args c.args (redirect_tokens c) no_command all
    ∙ command_from-redirects c c.redirect_out c.redirect_err c.redirect_in

pipeline_from-inner :
    (ts rest : List String) (begun : Bool) (current : List String)
    → All IsInner ts
    → pipeline_from begun current (ts ++ rest) ≡ pipeline_from begun (current ++ ts) rest
unfolding pipeline_from
pipeline_from-inner [] rest begun current all = rw append-nil refl
pipeline_from-inner (t ∷ ts) rest begun current (inner, all) =
    rw (inner.1, pipeline_from-inner ts rest begun (current ++ t ∷ []) all, append_assoc) refl

piped-tokens :
    (ts : List String) (c : CommandNode) (cs : PipelineNode)
    → ts ≢ []
    → parse_command ts ≡ parsed c
    → piped ts (parsed cs) ≡ parsed (c ∷ cs)
piped-tokens [] c cs some_token e = absurd (some_token refl)
piped-tokens (t ∷ ts) c cs some_token e = rw e refl

last-tokens :
    (ts : List String) (begun : Bool) (c : CommandNode)
    → ts ≢ []
    → parse_command ts ≡ parsed c
    → pipeline_from begun ts [] ≡ parsed (c ∷ [])
unfolding pipeline_from
last-tokens [] begun c some_token e = absurd (some_token refl)
last-tokens (t ∷ ts) false c some_token e = rw e refl
last-tokens (t ∷ ts) true c some_token e = rw e refl

at_pipe :
    (current rest : List String) (begun : Bool)
    → pipeline_from begun current ("|" ∷ rest) ≡ piped current (pipeline_from true [] rest)
unfolding pipeline_from
at_pipe current rest begun = refl

pipeline_from-tokens :
    (c : CommandNode) (cs : PipelineNode) (begun : Bool)
    → IsCommand c
    → All IsCommand cs
    → pipeline_from begun [] (pipeline_tokens (c ∷ cs)) ≡ parsed (c ∷ cs)
unfolding pipeline_tokens
pipeline_from-tokens c [] begun (args, inner, some_token) all =
    let ts = command_tokens c in
    ap (pipeline_from begun []) (sym (append-nil ts))
    ∙ pipeline_from-inner ts [] begun [] inner
    ∙ last-tokens ts begun c some_token (parse_command-tokens c args)
pipeline_from-tokens c (d ∷ cs) begun (args, inner, some_token) (next, all) =
    let ts = command_tokens c in
    let more = pipeline_from-tokens d cs true next all in
    pipeline_from-inner ts ("|" ∷ pipeline_tokens (d ∷ cs)) begun [] inner
    ∙ at_pipe ts (pipeline_tokens (d ∷ cs)) begun
    ∙ ap (piped ts) more
    ∙ piped-tokens ts c (d ∷ cs) some_token (parse_command-tokens c args)

pub parse_pipeline-tokens :
    (p : PipelineNode) → IsPipeline p → parse_pipeline (pipeline_tokens p) ≡ parsed p
unfolding parse_pipeline
parse_pipeline-tokens [] (all, some_command) = absurd (some_command refl)
parse_pipeline-tokens (c ∷ cs) ((first, all), some_command) =
    pipeline_from-tokens c cs false first all

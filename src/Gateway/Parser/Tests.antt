-- ===== src/Gateway/Parser/Tests.antt =====
-- Command lines as trees, and the round trip at one.
use apate.Prelude.{String, ◌≡◌, refl, ◌≢◌, true, none, some, List, [], ◌∷◌, nat_eq, string_eq}
use apate.Gateway.Parser.{
  CommandNode, SequenceNode, Parsed, parsed, parser_error, newline_error, pipe_error, is_redirect,
  is_operator, redirected, command_from, parse_command, pipeline_from, parse_pipeline,
  pending_pipeline, sequence_from, parse_sequence,
}
use apate.Gateway.Parser.RoundTrip.{command_tokens, IsCommand, pipeline_tokens, sequence_tokens}
use apate.Gateway.Parser.Lines.{parse_sequence-tokens}

abbrev listing : CommandNode
listing = record {
  args = "ls" ∷ "-la" ∷ [];
  redirect_out = none;
  redirect_in = none;
  redirect_err = none;
}

abbrev counting : CommandNode
counting = record {
  args = "grep" ∷ "x" ∷ [];
  redirect_out = some ("out", true);
  redirect_in = some "in";
  redirect_err = none;
}

abbrev line : SequenceNode
line = (listing ∷ counting ∷ [], none) ∷ (listing ∷ [], some "&&") ∷ []

parse_tokens : List String → Parsed SequenceNode
unfolding parse_sequence sequence_from pending_pipeline parse_pipeline pipeline_from parse_command
    command_from redirected is_operator is_redirect command_tokens pipeline_tokens sequence_tokens
parse_tokens tokens = parse_sequence tokens

trailing_pipe : parse_tokens ("ls" ∷ "|" ∷ []) ≡ parser_error pipe_error
unfolding parse_tokens
trailing_pipe = refl

no_target : parse_tokens ("ls" ∷ ">" ∷ []) ≡ parser_error newline_error
unfolding parse_tokens
no_target = refl

empty_between :
    parse_tokens (";" ∷ "ls" ∷ "-la" ∷ ";" ∷ []) ≡ parsed ((listing ∷ [], some ";") ∷ [])
unfolding parse_tokens
empty_between = refl

some_tokens :
    (c : CommandNode) (t : String) (ts : List String)
    → command_tokens c ≡ t ∷ ts
    → command_tokens c ≢ []
some_tokens c t ts e h = cc

listing-IsCommand : IsCommand listing
unfolding parse_tokens
listing-IsCommand = (
  (((refl, refl), refl), (((refl, refl), refl), tt)),
  ((refl, refl), ((refl, refl), tt)),
  some_tokens listing "ls" ("-la" ∷ []) refl,
)

counting-IsCommand : IsCommand counting
unfolding parse_tokens
counting-IsCommand = (
  (((refl, refl), refl), (((refl, refl), refl), tt)),
  (
    (refl, refl),
    ((refl, refl), ((refl, refl), ((refl, refl), ((refl, refl), ((refl, refl), tt))))),
  ),
  some_tokens counting "grep" ("x" ∷ ">>" ∷ "out" ∷ "<" ∷ "in" ∷ []) refl,
)

parse_sequence-tokens_example : parse_sequence (sequence_tokens line) ≡ parsed line
unfolding parse_tokens
parse_sequence-tokens_example = parse_sequence-tokens line (
  ((listing-IsCommand, (counting-IsCommand, tt)), λ h. cc),
  (refl, ((listing-IsCommand, tt), λ h. cc), tt),
)

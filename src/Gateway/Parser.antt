-- ===== src/Gateway/Parser.antt =====
-- src/chronos/gateway/shell_parser.py: a command line's tokens become a tree of sequences,
-- pipelines and commands.
pub mod RoundTrip
pub mod Lines
pub mod Tests
use apate.Prelude.{
  ◌<◌, String, Bool, true, false, ◌&&◌, ◌||◌, Option, none, some, List, [], ◌∷◌, ◌++◌,
  if◌then◌else◌, ◌==◌, nat_eq, string_eq, contains,
}

pub record CommandNode : Type 0 where
  pub args : List String
  pub redirect_out : Option (String × Bool)
  pub redirect_in : Option String
  pub redirect_err : Option (String × Bool)

abbrev pub no_command : CommandNode
no_command = record { args = []; redirect_out = none; redirect_in = none; redirect_err = none }

abbrev pub PipelineNode : Type 0
PipelineNode = List CommandNode

-- Each pipeline with the operator that preceded it.
abbrev pub SequenceNode : Type 0
SequenceNode = List (PipelineNode × Option String)

-- A result, or ParserError with its message.
pub data Parsed {ℓ} (A : Type ℓ) : Type ℓ where
  parsed : A → Parsed A
  parser_error : String → Parsed A

infixl 5 ◌>>=◌
abbrev pub ◌>>=◌ {ℓ κ} : {A : Type ℓ} {B : Type κ} → Parsed A → (A → Parsed B) → Parsed B
parsed x >>= f = f x
parser_error m >>= f = parser_error m

abbrev pub newline_error : String
newline_error = "bash: syntax error near unexpected token 'newline'"

abbrev pub pipe_error : String
pipe_error = "bash: syntax error near unexpected token '|'"

unfoldable pub is_redirect : String → Bool
is_redirect token = contains (">" ∷ ">>" ∷ "<" ∷ "2>" ∷ "2>>" ∷ []) token

unfoldable pub is_operator : String → Bool
is_operator token = contains (";" ∷ "&&" ∷ "||" ∷ []) token

unfoldable pub redirected : String → String → CommandNode → CommandNode
redirected token target cmd =
    if token == ">"
    then record cmd { redirect_out = some (target, false) }
    else if token == ">>"
    then record cmd { redirect_out = some (target, true) }
    else if token == "<"
    then record cmd { redirect_in = some target }
    else if token == "2>"
    then record cmd { redirect_err = some (target, false) }
    else if token == "2>>"
    then record cmd { redirect_err = some (target, true) }
    else cmd

abbrev pub with_arg : String → CommandNode → CommandNode
with_arg token cmd = record cmd { args = cmd.args ++ token ∷ [] }

-- The loop of `_parse_command`. The option is a redirection that waits for its target.
unfoldable pub command_from : Option String → CommandNode → List String → Parsed CommandNode
command_from none cmd [] = parsed cmd
command_from (some token) cmd [] = parser_error newline_error
command_from none cmd (token ∷ rest) =
    let waits = command_from (some token) cmd rest in
    let argument = command_from none (with_arg token cmd) rest in
    if is_redirect token then waits else argument
command_from (some token) cmd (target ∷ rest) = command_from none (redirected token target cmd) rest

unfoldable pub parse_command : List String → Parsed CommandNode
parse_command tokens = command_from none no_command tokens

-- A pipe after the tokens of the current command, and what the rest makes.
abbrev pub piped : List String → Parsed PipelineNode → Parsed PipelineNode
piped [] following = parser_error pipe_error
piped (t ∷ current) following = do
  cmd ← parse_command (t ∷ current)
  commands ← following
  parsed (cmd ∷ commands)

-- The rest of the loop of `_parse_pipeline`: whether a command is there already, the tokens of the
-- current one, and the tokens to come.
unfoldable pub pipeline_from : Bool → List String → List String → Parsed PipelineNode
pipeline_from true [] [] = parser_error pipe_error
pipeline_from false [] [] = parsed []
pipeline_from begun (t ∷ current) [] = do cmd ← parse_command (t ∷ current); parsed (cmd ∷ [])
pipeline_from begun current (token ∷ rest) =
    let following = pipeline_from true [] rest in
    let longer = pipeline_from begun (current ++ token ∷ []) rest in
    if token == "|" then piped current following else longer

unfoldable pub parse_pipeline : List String → Parsed PipelineNode
parse_pipeline tokens = pipeline_from false [] tokens

-- The pipeline of the current tokens, if there are any.
unfoldable pub pending_pipeline : List String → Option String → Parsed SequenceNode
pending_pipeline [] op = parsed []
pending_pipeline (t ∷ current) op = do
  pipeline ← parse_pipeline (t ∷ current)
  parsed ((pipeline, op) ∷ [])

abbrev pub before : Parsed SequenceNode → Parsed SequenceNode → Parsed SequenceNode
before first following = do pipelines ← first; others ← following; parsed (pipelines ++ others)

unfoldable pub sequence_from : List String → Option String → List String → Parsed SequenceNode
sequence_from current op [] = pending_pipeline current op
sequence_from current op (token ∷ rest) =
    let following = sequence_from [] (some token) rest in
    let longer = sequence_from (current ++ token ∷ []) op rest in
    if is_operator token then before (pending_pipeline current op) following else longer

unfoldable pub parse_sequence : List String → Parsed SequenceNode
parse_sequence tokens = sequence_from [] none tokens

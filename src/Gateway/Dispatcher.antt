-- ===== src/Gateway/Dispatcher.antt =====
-- src/chronos/gateway/dispatcher.py, ASTDispatcher: how a parsed command line is run. `Files` are the
-- operating system's calls on the paths of redirections, with the flush at a file's closing counted
-- to its last write, `run` is the registry's `handle` and `expand` the environment's `expand_vars`,
-- and `decode` is bytes.decode("utf-8", errors="replace").
pub mod Bounds
pub mod Chained
pub mod Tests
use apate.Core.Action.{Action, on_result, then_do, give}
use apate.Prelude.{
  concat, ℕ, suc, String, Bool, false, not, ◌&&◌, ◌||◌, Option, none, some, List, [], ◌∷◌, ◌++◌,
  map, ltb, nat_beq, if◌then◌else◌, ◌==◌, nat_eq, string_eq, length, take, is_empty,
}
use apate.Core.Errno.{Errno, efbig, Result, ok, err}
use apate.Core.Content.{Bytes}
use apate.Gateway.Parser.{CommandNode, PipelineNode, SequenceNode}
use apate.Gateway.Environment.{encode, Outcome, max_io_bytes}

-- What the dispatcher asks of its surroundings, in states `S`.
pub record Files (S : Type 0) : Type 0 where
  pub expand : String → S → String
  pub resolve : String → S → Result String
  -- The mode is "ab" for true, "wb" for false.
  pub open_file : String → Bool → S → Result (Unit {0}) × S
  pub read_file : String → S → Result Bytes × S
  pub write_file : String → Bytes → S → Result (Unit {0}) × S
  pub run : String → List String → Bytes → S → Outcome × S
  pub strerror : Errno → String

module _ {S : Type 0} (files : Files S) where
  -- The path of a redirection's target.
  unfoldable pub target_path : String → Action S String
  target_path name s = (files.resolve (files.expand name s) s, s)

  -- One redirection of the outputs, opened before the command runs.
  unfoldable pub open_output : Option (String × Bool) → Action S (Option String)
  open_output none = give none
  open_output (some (name, append)) =
      then_do (target_path name)
        (λ path. then_do (files.open_file path append) (λ done. give (some path)))

  abbrev bounded_input : Bytes → Action S Bytes
  bounded_input bytes s = if ltb max_io_bytes (length bytes) then (err efbig, s) else (ok bytes, s)

  -- The input of a command: its redirection's, read up to the limit and one byte, or the pipe's.
  unfoldable pub open_input : Option String → Bytes → Action S Bytes
  open_input none stdin = give stdin
  open_input (some name) stdin =
      if is_empty name
      then give stdin
      else then_do (target_path name) (λ path.
        then_do (files.read_file path) (λ bytes. bounded_input (take (suc max_io_bytes) bytes)))

  unfoldable pub run_expanded : List String → Bytes → Action S Outcome
  run_expanded [] stdin s = (ok (0, [], []), s)
  run_expanded (cmd ∷ args) stdin s = let (o, s') = files.run cmd args stdin s in (ok o, s')

  -- An output goes to the file that it is redirected to, and nothing of it further.
  unfoldable pub put_output : Option String → Bytes → Action S Bytes
  put_output none bytes = give bytes
  put_output (some path) bytes = then_do (files.write_file path bytes) (λ done. give [])

  -- One command of a pipeline, from its input to its code, output and errors.
  unfoldable pub run_command : CommandNode → Bytes → Action S Outcome
  run_command cmd stdin s =
      let expanded = map (λ arg. files.expand arg s) cmd.args in
      then_do (open_output cmd.redirect_out)
        (λ out_path. then_do (open_output cmd.redirect_err) (λ err_path.
          then_do (open_input cmd.redirect_in stdin) (λ input.
            then_do (run_expanded expanded input) (λ (o : Outcome).
              then_do (put_output out_path o.1)
                (λ out. then_do (put_output err_path o.2) (λ errors. give (o.0, out, errors)))))))
        s

  -- The loop of `_execute_pipeline`.
  unfoldable pub pipe_from : List CommandNode → Outcome → Action S Outcome
  pipe_from [] sofar = give sofar
  pipe_from (cmd ∷ rest) (code, stdin, errors) =
      then_do (run_command cmd stdin) (λ (o : Outcome). pipe_from rest (o.0, o.1, errors ++ o.2))

  unfoldable pub execute_pipeline : PipelineNode → S → Outcome × S
  execute_pipeline pipeline s =
      let (result, s') = pipe_from pipeline (0, [], []) s in
      elim result [
        | ok o ↦ (o, s')
        | err e ↦ ((1, [], encode (concat "bash: " (concat (files.strerror e) "\n"))), s')
      ]

-- The condition of an operator on the code before it.
unfoldable pub is_skipped : Option String → ℕ → Bool
is_skipped none code = false
is_skipped (some op) code = (op == "&&" && not (nat_beq code 0)) || (op == "||" && nat_beq code 0)

-- A text as its character codes.
abbrev pub Chars : Type 0
Chars = List ℕ

module _ {S : Type 0} (execute : PipelineNode → S → Outcome × S) (decode : Bytes → Chars) where
  -- The loop of `execute_sequence`, from the last code and the output so far.
  unfoldable pub sequence_loop : SequenceNode → ℕ → Chars → S → (ℕ × Chars) × S
  sequence_loop [] last output s = ((last, output), s)
  sequence_loop ((pipeline, operator) ∷ rest) last output s =
      let (o, s') = execute pipeline s in
      let output' = output ++ (decode o.1 ++ decode o.2) in
      let skipped = sequence_loop rest last output s in
      let following = sequence_loop rest o.0 output' s' in
      if is_skipped operator last
      then skipped
      else if ltb max_io_bytes (length output')
      then ((1, encode "bash: output limit exceeded\n"), s')
      else following

  unfoldable pub execute_sequence : SequenceNode → S → (ℕ × Chars) × S
  execute_sequence sequence s =
      if ltb 64 (length sequence)
      then ((1, encode "bash: command limit exceeded\n"), s)
      else sequence_loop sequence 0 [] s

-- ===== src/Gateway/Dispatcher/Tests.antt =====
-- Lines over one file that a state holds, and instances of the theorems.
use apate.Prelude.{
  List, ◌⊎◌, concat, ℕ, ◌≤◌, ◌≡◌, refl, true, none, some, [], ◌∷◌, ◌++◌, if◌then◌else◌, ◌==◌,
  nat_eq, string_eq, length, is_empty,
}
use apate.Core.Action.{then_do}
use apate.Core.Errno.{ok, Errno}
use apate.Core.Content.{Bytes}
use apate.Gateway.Parser.{CommandNode, no_command, SequenceNode}
use apate.Gateway.Environment.{Outcome, encode, max_io_bytes}
use apate.Gateway.Dispatcher.{
  Files, target_path, open_output, open_input, run_expanded, put_output, run_command, pipe_from,
  execute_pipeline, is_skipped, Chars, sequence_loop, execute_sequence,
}
use apate.Gateway.Dispatcher.Bounds.{execute_sequence-bounded}
use apate.Gateway.Dispatcher.Chained.{
  last_code, last_output, all_errors, Chain, Stopped, execute_pipeline_chains,
}

-- The state is the content of the only file; `cat` prints its input, every other command fails.
abbrev one_file : Files Bytes
one_file = record {
  expand = λ arg s. arg;
  resolve = λ path s. ok path;
  open_file = λ path append s. (ok tt, if append then s else []);
  read_file = λ path s. (ok s, s);
  write_file = λ path bytes s. (ok tt, s ++ bytes);
  run = λ cmd args stdin s. (if cmd == "cat" then (0, stdin, []) else (1, [], 33 ∷ []), s);
  strerror = λ e. "error";
}

abbrev cat : CommandNode
cat = record no_command { args = "cat" ∷ []; redirect_in = some "file" }

abbrev save : CommandNode
save = record no_command { args = "cat" ∷ []; redirect_out = some ("file", true) }

abbrev ran : SequenceNode → Bytes → (ℕ × Chars) × Bytes
unfolding then_do execute_sequence sequence_loop is_skipped execute_pipeline pipe_from run_command
    put_output run_expanded open_input open_output target_path encode is_empty concat
ran line s = execute_sequence (execute_pipeline one_file) (λ b. b) line s

doubled : ran ((cat ∷ save ∷ [], none) ∷ []) (7 ∷ 8 ∷ []) ≡ ((0, []), 7 ∷ 8 ∷ 7 ∷ 8 ∷ [])
unfolding ran
doubled = refl

or_skipped : ran ((cat ∷ [], none) ∷ (save ∷ [], some "||") ∷ []) (7 ∷ []) ≡ ((0, 7 ∷ []), 7 ∷ [])
unfolding ran
or_skipped = refl

execute_sequence-bounded_example :
    length
      (execute_sequence (execute_pipeline one_file) (λ b. b) ((cat ∷ [], none) ∷ []) (7 ∷ [])).0.1
    ≤ max_io_bytes
execute_sequence-bounded_example =
    execute_sequence-bounded (execute_pipeline one_file) (λ b. b) ((cat ∷ [], none) ∷ []) (7 ∷ [])

execute_pipeline_chains_example :
    ((os : List Outcome) × (t : Bytes) × Chain one_file (cat ∷ save ∷ []) [] (7 ∷ []) os t
      × (execute_pipeline one_file (cat ∷ save ∷ []) (7 ∷ [])
          ≡ ((last_code 0 os, last_output [] os, all_errors os), t)))
    ⊎ ((e : Errno) × (t : Bytes) × Stopped one_file (cat ∷ save ∷ []) [] (7 ∷ []) e t
        × (execute_pipeline one_file (cat ∷ save ∷ []) (7 ∷ [])
            ≡ ((1, [], encode (concat "bash: " (concat "error" "\n"))), t)))
execute_pipeline_chains_example = execute_pipeline_chains one_file (cat ∷ save ∷ []) (7 ∷ [])

-- ===== src/Gateway/Dispatcher/Chained.antt =====
-- A pipeline as a chain of commands, each with its own input.
use apate.Prelude.{
  append_assoc, concat, append-nil, ℕ, ◌≡◌, refl, sym, ap, ◌⊎◌, inl, inr, List, [], ◌∷◌, ◌++◌,
  nat_eq, string_eq, ◌∙◌,
}
use apate.Core.Action.{then_do-ok, Action-cases, then_do}
use apate.Core.Errno.{Result, Errno, ok, err}
use apate.Core.Content.{Bytes}
use apate.Gateway.Parser.{CommandNode}
use apate.Gateway.Environment.{Outcome}
use apate.Gateway.Dispatcher.{encode, Files, run_command, pipe_from, execute_pipeline}

-- The code and the output that stand after some commands, and what they wrote as errors, in order.
abbrev pub last_code : ℕ → List Outcome → ℕ
last_code code [] = code
last_code code (o ∷ os) = last_code o.0 os

abbrev pub last_output : Bytes → List Outcome → Bytes
last_output stdin [] = stdin
last_output stdin (o ∷ os) = last_output o.1 os

abbrev pub all_errors : List Outcome → Bytes
all_errors [] = []
all_errors (o ∷ os) = o.2 ++ all_errors os

module _ {S : Type 0} (files : Files S) where
  -- The commands run one after the other without an exception: the first on this input, each later
  -- one on the output of the one before it.
  pub data Chain : List CommandNode → Bytes → S → List Outcome → S → Type 0 where
    all_ran : (stdin : Bytes) (s : S) → Chain [] stdin s [] s
    ran :
        (cmd : CommandNode) (rest : List CommandNode) (stdin : Bytes) (s s' t : S) (o : Outcome)
        (os : List Outcome)
        → run_command files cmd stdin s ≡ (ok o, s')
        → Chain rest o.1 s' os t
        → Chain (cmd ∷ rest) stdin s (o ∷ os) t

  -- All commands run, or those before one run and that one raises.
  pub record Stopped (commands : List CommandNode) (stdin : Bytes) (s : S) (e : Errno) (t : S)
      : Type 0 where
    pub front : List CommandNode
    pub failing : CommandNode
    pub back : List CommandNode
    pub parts : commands ≡ front ++ failing ∷ back
    pub outcomes : List Outcome
    pub between : S
    pub chain : Chain front stdin s outcomes between
    pub raises : run_command files failing (last_output stdin outcomes) between ≡ (err e, t)

  pipe_from-chain :
      (commands : List CommandNode) (code : ℕ) (stdin errors : Bytes) (s : S)
      → ((os : List Outcome) × (t : S) × Chain commands stdin s os t
          × (pipe_from files commands (code, stdin, errors) s
              ≡ (ok (last_code code os, last_output stdin os, errors ++ all_errors os), t)))
        ⊎ ((e : Errno) × (t : S) × Stopped commands stdin s e t
            × (pipe_from files commands (code, stdin, errors) s ≡ (err e, t)))
  unfolding pipe_from then_do
  pipe_from-chain [] code stdin errors s =
      inl ([], s, all_ran stdin s, ap (λ es. (ok (code, stdin, es), s)) (sym (append-nil errors)))
  pipe_from-chain (cmd ∷ rest) code stdin errors s =
      elim (Action-cases (run_command files cmd stdin) s) [
        | inr (e, t, raises) ↦ inr (
          e,
          t,
          record {
            front = [];
            failing = cmd;
            back = rest;
            parts = refl;
            outcomes = [];
            between = s;
            chain = all_ran stdin s;
            raises = raises;
          },
          rw raises refl,
        )
        | inl (o, s', runs) ↦ elim (pipe_from-chain rest o.0 o.1 (errors ++ o.2) s') [
          | inl (os, t, chain, result) ↦ inl (
            o ∷ os,
            t,
            ran cmd rest stdin s s' t o os runs chain,
            then_do-ok (run_command files cmd stdin) _ s s' o runs
                ∙ result
                ∙ ap (λ es. (ok (last_code o.0 os, last_output o.1 os, es), t))
                    (append_assoc errors o.2 (all_errors os)),
          )
          | inr (e, t, stop, result) ↦ inr (
            e,
            t,
            record {
              front = cmd ∷ stop.front;
              failing = stop.failing;
              back = stop.back;
              parts = ap (λ (cs : List CommandNode). cmd ∷ cs) stop.parts;
              outcomes = o ∷ stop.outcomes;
              between = stop.between;
              chain = ran cmd stop.front stdin s s' stop.between o stop.outcomes runs stop.chain;
              raises = stop.raises;
            },
            then_do-ok (run_command files cmd stdin) _ s s' o runs ∙ result,
          )
        ]
      ]

  -- Either all commands of a pipeline run without an exception, the first with no input and each later
  -- one with the output of the one before, and the pipeline has the code and the output of the last and
  -- the errors of all, one after the other; or the commands before one run in this way, that one raises,
  -- no later one runs, and the pipeline has code 1, no output and the message of the exception.
  pub execute_pipeline_chains :
      (pipeline : List CommandNode) (s : S)
      → ((os : List Outcome) × (t : S) × Chain pipeline [] s os t
          × (execute_pipeline files pipeline s
              ≡ ((last_code 0 os, last_output [] os, all_errors os), t)))
        ⊎ ((e : Errno) × (t : S) × Stopped pipeline [] s e t
            × (execute_pipeline files pipeline s
                ≡ ((1, [], encode (concat "bash: " (concat (files.strerror e) "\n"))), t)))
  unfolding execute_pipeline
  execute_pipeline_chains pipeline s = elim (pipe_from-chain pipeline 0 [] [] s) [
    | inl (os, t, chain, result) ↦
        let after = ap (λ (r : Result Outcome × S). r.1) result in
        inl (
          os,
          t,
          chain,
          rw (execute_pipeline, result)
              (ap (λ u. ((last_code 0 os, last_output [] os, all_errors os), u)) after),
        )
    | inr (e, t, stop, result) ↦
        let after = ap (λ (r : Result Outcome × S). r.1) result in
        inr (
          e,
          t,
          stop,
          rw (execute_pipeline, result)
              (ap (λ u. ((1, [], encode (concat "bash: " (concat (files.strerror e) "\n"))), u))
                after),
        )
  ]

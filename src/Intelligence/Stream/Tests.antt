-- ===== src/Intelligence/Stream/Tests.antt =====
-- A stream of two events, cut in the middle of a line.
use apate.Prelude.{
  concat, ◌≡◌, refl, true, false, Option, none, some, List, [], ◌∷◌, arith, nat_eq, string_eq,
  String, Bool,
}
use apate.Core.Content.{Bytes}
use apate.Intelligence.Breaker.{Attempt, answered, request_error, value_error}
use apate.Intelligence.Stream.{
  Loaded, attempt_of, newline, is_blank, partition, take_event, on_line, take_lines, Arrival, chunk,
  join, ended, handled, read_chunks, read_response,
}
use apate.Intelligence.Stream.Chunks.{
  split_lines, timely, flat, on_lines, read_text, read_response-chunks,
}
use apate.Intelligence.Stream.Answers.{loaded, ReadsAs, answered-ReadsAs}

abbrev an_event : String → Bool → Loaded
an_event part last = record {
  is_dict = true;
  response = some part;
  done = some last;
  cut_at_limit = false;
  has_durations = true;
}

-- The lines are A and BB, of which the second is done.
abbrev two_loads : Bytes → Option Loaded
two_loads (a ∷ []) = some (an_event "root " false)
two_loads (a ∷ b ∷ []) = some (an_event "line" true)
two_loads _ = none

abbrev two_chunks : List Bytes
two_chunks = (65 ∷ newline ∷ 66 ∷ []) ∷ (66 ∷ newline ∷ newline ∷ []) ∷ []

abbrev answer_to : List Arrival → Attempt
unfolding read_response read_chunks take_lines on_line take_event partition is_blank ended handled
    join attempt_of concat read_text split_lines on_lines loaded
answer_to = read_response two_loads true false

two_chunks_answered : answer_to (timely two_chunks) ≡ answered "root line"
unfolding answer_to
two_chunks_answered = refl

cut_short : answer_to (timely ((65 ∷ newline ∷ 66 ∷ []) ∷ [])) ≡ value_error
unfolding answer_to
cut_short = refl

late_chunk : answer_to (chunk (65 ∷ []) true ∷ []) ≡ request_error
unfolding answer_to
late_chunk = refl

read_response-chunks_example :
    read_response two_loads true false (timely two_chunks) ≡ read_text two_loads (flat two_chunks)
read_response-chunks_example = read_response-chunks two_loads two_chunks (omega arith)

answered-ReadsAs_example : ReadsAs two_loads (split_lines (flat two_chunks)) "root line"
unfolding answer_to
answered-ReadsAs_example = answered-ReadsAs two_loads two_chunks "root line" (omega arith) refl

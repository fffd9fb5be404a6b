-- ===== src/Tests/IoCapture.antt =====
-- The IO capture theorems at concrete histories: two threads that write, flush and step.
use codetracer_python_record.Prelude.{
  ℕ, ◌≡◌, refl, false, List, [], ◌∷◌, ◌++◌, none, some, codes, String, map, lookup, All, insert,
}
use codetracer_python_record.IoCapture.Events.{
  IoStream, stdout, stderr, stdin, IoOperation, write, read_line, ProxyEvent,
}
use codetracer_python_record.IoCapture.Buffer.{
  StreamBuffer, append, flush_lines, flush_line, flush_complete_lines, position_newline, is_stale,
  emit,
}
use codetracer_python_record.IoCapture.Buffer.Lines.{split_lines, flush_complete_lines_lem}
use codetracer_python_record.IoCapture.Buffer.Sent.{sent_bytes}
use codetracer_python_record.IoCapture.Buffer.Shape.{IsSettled, IsFormed}
use codetracer_python_record.IoCapture.Batcher.{
  Batcher, empty, run, step, Call, recorded, stepping, draining, handle_enriched_event,
  handle_output, flush_before_step, flush_all, split_stale, update_buffer, apply_operation,
  add_payload, buffers_for, set_buffer, flush_threads, flush_both, new_buffers, handle_input,
}
use codetracer_python_record.IoCapture.Batcher.Account.{pending, IsSound}
use codetracer_python_record.IoCapture.Batcher.Bytes.{run_conserves}
use codetracer_python_record.IoCapture.Batcher.Shape.{run-IsFormed, AllSettled}
use codetracer_python_record.IoCapture.Batcher.Flush.{panics, panics_never}

abbrev event : ℕ → ℕ → IoStream → IoOperation → String → ProxyEvent
event thread_id timestamp stream operation text = record {
  stream = stream;
  operation = operation;
  payload = codes text;
  thread_id = thread_id;
  timestamp = timestamp;
  frame_id = some 9;
  path_id = none;
  line = none;
  path = none;
}

-- "ab", then the rest of a line and a part of the next.
abbrev history : List Call
history =
    recorded (event 1 0 stdout write "ab")
    ∷ recorded (event 2 5 stderr write "x")
    ∷ recorded (event 1 9 stdout write "c\nd")
    ∷ recorded (event 1 10 stdin read_line "in\n")
    ∷ stepping 2 11
    ∷ recorded (event 1 6_000_000 stdout write "e")
    ∷ draining 6_000_001
    ∷ []

payloads_of_history :
    map (λ c. c.payload) (run empty history).1
    ≡ codes "abc\n" ∷ codes "in\n" ∷ codes "x" ∷ codes "d" ∷ codes "e" ∷ []
unfolding run step handle_enriched_event handle_output flush_before_step flush_all empty insert
    lookup buffers_for update_buffer split_stale is_stale apply_operation add_payload append
    flush_complete_lines flush_lines flush_line position_newline emit new_buffers set_buffer
    flush_threads flush_both handle_input
payloads_of_history = refl

run_conserves_example :
    let (st, sent) = run empty history in
    sent_bytes 1 stdout sent ++ pending 1 stdout st ≡ codes "abc\nde"
run_conserves_example = run_conserves 1 stdout history

run-IsFormed_example : All IsFormed (run empty history).1 × AllSettled (run empty history).0.threads
run-IsFormed_example = run-IsFormed history

abbrev waiting : StreamBuffer
waiting = record {
  payload = codes "a\nb\nc";
  last_timestamp = some 4;
  frame_id = none;
  path_id = none;
  line = none;
  path = none;
}

abbrev waiting_c : StreamBuffer
waiting_c = record waiting { payload = codes "c" }

flush_complete_lines_example :
    let (b', cs) = flush_complete_lines 1 stdout 7 waiting in
    ((map (λ c. c.payload) cs, b'.payload) ≡ split_lines (codes "a\nb\nc"))
    × (position_newline b'.payload ≡ none)
flush_complete_lines_example = flush_complete_lines_lem 1 stdout 7 waiting

-- One thread has pending output.
abbrev busy : Batcher
busy = record { threads = (1, record { out = waiting_c; err = waiting_c }) ∷ []; poisoned = false }

busy-IsSound : IsSound busy
unfolding lookup
busy-IsSound = record { usable = refl; distinct = (refl, tt) }

waiting_c-IsSettled : IsSettled waiting_c
unfolding position_newline
waiting_c-IsSettled = record { partial = refl; forgotten = λ h. cc; dated = λ h. refl }

panics_never_example : panics empty history ≡ false
panics_never_example = panics_never history

-- ===== src/Tests/Coordinator.antt =====
-- The theorem on captured output at a concrete input.
use codetracer_python_record.Prelude.{
  ℕ, ◌≡◌, refl, ◌++◌, keep, concat, is_ascii, from_utf8_lossy, true, none, some, List, [], ◌∷◌,
  String, pos,
}
use codetracer_python_record.IoCapture.Events.{stdout, write, ProxyEvent, IoChunk, fd_mirror}
use codetracer_python_record.IoCapture.Buffer.Sent.{sent_bytes}
use codetracer_python_record.IoCapture.Batcher.{recorded, stepping}
use codetracer_python_record.IoCapture.Batcher.Bytes.{all_written}
use codetracer_python_record.Coordinator.{
  IoStep, sink_call, locates, new_coordinator, install, io_run, teardown,
}
use codetracer_python_record.Coordinator.Ends.{contents, Decode, sink_calls, io_run-teardown}

abbrev printed : ProxyEvent
printed = record {
  stream = stdout;
  operation = write;
  payload = 104 ∷ 105 ∷ [];
  thread_id = 1;
  timestamp = 10;
  frame_id = none;
  path_id = none;
  line = none;
  path = some "a.py";
}

abbrev steps : List IoStep
steps =
    locates 1 3 (pos 4) 7
    ∷ sink_call (recorded printed)
    ∷ sink_call (stepping 1 11)
    ∷ sink_call (recorded printed)
    ∷ []

-- What the mirror hands over at the end, with the first byte of a character that is cut.
abbrev late : List IoChunk
late =
    record {
      stream = stdout;
      payload = 195 ∷ 33 ∷ [];
      thread_id = 1;
      timestamp = 20;
      frame_id = none;
      path_id = none;
      line = none;
      path = none;
      flags = fd_mirror;
    }
    ∷ []

abbrev path_id_of : String → ℕ
path_id_of path = 5

io_run-teardown_example :
    let (io, calls) = io_run path_id_of (install new_coordinator true) steps in
    let texts = contents 1 stdout (calls ++ (teardown path_id_of io 20 late).1) in
    let bytes = all_written 1 stdout (sink_calls steps) ++ sent_bytes 1 stdout late in
    Decode texts bytes × (keep is_ascii (concat texts) ≡ keep is_ascii bytes)
io_run-teardown_example = io_run-teardown 1 stdout path_id_of steps 20 late

-- A whole character of two bytes stays; one that ends early is replaced, and so is a lone one.
lossy_tests :
    (from_utf8_lossy (195 ∷ 169 ∷ 65 ∷ []) ≡ 195 ∷ 169 ∷ 65 ∷ [])
    × (from_utf8_lossy (226 ∷ 130 ∷ 65 ∷ []) ≡ 239 ∷ 191 ∷ 189 ∷ 65 ∷ [])
    × (from_utf8_lossy (169 ∷ 195 ∷ []) ≡ 239 ∷ 191 ∷ 189 ∷ 239 ∷ 191 ∷ 189 ∷ [])
unfolding from_utf8_lossy
lossy_tests = (refl, refl, refl)

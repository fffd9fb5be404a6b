-- ===== src/Tests/Enricher.antt =====
-- The theorems on the origin of captured output at concrete events.
use codetracer_python_record.Prelude.{pos, none, some, [], ◌∷◌}
use codetracer_python_record.IoCapture.Events.{ProxyEvent, stdout, write}
use codetracer_python_record.Enricher.{
  LineSnapshot, LineSnapshotStore, Stack, is_io_capture_muted, enrich,
}
use codetracer_python_record.Enricher.Origin.{Enriches, enrich-Extends}

abbrev event : ProxyEvent
event = record {
  stream = stdout;
  operation = write;
  payload = 104 ∷ 105 ∷ [];
  thread_id = 1;
  timestamp = 5;
  frame_id = none;
  path_id = some 3;
  line = none;
  path = none;
}

abbrev snapshot : LineSnapshot
snapshot = record { path_id = 8; line = pos 12; frame_id = 40 }

abbrev store : LineSnapshotStore
store = (1, snapshot) ∷ []

abbrev stack : Stack
stack =
    some (λ depth. some (record { lineno = some (pos 7); filename = some "a.py"; address = 99 }))

enrich-Extends_example : Enriches (is_io_capture_muted 0) event (enrich [] 0 stack event)
enrich-Extends_example = enrich-Extends [] 0 stack event

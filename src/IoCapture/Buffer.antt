-- ===== src/IoCapture/Buffer.antt =====
-- `StreamBuffer` of io_capture/sink/batcher.rs: the bytes that one thread wrote to one stream and
-- that no chunk has taken yet. A method returns the new buffer and the chunks that it hands to the
-- consumer, oldest first.
pub mod Bytes
pub mod Lines
pub mod Sent
pub mod Shape
use codetracer_python_record.Prelude.{
  ℕ, zero, suc, ◌+◌, ◌-◌, ◌≡◌, ℤ, Bool, true, false, List, [], ◌∷◌, ◌++◌, Option, none, some,
  String, ◌==◌, leb, ltb, if◌then◌else◌, or_else, take, drop, is_empty, length,
}
use codetracer_python_record.IoCapture.Events.{IoStream, IoChunk, IoChunkFlags, newline_terminated}

-- `MAX_BATCH_AGE`, five milliseconds, in nanoseconds.
abbrev pub max_batch_age : ℕ
max_batch_age = 5_000_000

abbrev pub newline : ℕ
newline = 10

pub record StreamBuffer : Type 0 where
  pub payload : List ℕ
  pub last_timestamp : Option ℕ
  pub frame_id : Option ℕ
  pub path_id : Option ℕ
  pub line : Option ℤ
  pub path : Option String

-- `StreamBuffer::new`.
unfoldable pub new : StreamBuffer
new = record {
  payload = [];
  last_timestamp = none;
  frame_id = none;
  path_id = none;
  line = none;
  path = none;
}

unfoldable pub append :
    StreamBuffer → List ℕ → Option ℕ → Option ℕ → Option ℤ → Option String → ℕ → StreamBuffer
append b payload frame_id path_id line path timestamp = record {
  payload = b.payload ++ payload;
  last_timestamp = some timestamp;
  frame_id = or_else frame_id b.frame_id;
  path_id = or_else path_id b.path_id;
  line = or_else line b.line;
  path = or_else path b.path;
}

-- The chunk that carries `payload` with what the buffer knows of its origin.
unfoldable pub chunk_of : ℕ → IoStream → ℕ → IoChunkFlags → StreamBuffer → List ℕ → IoChunk
chunk_of thread_id stream timestamp flags b payload = record {
  stream = stream;
  payload = payload;
  thread_id = thread_id;
  timestamp = timestamp;
  frame_id = b.frame_id;
  path_id = b.path_id;
  line = b.line;
  path = b.path;
  flags = flags;
}

-- `take_all`: the pending bytes, if there are any, and the buffer without them.
unfoldable pub take_all : StreamBuffer → StreamBuffer × Option (List ℕ)
take_all b = if is_empty b.payload then (b, none) else (record b { payload = [] }, some b.payload)

-- The buffer after a chunk took everything: no bytes, no origin.
unfoldable pub cleared : ℕ → StreamBuffer
cleared timestamp = record {
  payload = [];
  last_timestamp = some timestamp;
  frame_id = none;
  path_id = none;
  line = none;
  path = none;
}

unfoldable pub emit : ℕ → IoStream → ℕ → IoChunkFlags → StreamBuffer → StreamBuffer × List IoChunk
unfolding chunk_of take_all cleared
emit thread_id stream timestamp flags b =
    let (rest, taken) = take_all b in
    elim taken [
      | none ↦ (rest, [])
      | some payload ↦ (cleared timestamp, chunk_of thread_id stream timestamp flags b payload ∷ [])
    ]

-- `iter().position(|byte| *byte == b'\n')`.
unfoldable pub position_newline : List ℕ → Option ℕ
position_newline [] = none
position_newline (c ∷ s) =
    let rest : Option ℕ = elim (position_newline s) [ none ↦ none | some i ↦ some (suc i) ] in
    if c == newline then some zero else rest

-- One round of the loop: the line up to the newline at `index` leaves as a chunk.
unfoldable pub flush_line : ℕ → IoStream → ℕ → ℕ → StreamBuffer → StreamBuffer × IoChunk
unfolding chunk_of cleared
flush_line thread_id stream timestamp index b =
    let rest = drop (suc index) b.payload in
    (
      if is_empty rest
          then cleared timestamp
          else record b { payload = rest; last_timestamp = some timestamp },
      chunk_of thread_id stream timestamp newline_terminated b (take (suc index) b.payload),
    )

-- The `while let` loop on fuel; `Lines` shows that the length of the payload is enough.
unfoldable pub flush_lines : ℕ → ℕ → IoStream → ℕ → StreamBuffer → StreamBuffer × List IoChunk
flush_lines zero thread_id stream timestamp b = (b, [])
flush_lines (suc fuel) thread_id stream timestamp b = elim (position_newline b.payload) [
  | none ↦ (b, [])
  | some index ↦
      let (b', chunk) = flush_line thread_id stream timestamp index b in
      let (b'', chunks) = flush_lines fuel thread_id stream timestamp b' in (b'', chunk ∷ chunks)
]

unfoldable pub flush_complete_lines : ℕ → IoStream → ℕ → StreamBuffer → StreamBuffer × List IoChunk
flush_complete_lines thread_id stream timestamp b =
    flush_lines (length b.payload) thread_id stream timestamp b

-- `now.checked_duration_since(last)` is `None` where `now` is before `last`.
unfoldable pub is_stale : StreamBuffer → ℕ → Bool
is_stale b now = if is_empty b.payload then false else elim b.last_timestamp [
  | none ↦ false
  | some last ↦ if ltb now last then false else leb max_batch_age (now - last)
]

-- ===== src/IoCapture/Events.antt =====
-- The data of the IO capture: io_capture/events.rs and io_capture/sink/types.rs.
-- A thread id, a frame id and a path id are numbers; an `Instant` is its count of nanoseconds.
use codetracer_python_record.Prelude.{ℕ, ℤ, Bool, true, false, List, Option, String}

pub data IoStream : Type 0 where
  stdout stderr stdin : IoStream

pub data IoOperation : Type 0 where
  write writelines flush read read_line read_lines read_into : IoOperation

-- `payload` holds bytes, `line` an `i64`.
pub record ProxyEvent : Type 0 where
  pub stream : IoStream
  pub operation : IoOperation
  pub payload : List ℕ
  pub thread_id : ℕ
  pub timestamp : ℕ
  pub frame_id : Option ℕ
  pub path_id : Option ℕ
  pub line : Option ℤ
  pub path : Option String

-- The flag sets in use are the single flags: each constructor is one bit of `IoChunkFlags`.
pub data IoChunkFlags : Type 0 where
  newline_terminated explicit_flush step_boundary time_split input_chunk fd_mirror : IoChunkFlags

pub record IoChunk : Type 0 where
  pub stream : IoStream
  pub payload : List ℕ
  pub thread_id : ℕ
  pub timestamp : ℕ
  pub frame_id : Option ℕ
  pub path_id : Option ℕ
  pub line : Option ℤ
  pub path : Option String
  pub flags : IoChunkFlags

-- Equality of streams, as the derived `PartialEq`.
abbrev pub same_stream : IoStream → IoStream → Bool
same_stream stdout stdout = true
same_stream stderr stderr = true
same_stream stdin stdin = true
same_stream _ _ = false

-- ===== src/IoCapture/Batcher.antt =====
-- `IoChunkBatcher` and `ThreadBuffers` of io_capture/sink/batcher.rs, and the dispatch of
-- `IoEventSink` in io_capture/sink/mod.rs. The reading of the time source is an argument of a call,
-- and the consumer is the list of the chunks handed over. A panic inside a call poisons the mutex,
-- so that every later call that takes the lock panics too.
pub mod Update
pub mod Account
pub mod Bytes
pub mod Settle
pub mod Shape
pub mod Flush
use codetracer_python_record.Prelude.{
  ℕ, Bool, true, false, List, [], ◌∷◌, ◌++◌, Option, none, some, if◌then◌else◌, is_empty, unwrap_or,
  lookup, insert,
}
use codetracer_python_record.IoCapture.Events.{
  IoStream, stdout, stderr, stdin, IoOperation, write, writelines, flush, ProxyEvent, IoChunk,
  IoChunkFlags, explicit_flush, step_boundary, time_split, input_chunk,
}
use codetracer_python_record.IoCapture.Buffer.{
  StreamBuffer, new, append, emit, flush_complete_lines, is_stale,
}

pub record ThreadBuffers : Type 0 where
  pub out : StreamBuffer
  pub err : StreamBuffer

-- `ThreadBuffers::new`.
unfoldable pub new_buffers : ThreadBuffers
unfolding new
new_buffers = record { out = new; err = new }

-- `buffer_mut`: standard input has no buffer, and asking for one panics.
unfoldable pub buffer_of : IoStream → ThreadBuffers → Option StreamBuffer
buffer_of stdout bs = some bs.out
buffer_of stderr bs = some bs.err
buffer_of stdin bs = none

-- What a write through the reference that `buffer_mut` returns does.
unfoldable pub set_buffer : IoStream → StreamBuffer → ThreadBuffers → ThreadBuffers
set_buffer stdout b bs = record bs { out = b }
set_buffer stderr b bs = record bs { err = b }
set_buffer stdin b bs = bs

-- `ThreadBuffers::flush_all`: standard output, then standard error.
unfoldable pub flush_both : ℕ → ℕ → IoChunkFlags → ThreadBuffers → ThreadBuffers × List IoChunk
flush_both thread_id timestamp flags bs =
    let (out, out_chunks) = emit thread_id stdout timestamp flags bs.out in
    let (err, err_chunks) = emit thread_id stderr timestamp flags bs.err in
    (record { out = out; err = err }, out_chunks ++ err_chunks)

pub record Batcher : Type 0 where
  pub threads : List (ℕ × ThreadBuffers)
  pub poisoned : Bool

-- What a call leaves: the state, the chunks handed to the consumer, and whether it panicked.
pub record Ran : Type 0 where
  pub batcher : Batcher
  pub sent : List IoChunk
  pub panicked : Bool

-- `IoChunkBatcher::with_time_source`.
unfoldable pub empty : Batcher
empty = record { threads = []; poisoned = false }

-- The split that a stale buffer gets before the event is looked at.
unfoldable pub split_stale : ProxyEvent → StreamBuffer → StreamBuffer × List IoChunk
split_stale e b =
    if is_stale b e.timestamp
    then emit e.thread_id e.stream (unwrap_or b.last_timestamp e.timestamp) time_split b
    else (b, [])

-- The branch of a write: nothing for an empty payload.
unfoldable pub add_payload : ProxyEvent → StreamBuffer → StreamBuffer × List IoChunk
add_payload e b =
    if is_empty e.payload
    then (b, [])
    else flush_complete_lines e.thread_id e.stream e.timestamp
        (append b e.payload e.frame_id e.path_id e.line e.path e.timestamp)

-- The `match` on the operation.
unfoldable pub apply_operation :
    IoOperation → ProxyEvent → StreamBuffer → StreamBuffer × List IoChunk
apply_operation write e b = add_payload e b
apply_operation writelines e b = add_payload e b
apply_operation flush e b = emit e.thread_id e.stream e.timestamp explicit_flush b
apply_operation _ e b = (b, [])

-- What `handle_output` does to the buffer of the event's stream.
unfoldable pub update_buffer : ProxyEvent → StreamBuffer → StreamBuffer × List IoChunk
update_buffer e b =
    let (b', split) = split_stale e b in
    let (b'', chunks) = apply_operation e.operation e b' in (b'', split ++ chunks)

-- `entry(thread_id).or_insert_with(ThreadBuffers::new)`.
unfoldable pub buffers_for : ℕ → Batcher → ThreadBuffers
buffers_for thread_id s = unwrap_or (lookup thread_id s.threads) new_buffers

unfoldable pub handle_output : Batcher → ProxyEvent → Ran
unfolding buffer_of
handle_output s e =
    let buffers = buffers_for e.thread_id s in
    if s.poisoned
    then record { batcher = s; sent = []; panicked = true }
    else elim (buffer_of e.stream buffers) [
      | none ↦ record {
        batcher = record { threads = insert e.thread_id buffers s.threads; poisoned = true };
        sent = [];
        panicked = true;
      }
      | some b ↦
          let (b', chunks) = update_buffer e b in
          record {
            batcher = record s {
              threads = insert e.thread_id (set_buffer e.stream b' buffers) s.threads;
            };
            sent = chunks;
            panicked = false;
          }
    ]

-- Input takes no lock and is not batched.
unfoldable pub handle_input : ProxyEvent → List IoChunk
handle_input e =
    if is_empty e.payload
    then []
    else record {
      stream = stdin;
      payload = e.payload;
      thread_id = e.thread_id;
      timestamp = e.timestamp;
      frame_id = e.frame_id;
      path_id = e.path_id;
      line = e.line;
      path = e.path;
      flags = input_chunk;
    }
      ∷ []

unfoldable pub flush_before_step : Batcher → ℕ → ℕ → Ran
flush_before_step s thread_id timestamp =
    if s.poisoned
    then record { batcher = s; sent = []; panicked = true }
    else elim (lookup thread_id s.threads) [
      | none ↦ record { batcher = s; sent = []; panicked = false }
      | some buffers ↦
          let (buffers', chunks) = flush_both thread_id timestamp step_boundary buffers in
          record {
            batcher = record s { threads = insert thread_id buffers' s.threads };
            sent = chunks;
            panicked = false;
          }
    ]

-- The loop over the threads, in the order of the map.
unfoldable pub flush_threads :
    ℕ → List (ℕ × ThreadBuffers) → List (ℕ × ThreadBuffers) × List IoChunk
flush_threads timestamp [] = ([], [])
flush_threads timestamp ((thread_id, buffers) ∷ rest) =
    let (buffers', chunks) = flush_both thread_id timestamp step_boundary buffers in
    let (rest', more) = flush_threads timestamp rest in
    ((thread_id, buffers') ∷ rest', chunks ++ more)

unfoldable pub flush_all : Batcher → ℕ → Ran
flush_all s timestamp =
    let (threads, chunks) = flush_threads timestamp s.threads in
    if s.poisoned
    then record { batcher = s; sent = []; panicked = true }
    else record { batcher = record s { threads = threads }; sent = chunks; panicked = false }

-- `IoEventSink::handle_enriched_event`.
unfoldable pub dispatch : IoStream → Batcher → ProxyEvent → Ran
dispatch stdin s e = record { batcher = s; sent = handle_input e; panicked = false }
dispatch _ s e = handle_output s e

unfoldable pub handle_enriched_event : Batcher → ProxyEvent → Ran
unfolding dispatch
handle_enriched_event s e = dispatch e.stream s e

-- The calls that the sink receives, with the time that the batcher reads.
pub data Call : Type 0 where
  recorded : ProxyEvent → Call
  stepping : ℕ → ℕ → Call
  draining : ℕ → Call

unfoldable pub step : Batcher → Call → Ran
step s (recorded e) = handle_enriched_event s e
step s (stepping thread_id timestamp) = flush_before_step s thread_id timestamp
step s (draining timestamp) = flush_all s timestamp

-- Calls in turn, with all that they send.
unfoldable pub run : Batcher → List Call → Batcher × List IoChunk
run s [] = (s, [])
run s (c ∷ cs) = let r = step s c in let (s', chunks) = run r.batcher cs in (s', r.sent ++ chunks)

-- ===== src/IoCapture/Buffer/Sent.antt =====
-- Which thread and stream the chunks of one buffer name: the bytes that a consumer can attribute to
-- a thread and a stream, out of a sequence of chunks.
use codetracer_python_record.Prelude.{
  ℕ, zero, suc, ◌≡◌, refl, List, [], ◌∷◌, ◌++◌, arith, append_assoc, Option-cases, inl, inr, ◌==◌,
  ◌&&◌, if◌then◌else◌, is_empty, Bool-cases,
}
use codetracer_python_record.IoCapture.Events.{IoStream, IoChunk, IoChunkFlags, same_stream}
use codetracer_python_record.IoCapture.Buffer.{
  StreamBuffer, emit, flush_line, flush_lines, flush_complete_lines, position_newline,
}
use codetracer_python_record.IoCapture.Buffer.Bytes.{payloads}

-- The bytes that the chunks of one thread and stream carry.
abbrev pub sent_bytes : ℕ → IoStream → List IoChunk → List ℕ
sent_bytes t s [] = []
sent_bytes t s (c ∷ cs) =
    if c.thread_id == t && same_stream c.stream s
    then c.payload ++ sent_bytes t s cs
    else sent_bytes t s cs

pub sent_bytes-append :
    (t : ℕ) (s : IoStream) (cs ds : List IoChunk)
    → sent_bytes t s (cs ++ ds) ≡ sent_bytes t s cs ++ sent_bytes t s ds
sent_bytes-append t s [] ds = refl
sent_bytes-append t s (c ∷ cs) ds = ground (
  arith,
  sent_bytes-append t s cs ds,
  append_assoc c.payload (sent_bytes t s cs) (sent_bytes t s ds),
)

-- Every chunk names the thread and the stream.
abbrev pub Tagged : ℕ → IoStream → List IoChunk → Type 0
Tagged t s [] = Unit
Tagged t s (c ∷ cs) = (c.thread_id ≡ t) × (c.stream ≡ s) × Tagged t s cs

pub sent_bytes_of_Tagged :
    (t k : ℕ) (s r : IoStream) (cs : List IoChunk)
    → Tagged t s cs
    → sent_bytes k r cs ≡ (if t == k && same_stream s r then payloads cs else [])
sent_bytes_of_Tagged t k s r [] h = ground arith
sent_bytes_of_Tagged t k s r (c ∷ cs) h =
    rw (h.0, h.1, sent_bytes_of_Tagged t k s r cs h.2) (ground arith)

pub Tagged-append :
    (t : ℕ) (s : IoStream) (cs ds : List IoChunk)
    → Tagged t s cs
    → Tagged t s ds
    → Tagged t s (cs ++ ds)
Tagged-append t s [] ds h k = k
Tagged-append t s (c ∷ cs) ds h k = (h.0, h.1, Tagged-append t s cs ds h.2 k)

pub emit-Tagged :
    (t : ℕ) (s : IoStream) (now : ℕ) (f : IoChunkFlags) (b : StreamBuffer)
    → Tagged t s (emit t s now f b).1
unfolding emit
emit-Tagged t s now f b = elim (Bool-cases (is_empty b.payload)) [
  | inl e ↦ rw (e, emit) tt
  | inr e ↦ rw (e, emit) (refl, refl, tt)
]

flush_lines-Tagged :
    (fuel t : ℕ) (s : IoStream) (now : ℕ) (b : StreamBuffer)
    → Tagged t s (flush_lines fuel t s now b).1
unfolding flush_lines flush_line
flush_lines-Tagged zero t s now b = tt
flush_lines-Tagged (suc fuel) t s now b = elim (Option-cases (position_newline b.payload)) [
  | inl e ↦ rw (e, flush_lines) tt
  | inr (i, e) ↦
      rw (e, flush_lines) (refl, refl, flush_lines-Tagged fuel t s now (flush_line t s now i b).0)
]

pub flush_complete_lines-Tagged :
    (t : ℕ) (s : IoStream) (now : ℕ) (b : StreamBuffer)
    → Tagged t s (flush_complete_lines t s now b).1
unfolding flush_complete_lines
flush_complete_lines-Tagged t s now b = flush_lines-Tagged _ t s now b

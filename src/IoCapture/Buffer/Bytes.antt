-- ===== src/IoCapture/Buffer/Bytes.antt =====
-- What the buffer operations of io_capture/sink/batcher.rs do to the bytes: each keeps the bytes
-- that left as chunks followed by those still pending.
use codetracer_python_record.Prelude.{
  ℕ, zero, suc, ◌≡◌, refl, ap, ◌∙◌, sym, List, [], ◌∷◌, ◌++◌, arith, append-nil, append_assoc, take,
  drop, Option-cases, is_empty→nil, inl, inr,
}
use codetracer_python_record.IoCapture.Events.{IoStream, IoChunk, IoChunkFlags}
use codetracer_python_record.IoCapture.Buffer.{
  StreamBuffer, emit, flush_line, flush_lines, flush_complete_lines, position_newline,
}

-- The bytes that a sequence of chunks carries.
abbrev pub payloads : List IoChunk → List ℕ
payloads [] = []
payloads (c ∷ cs) = c.payload ++ payloads cs

take-append-drop : (n : ℕ) (xs : List ℕ) → take n xs ++ drop n xs ≡ xs
take-append-drop zero xs = refl
take-append-drop (suc n) [] = refl
take-append-drop (suc n) (x ∷ xs) = ap (◌∷◌ x) (take-append-drop n xs)

pub payloads-emit :
    (t : ℕ) (s : IoStream) (now : ℕ) (f : IoChunkFlags) (b : StreamBuffer)
    → let (b', cs) = emit t s now f b in payloads cs ++ b'.payload ≡ b.payload
unfolding emit
payloads-emit t s now f b = ground (arith, append-nil b.payload)

flush_line_bytes :
    (t : ℕ) (s : IoStream) (now i : ℕ) (b : StreamBuffer)
    → let (b', c) = flush_line t s now i b in c.payload ++ b'.payload ≡ b.payload
unfolding flush_line
flush_line_bytes t s now i b = ground (arith, take-append-drop (suc i) b.payload)

pub payloads-flush_lines :
    (fuel t : ℕ) (s : IoStream) (now : ℕ) (b : StreamBuffer)
    → let (b', cs) = flush_lines fuel t s now b in payloads cs ++ b'.payload ≡ b.payload
unfolding flush_lines
payloads-flush_lines zero t s now b = refl
payloads-flush_lines (suc fuel) t s now b = elim (Option-cases (position_newline b.payload)) [
  | inl e ↦ rw (e, flush_lines)
  | inr (i, e) ↦
      let (b', c) = flush_line t s now i b in
      rw (e, flush_lines)
        (append_assoc c.payload _ _
          ∙ ap (λ r. c.payload ++ r) (payloads-flush_lines fuel t s now b')
          ∙ flush_line_bytes t s now i b)
]

pub payloads-flush_complete_lines :
    (t : ℕ) (s : IoStream) (now : ℕ) (b : StreamBuffer)
    → let (b', cs) = flush_complete_lines t s now b in payloads cs ++ b'.payload ≡ b.payload
unfolding flush_complete_lines
payloads-flush_complete_lines t s now b = payloads-flush_lines _ t s now b

pub payloads-append : (cs ds : List IoChunk) → payloads (cs ++ ds) ≡ payloads cs ++ payloads ds
payloads-append [] ds = refl
payloads-append (c ∷ cs) ds =
    ap (λ r. c.payload ++ r) (payloads-append cs ds)
    ∙ sym (append_assoc c.payload (payloads cs) (payloads ds))

-- `emit` leaves nothing pending.
pub payload-emit :
    (t : ℕ) (s : IoStream) (now : ℕ) (f : IoChunkFlags) (b : StreamBuffer)
    → (emit t s now f b).0.payload ≡ []
unfolding emit
payload-emit t s now f b = ground (arith, is_empty→nil b.payload)

pub payloads-emit_all :
    (t : ℕ) (s : IoStream) (now : ℕ) (f : IoChunkFlags) (b : StreamBuffer)
    → payloads (emit t s now f b).1 ≡ b.payload
payloads-emit_all t s now f b =
    sym (append-nil _)
    ∙ ap (λ p. payloads (emit t s now f b).1 ++ p) (sym (payload-emit t s now f b))
    ∙ payloads-emit t s now f b

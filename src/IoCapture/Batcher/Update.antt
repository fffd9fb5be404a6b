-- ===== src/IoCapture/Batcher/Update.antt =====
-- What an output event does to the bytes of its own buffer, in io_capture/sink/batcher.rs.
use codetracer_python_record.Prelude.{
  ℕ, ◌≡◌, refl, ap, ◌∙◌, sym, List, [], ◌++◌, append-nil, append_assoc, Bool-cases, inl, inr,
  is_empty, is_empty→nil,
}
use codetracer_python_record.IoCapture.Events.{IoOperation, write, writelines, flush, ProxyEvent}
use codetracer_python_record.IoCapture.Buffer.{StreamBuffer, append, is_stale}
use codetracer_python_record.IoCapture.Buffer.Bytes.{
  payloads, payloads-emit, payloads-flush_complete_lines, payloads-append,
}
use codetracer_python_record.IoCapture.Buffer.Sent.{
  Tagged, Tagged-append, emit-Tagged, flush_complete_lines-Tagged,
}
use codetracer_python_record.IoCapture.Batcher.{
  split_stale, add_payload, apply_operation, update_buffer,
}

-- The bytes that an output event adds to its stream.
abbrev pub added : IoOperation → List ℕ → List ℕ
added write p = p
added writelines p = p
added _ p = []

split_stale_bytes :
    (e : ProxyEvent) (b : StreamBuffer)
    → let (b', cs) = split_stale e b in
      (payloads cs ++ b'.payload ≡ b.payload) × Tagged e.thread_id e.stream cs
unfolding split_stale
split_stale_bytes e b = elim (Bool-cases (is_stale b e.timestamp)) [
  | inl h ↦
      rw (h, split_stale)
        (payloads-emit e.thread_id e.stream _ _ b, emit-Tagged e.thread_id e.stream _ _ b)
  | inr h ↦ rw (h, split_stale) (refl, tt)
]

add_payload_bytes :
    (e : ProxyEvent) (b : StreamBuffer)
    → let (b', cs) = add_payload e b in
      (payloads cs ++ b'.payload ≡ b.payload ++ e.payload) × Tagged e.thread_id e.stream cs
unfolding add_payload
add_payload_bytes e b = elim (Bool-cases (is_empty e.payload)) [
  | inl h ↦
      rw (h, add_payload)
        (sym (ap (λ p. b.payload ++ p) (is_empty→nil e.payload h) ∙ append-nil b.payload), tt)
  | inr h ↦
      rw (h, add_payload)
        (
          unfold append in
              payloads-flush_complete_lines e.thread_id e.stream e.timestamp
                (append b e.payload e.frame_id e.path_id e.line e.path e.timestamp),
          flush_complete_lines-Tagged e.thread_id e.stream e.timestamp _,
        )
]

apply_operation_bytes :
    (op : IoOperation) (e : ProxyEvent) (b : StreamBuffer)
    → let (b', cs) = apply_operation op e b in
      (payloads cs ++ b'.payload ≡ b.payload ++ added op e.payload) × Tagged e.thread_id e.stream cs
unfolding apply_operation
apply_operation_bytes write e b = add_payload_bytes e b
apply_operation_bytes writelines e b = add_payload_bytes e b
apply_operation_bytes flush e b = (
  payloads-emit e.thread_id e.stream _ _ b ∙ sym (append-nil b.payload),
  emit-Tagged e.thread_id e.stream _ _ b,
)
apply_operation_bytes _ e b = (sym (append-nil b.payload), tt)

pub update_buffer_bytes :
    (e : ProxyEvent) (b : StreamBuffer)
    → let (b', cs) = update_buffer e b in
      (payloads cs ++ b'.payload ≡ b.payload ++ added e.operation e.payload)
      × Tagged e.thread_id e.stream cs
unfolding update_buffer
update_buffer_bytes e b =
    let (b', cs) = split_stale e b in
    let (b'', ds) = apply_operation e.operation e b' in
    let split = split_stale_bytes e b in
    let applied = apply_operation_bytes e.operation e b' in
    (
      ap (λ p. p ++ b''.payload) (payloads-append cs ds)
          ∙ append_assoc (payloads cs) (payloads ds) b''.payload
          ∙ ap (λ p. payloads cs ++ p) applied.0
          ∙ sym (append_assoc (payloads cs) b'.payload _)
          ∙ ap (λ p. p ++ added e.operation e.payload) split.0,
      Tagged-append e.thread_id e.stream cs ds split.1 applied.1,
    )

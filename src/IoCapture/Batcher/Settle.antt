-- ===== src/IoCapture/Batcher/Settle.antt =====
-- The shape of one buffer of io_capture/sink/batcher.rs, and of its chunks, across an output event.
use codetracer_python_record.Prelude.{Bool-cases, inl, inr, is_empty, All, All-append}
use codetracer_python_record.IoCapture.Events.{
  IoOperation, write, writelines, flush, ProxyEvent, explicit_flush, time_split,
}
use codetracer_python_record.IoCapture.Buffer.{StreamBuffer, is_stale}
use codetracer_python_record.IoCapture.Buffer.Shape.{
  IsSettled, IsFormed, emit-IsSettled, append_lines-IsSettled,
}
use codetracer_python_record.IoCapture.Batcher.{
  split_stale, add_payload, apply_operation, update_buffer,
}

split_stale-IsSettled :
    (e : ProxyEvent) (b : StreamBuffer)
    → IsSettled b
    → let (b', cs) = split_stale e b in IsSettled b' × All IsFormed cs
unfolding split_stale
split_stale-IsSettled e b v = elim (Bool-cases (is_stale b e.timestamp)) [
  | inl h ↦
      rw (h, split_stale) (emit-IsSettled e.thread_id e.stream _ time_split b (λ p x y. (x, y)) v)
  | inr h ↦ rw (h, split_stale) (v, tt)
]

add_payload-IsSettled :
    (e : ProxyEvent) (b : StreamBuffer)
    → IsSettled b
    → let (b', cs) = add_payload e b in IsSettled b' × All IsFormed cs
unfolding add_payload
add_payload-IsSettled e b v = elim (Bool-cases (is_empty e.payload)) [
  | inl h ↦ rw (h, add_payload) (v, tt)
  | inr h ↦
      rw (h, add_payload)
        (append_lines-IsSettled e.thread_id e.stream e.timestamp b e.payload e.frame_id e.path_id
          e.line e.path h)
]

apply_operation-IsSettled :
    (op : IoOperation) (e : ProxyEvent) (b : StreamBuffer)
    → IsSettled b
    → let (b', cs) = apply_operation op e b in IsSettled b' × All IsFormed cs
unfolding apply_operation
apply_operation-IsSettled write e b v = add_payload-IsSettled e b v
apply_operation-IsSettled writelines e b v = add_payload-IsSettled e b v
apply_operation-IsSettled flush e b v =
    emit-IsSettled e.thread_id e.stream _ explicit_flush b (λ p x y. (x, y)) v
apply_operation-IsSettled _ e b v = (v, tt)

pub update_buffer-IsSettled :
    (e : ProxyEvent) (b : StreamBuffer)
    → IsSettled b
    → let (b', cs) = update_buffer e b in IsSettled b' × All IsFormed cs
unfolding update_buffer
update_buffer-IsSettled e b v =
    let split = split_stale-IsSettled e b v in
    let applied = apply_operation-IsSettled e.operation e (split_stale e b).0 split.0 in
    (applied.0, All-append IsFormed _ _ split.1 applied.1)

-- ===== src/IoCapture/Batcher/Account.antt =====
-- The account of one thread and stream of io_capture/sink/batcher.rs: the bytes handed over, the
-- bytes pending, the bytes written, and what an output event does to them.
use codetracer_python_record.Prelude.{
  ℕ, ◌≡◌, refl, sym, false, List, [], ◌++◌, Option, none, some, arith, append-nil, ◌==◌, ◌&&◌,
  if◌then◌else◌, Bool-cases, inl, inr, lookup, insert, lookup-insert, Unique, insert-Unique,
  unwrap_or, ==_iff,
}
use codetracer_python_record.IoCapture.Events.{
  IoStream, stdout, stderr, stdin, ProxyEvent, IoChunk, same_stream,
}
use codetracer_python_record.IoCapture.Buffer.{StreamBuffer}
use codetracer_python_record.IoCapture.Buffer.Bytes.{payloads}
use codetracer_python_record.IoCapture.Buffer.Sent.{sent_bytes, sent_bytes_of_Tagged, Tagged}
use codetracer_python_record.IoCapture.Batcher.{
  ThreadBuffers, new_buffers, buffer_of, set_buffer, Batcher, Ran, update_buffer, buffers_for,
  handle_output, Call, recorded,
}
use codetracer_python_record.IoCapture.Batcher.Update.{added, update_buffer_bytes}

-- The bytes that wait in the buffers of one thread.
abbrev pub pending_of : IoStream → ThreadBuffers → List ℕ
pending_of stdout bs = bs.out.payload
pending_of stderr bs = bs.err.payload
pending_of stdin bs = []

abbrev pub pending_in : IoStream → Option ThreadBuffers → List ℕ
pending_in s none = []
pending_in s (some bs) = pending_of s bs

-- The bytes that wait for one thread and stream.
abbrev pub pending : ℕ → IoStream → Batcher → List ℕ
pending t s st = pending_in s (lookup t st.threads)

-- The bytes that an event brings: input whatever the operation, output if it is a write.
abbrev pub brought : ProxyEvent → IoStream → List ℕ
brought e stdin = e.payload
brought e _ = added e.operation e.payload

-- The bytes that a call brings to one thread and stream.
abbrev pub written : ℕ → IoStream → Call → List ℕ
written t s (recorded e) =
    if e.thread_id == t && same_stream e.stream s then brought e e.stream else []
written t s _ = []

pending_in_unwrap :
    (s : IoStream) (o : Option ThreadBuffers)
    → pending_in s o ≡ pending_of s (unwrap_or o new_buffers)
unfolding new_buffers
pending_in_unwrap s (some bs) = refl
pending_in_unwrap stdout none = refl
pending_in_unwrap _ none = refl

same_buffer :
    (r s : IoStream) (bs : ThreadBuffers) (b b' : StreamBuffer) (out p : List ℕ)
    → buffer_of r bs ≡ some b
    → out ++ b'.payload ≡ b.payload ++ p
    → (if same_stream r s then out else []) ++ pending_of s (set_buffer r b' bs)
      ≡ pending_of s bs ++ (if same_stream r s then p else [])
unfolding buffer_of set_buffer
same_buffer stdin s bs b b' out p h e = cc
same_buffer stdout s bs b b' out p h e =
    ground (arith, append-nil bs.out.payload, append-nil bs.err.payload)
same_buffer stderr s bs b b' out p h e =
    ground (arith, append-nil bs.out.payload, append-nil bs.err.payload)

-- One update of one buffer, in the account of any thread and stream.
update_account :
    (k t : ℕ) (r s : IoStream) (m : List (ℕ × ThreadBuffers)) (b b' : StreamBuffer)
    (cs : List IoChunk) (p : List ℕ)
    → let bs = unwrap_or (lookup k m) new_buffers in
      buffer_of r bs ≡ some b
      → Tagged k r cs
      → payloads cs ++ b'.payload ≡ b.payload ++ p
      → sent_bytes t s cs ++ pending_in s (lookup t (insert k (set_buffer r b' bs) m))
        ≡ pending_in s (lookup t m) ++ (if k == t && same_stream r s then p else [])
update_account k t r s m b b' cs p h tagged e = elim (Bool-cases (k == t)) [
  | inl hit ↦
      rw
        (
          sent_bytes_of_Tagged k t r s cs tagged,
          lookup-insert k t _ m,
          hit,
          pending_in_unwrap s (lookup t m),
          ← (==_iff k t).0 hit,
        )
        (same_buffer r s (unwrap_or (lookup k m) new_buffers) b b' (payloads cs) p h e)
  | inr miss ↦
      rw (sent_bytes_of_Tagged k t r s cs tagged, lookup-insert k t _ m, miss)
        (sym (append-nil (pending_in s (lookup t m))))
]

-- The threads are told apart and the lock is good.
pub record IsSound (st : Batcher) : Type 0 where
  pub usable : st.poisoned ≡ false
  pub distinct : Unique st.threads

-- What a call must leave: the same soundness, no panic, and a balanced account.
pub record Accounts (t : ℕ) (s : IoStream) (st : Batcher) (p : List ℕ) (r : Ran) : Type 0 where
  pub sound : IsSound r.batcher
  pub returned : r.panicked ≡ false
  pub balanced : sent_bytes t s r.sent ++ pending t s r.batcher ≡ pending t s st ++ p

pub handle_output_account :
    (t : ℕ) (s : IoStream) (st : Batcher) (e : ProxyEvent) (b : StreamBuffer)
    → IsSound st
    → buffer_of e.stream (buffers_for e.thread_id st) ≡ some b
    → Accounts t s st
        (if e.thread_id == t && same_stream e.stream s then added e.operation e.payload else [])
        (handle_output st e)
unfolding handle_output buffers_for
handle_output_account t s st e b v h =
    let (b', cs) = update_buffer e b in
    let (kept, tagged) = update_buffer_bytes e b in
    rw (v.usable, h, handle_output)
      (record {
        sound = record {
          usable = v.usable;
          distinct = insert-Unique e.thread_id _ st.threads v.distinct;
        };
        returned = refl;
        balanced =
            update_account e.thread_id t e.stream s st.threads b b' cs (added e.operation e.payload)
              h tagged kept;
      })

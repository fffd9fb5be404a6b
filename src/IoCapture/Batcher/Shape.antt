-- ===== src/IoCapture/Batcher/Shape.antt =====
-- The chunks that io_capture/sink/batcher.rs hands over and the buffers that it keeps, after any
-- calls.
use codetracer_python_record.Prelude.{
  ℕ, ◌≡◌, subst, List, [], ◌∷◌, some, Option-cases, Bool-cases, inl, inr, lookup, insert, is_empty,
  unwrap_or, All, All-append, ◌==◌,
}
use codetracer_python_record.IoCapture.Events.{
  IoStream, stdout, stderr, stdin, ProxyEvent, step_boundary,
}
use codetracer_python_record.IoCapture.Buffer.{StreamBuffer}
use codetracer_python_record.IoCapture.Buffer.Shape.{
  IsSettled, IsFormed, new-IsSettled, emit-IsSettled,
}
use codetracer_python_record.IoCapture.Batcher.Settle.{update_buffer-IsSettled}
use codetracer_python_record.IoCapture.Batcher.{
  ThreadBuffers, new_buffers, buffer_of, set_buffer, flush_both, Batcher, empty, Ran, buffers_for,
  handle_output, handle_input, flush_before_step, flush_threads, flush_all, dispatch,
  handle_enriched_event, Call, recorded, stepping, draining, step, run,
}

-- Both buffers of a thread.
pub record AreSettled (bs : ThreadBuffers) : Type 0 where
  pub out : IsSettled bs.out
  pub err : IsSettled bs.err

-- The buffers of every thread.
abbrev pub AllSettled : List (ℕ × ThreadBuffers) → Type 0
AllSettled [] = Unit
AllSettled ((k, bs) ∷ m) = AreSettled bs × AllSettled m

lookup-AreSettled :
    (k : ℕ) (m : List (ℕ × ThreadBuffers))
    → AllSettled m
    → AreSettled (unwrap_or (lookup k m) new_buffers)
unfolding lookup new_buffers
lookup-AreSettled k [] v = record { out = new-IsSettled; err = new-IsSettled }
lookup-AreSettled k ((j, bs) ∷ m) v = elim (Bool-cases (j == k)) [
  | inl h ↦ rw (h, lookup) v.0
  | inr h ↦ rw (h, lookup) (lookup-AreSettled k m v.1)
]

insert-AllSettled :
    (k : ℕ) (bs : ThreadBuffers) (m : List (ℕ × ThreadBuffers))
    → AreSettled bs
    → AllSettled m
    → AllSettled (insert k bs m)
unfolding insert
insert-AllSettled k bs [] h v = (h, tt)
insert-AllSettled k bs ((j, cs) ∷ m) h v = elim (Bool-cases (j == k)) [
  | inl e ↦ rw (e, insert) (h, v.1)
  | inr e ↦ rw (e, insert) (v.0, insert-AllSettled k bs m h v.1)
]

flush_both-AreSettled :
    (k now : ℕ) (bs : ThreadBuffers)
    → AreSettled bs
    → let (bs', cs) = flush_both k now step_boundary bs in AreSettled bs' × All IsFormed cs
unfolding flush_both
flush_both-AreSettled k now bs v =
    let out = emit-IsSettled k stdout now step_boundary bs.out (λ p x y. (x, y)) v.out in
    let err = emit-IsSettled k stderr now step_boundary bs.err (λ p x y. (x, y)) v.err in
    (record { out = out.0; err = err.0 }, All-append IsFormed _ _ out.1 err.1)

flush_threads-AllSettled :
    (now : ℕ) (m : List (ℕ × ThreadBuffers))
    → AllSettled m
    → let (m', cs) = flush_threads now m in AllSettled m' × All IsFormed cs
unfolding flush_threads
flush_threads-AllSettled now [] v = (tt, tt)
flush_threads-AllSettled now ((k, bs) ∷ m) v =
    let first = flush_both-AreSettled k now bs v.0 in
    let rest = flush_threads-AllSettled now m v.1 in
    ((first.0, rest.0), All-append IsFormed _ _ first.1 rest.1)

-- What a call leaves.
abbrev pub Shaped : Ran → Type 0
Shaped r = AllSettled r.batcher.threads × All IsFormed r.sent

buffer_of-IsSettled :
    (s : IoStream) (b : StreamBuffer) (bs : ThreadBuffers)
    → buffer_of s bs ≡ some b
    → AreSettled bs
    → IsSettled b
unfolding buffer_of
buffer_of-IsSettled stdout b bs h v = subst IsSettled (cc h) v.out
buffer_of-IsSettled stderr b bs h v = subst IsSettled (cc h) v.err
buffer_of-IsSettled stdin b bs h v = cc

set_buffer-AreSettled :
    (s : IoStream) (b : StreamBuffer) (bs : ThreadBuffers)
    → IsSettled b
    → AreSettled bs
    → AreSettled (set_buffer s b bs)
unfolding set_buffer
set_buffer-AreSettled stdout b bs h v = record { out = h; err = v.err }
set_buffer-AreSettled stderr b bs h v = record { out = v.out; err = h }
set_buffer-AreSettled stdin b bs h v = v

handle_output-Shaped :
    (st : Batcher) (e : ProxyEvent) → AllSettled st.threads → Shaped (handle_output st e)
unfolding handle_output buffers_for
handle_output-Shaped st e v =
    let k = e.thread_id in
    let bs = buffers_for k st in
    let settled = lookup-AreSettled k st.threads v in
    elim (Bool-cases st.poisoned) [
      | inl p ↦ rw (p, handle_output) (v, tt)
      | inr p ↦ elim (Option-cases (buffer_of e.stream bs)) [
        | inl h ↦ rw (p, h, handle_output) (insert-AllSettled k bs st.threads settled v, tt)
        | inr (b, h) ↦
            let updated =
              update_buffer-IsSettled e b (buffer_of-IsSettled e.stream b bs h settled) in
            rw (p, h, handle_output)
              (
                insert-AllSettled k _ st.threads
                    (set_buffer-AreSettled e.stream _ bs updated.0 settled) v,
                updated.1,
              )
      ]
    ]

handle_input-IsFormed : (e : ProxyEvent) → All IsFormed (handle_input e)
unfolding handle_input
handle_input-IsFormed e = elim (Bool-cases (is_empty e.payload)) [
  | inl h ↦ rw (h, handle_input) tt
  | inr h ↦ rw (h, handle_input) (h, tt)
]

dispatch-Shaped :
    (s : IoStream) (st : Batcher) (e : ProxyEvent)
    → AllSettled st.threads
    → Shaped (dispatch s st e)
unfolding dispatch
dispatch-Shaped stdin st e v = (v, handle_input-IsFormed e)
dispatch-Shaped _ st e v = handle_output-Shaped st e v

lookup-some-AreSettled :
    (k : ℕ) (bs : ThreadBuffers) (m : List (ℕ × ThreadBuffers))
    → lookup k m ≡ some bs
    → AllSettled m
    → AreSettled bs
lookup-some-AreSettled k bs m h v = rw h at (lookup-AreSettled k m v)

flush_before_step-Shaped :
    (st : Batcher) (k now : ℕ) → AllSettled st.threads → Shaped (flush_before_step st k now)
unfolding flush_before_step
flush_before_step-Shaped st k now v = elim (Bool-cases st.poisoned) [
  | inl p ↦ rw (p, flush_before_step) (v, tt)
  | inr p ↦ elim (Option-cases (lookup k st.threads)) [
    | inl h ↦ rw (p, h, flush_before_step) (v, tt)
    | inr (bs, h) ↦
        let flushed = flush_both-AreSettled k now bs (lookup-some-AreSettled k bs st.threads h v) in
        rw (p, h, flush_before_step) (insert-AllSettled k _ st.threads flushed.0 v, flushed.1)
  ]
]

flush_all-Shaped : (st : Batcher) (now : ℕ) → AllSettled st.threads → Shaped (flush_all st now)
unfolding flush_all
flush_all-Shaped st now v = elim (Bool-cases st.poisoned) [
  | inl p ↦ rw (p, flush_all) (v, tt)
  | inr p ↦ rw (p, flush_all) (flush_threads-AllSettled now st.threads v)
]

-- Every call keeps the buffers settled and hands over well formed chunks, from any state whose
-- buffers are settled: a poisoned one too.
pub step-Shaped : (st : Batcher) (c : Call) → AllSettled st.threads → Shaped (step st c)
unfolding step handle_enriched_event
step-Shaped st (recorded e) v = dispatch-Shaped e.stream st e v
step-Shaped st (stepping k now) v = flush_before_step-Shaped st k now v
step-Shaped st (draining now) v = flush_all-Shaped st now v

run-Shaped :
    (st : Batcher) (cs : List Call)
    → AllSettled st.threads
    → AllSettled (run st cs).0.threads × All IsFormed (run st cs).1
unfolding run
run-Shaped st [] v = (v, tt)
run-Shaped st (c ∷ cs) v =
    let first = step-Shaped st c v in
    let rest = run-Shaped (step st c).batcher cs first.0 in
    (rest.0, All-append IsFormed _ _ first.1 rest.1)

-- After any calls on a new batcher every chunk with the newline flag is exactly one line, every
-- input chunk is not empty, and every other chunk is a part of a line, not empty and without a
-- newline; in every buffer no newline waits, an empty one names no origin, and bytes that wait
-- are dated.
pub run-IsFormed :
    (cs : List Call) → All IsFormed (run empty cs).1 × AllSettled (run empty cs).0.threads
unfolding empty
run-IsFormed cs = let shaped = run-Shaped empty cs tt in (shaped.1, shaped.0)

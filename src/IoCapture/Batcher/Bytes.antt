-- ===== src/IoCapture/Batcher/Bytes.antt =====
-- No byte of the output is lost, repeated or reordered by the batching of
-- io_capture/sink/batcher.rs, whatever the calls and however the threads interleave.
use codetracer_python_record.Prelude.{
  ℕ, ◌≡◌, refl, ap, ◌∙◌, sym, Bool, true, false, List, [], ◌∷◌, ◌++◌, Option, none, some, arith,
  append-nil, append_assoc, ◌==◌, ◌&&◌, if◌then◌else◌, Option-cases, Bool-cases, inl, inr, lookup,
  lookup-insert, Unique, insert-Unique, is_empty, is_empty→nil,
}
use codetracer_python_record.IoCapture.Events.{
  IoStream, stdout, stderr, stdin, ProxyEvent, IoChunkFlags, step_boundary, same_stream,
}
use codetracer_python_record.IoCapture.Buffer.{emit}
use codetracer_python_record.IoCapture.Buffer.Bytes.{payload-emit, payloads-emit_all}
use codetracer_python_record.IoCapture.Buffer.Sent.{
  sent_bytes, sent_bytes-append, sent_bytes_of_Tagged, emit-Tagged,
}
use codetracer_python_record.IoCapture.Batcher.{
  ThreadBuffers, buffer_of, flush_both, Batcher, empty, buffers_for, handle_input,
  flush_before_step, flush_threads, flush_all, dispatch, handle_enriched_event, Call, recorded,
  stepping, draining, step, run,
}
use codetracer_python_record.IoCapture.Batcher.Account.{
  pending_of, pending_in, pending, written, brought, IsSound, Accounts, handle_output_account,
}

handle_input_bytes :
    (t : ℕ) (s : IoStream) (e : ProxyEvent)
    → e.stream ≡ stdin
    → sent_bytes t s (handle_input e)
      ≡ (if e.thread_id == t && same_stream e.stream s then e.payload else [])
unfolding handle_input
handle_input_bytes t s e h = elim (Bool-cases (is_empty e.payload)) [
  | inl x ↦ rw (h, x, handle_input, is_empty→nil e.payload x) (ground arith)
  | inr x ↦ rw (h, x, handle_input) (ground (arith, append-nil e.payload))
]

flushed :
    (hit : Bool) (s : IoStream) (out err : List ℕ) (bs : ThreadBuffers)
    → out ≡ bs.out.payload
    → err ≡ bs.err.payload
    → (if hit && same_stream stdout s then out else [])
        ++ (if hit && same_stream stderr s then err else [])
      ≡ (if hit then pending_of s bs else [])
flushed false s out err bs h k = refl
flushed true stdout out err bs h k = append-nil out ∙ h
flushed true stderr out err bs h k = k
flushed true stdin out err bs h k = refl

emptied :
    (s : IoStream) (bs : ThreadBuffers)
    → bs.out.payload ≡ []
    → bs.err.payload ≡ []
    → pending_of s bs ≡ []
emptied stdout bs h k = h
emptied stderr bs h k = k
emptied stdin bs h k = refl

-- A flush of both buffers hands over all that its thread has pending, and nothing of other threads.
pub flush_both_bytes :
    (k t : ℕ) (s : IoStream) (now : ℕ) (f : IoChunkFlags) (bs : ThreadBuffers)
    → let (bs', cs) = flush_both k now f bs in
      (sent_bytes t s cs ≡ (if k == t then pending_of s bs else [])) × (pending_of s bs' ≡ [])
unfolding flush_both
flush_both_bytes k t s now f bs =
    let (out, cs) = emit k stdout now f bs.out in
    let (err, ds) = emit k stderr now f bs.err in
    (
      rw
          (
            sent_bytes-append t s cs ds,
            sent_bytes_of_Tagged k t stdout s cs (emit-Tagged k stdout now f bs.out),
            sent_bytes_of_Tagged k t stderr s ds (emit-Tagged k stderr now f bs.err),
          )
          (flushed (k == t) s _ _ bs (payloads-emit_all k stdout now f bs.out)
            (payloads-emit_all k stderr now f bs.err)),
      emptied s (record { out = out; err = err }) (payload-emit k stdout now f bs.out)
          (payload-emit k stderr now f bs.err),
    )

flush_threads-none :
    (t : ℕ) (s : IoStream) (now : ℕ) (m : List (ℕ × ThreadBuffers))
    → lookup t m ≡ none
    → (sent_bytes t s (flush_threads now m).1 ≡ []) × (lookup t (flush_threads now m).0 ≡ none)
unfolding flush_threads lookup
flush_threads-none t s now [] h = (refl, refl)
flush_threads-none t s now ((k, bs) ∷ m) h =
    let (bs', cs) = flush_both k now step_boundary bs in
    ground (
      arith,
      sent_bytes-append t s cs (flush_threads now m).1,
      flush_both_bytes k t s now step_boundary bs,
      flush_threads-none t s now m,
    )

pub flush_threads_bytes :
    (t : ℕ) (s : IoStream) (now : ℕ) (m : List (ℕ × ThreadBuffers))
    → Unique m
    → let (m', cs) = flush_threads now m in
      Unique m'
      × (sent_bytes t s cs ++ pending_in s (lookup t m') ≡ pending_in s (lookup t m))
      × (pending_in s (lookup t m') ≡ [])
unfolding flush_threads lookup
flush_threads_bytes t s now [] u = (tt, refl, refl)
flush_threads_bytes t s now ((k, bs) ∷ m) u =
    let (bs', cs) = flush_both k now step_boundary bs in
    ground (
      arith,
      sent_bytes-append t s cs (flush_threads now m).1,
      flush_both_bytes k t s now step_boundary bs,
      flush_threads-none t s now m,
      flush_threads-none k s now m,
      flush_threads_bytes t s now m,
      append-nil (pending_of s bs),
    )

-- Input is never pending, so it has its place in the account before what waits.
input_apart :
    (t : ℕ) (s : IoStream) (e : ProxyEvent) (o : Option ThreadBuffers)
    → let input = if e.thread_id == t && same_stream stdin s then e.payload else [] in
      input ++ pending_in s o ≡ pending_in s o ++ input
input_apart t stdin e none = ground (arith, append-nil e.payload)
input_apart t stdin e (some bs) = ground (arith, append-nil e.payload)
input_apart t stdout e o = ground (arith, append-nil (pending_in stdout o))
input_apart t stderr e o = ground (arith, append-nil (pending_in stderr o))

dispatch_account :
    (t : ℕ) (s r : IoStream) (st : Batcher) (e : ProxyEvent)
    → IsSound st
    → e.stream ≡ r
    → Accounts t s st
        (if e.thread_id == t && same_stream e.stream s then brought e r else [])
        (dispatch r st e)
unfolding dispatch buffer_of
dispatch_account t s stdin st e v h = record {
  sound = v;
  returned = refl;
  balanced = rw (handle_input_bytes t s e h, h) (input_apart t s e (lookup t st.threads));
}
dispatch_account t s stdout st e v h =
    handle_output_account t s st e (buffers_for e.thread_id st).out v (rw h)
dispatch_account t s stderr st e v h =
    handle_output_account t s st e (buffers_for e.thread_id st).err v (rw h)

flush_before_step_account :
    (t : ℕ) (s : IoStream) (st : Batcher) (k now : ℕ)
    → IsSound st
    → Accounts t s st [] (flush_before_step st k now)
unfolding flush_before_step
flush_before_step_account t s st k now v = elim (Option-cases (lookup k st.threads)) [
  | inl e ↦
      rw (v.usable, e, flush_before_step)
        (record { sound = v; returned = refl; balanced = sym (append-nil (pending t s st)) })
  | inr (bs, e) ↦
      let (bs', cs) = flush_both k now step_boundary bs in
      rw (v.usable, e, flush_before_step)
        (record {
          sound = record {
            usable = v.usable;
            distinct = insert-Unique k bs' st.threads v.distinct;
          };
          returned = refl;
          balanced = ground (
            arith,
            lookup-insert k t bs' st.threads,
            flush_both_bytes k t s now step_boundary bs,
            append-nil (pending_of s bs),
            append-nil (pending t s st),
          );
        })
]

flush_all_account :
    (t : ℕ) (s : IoStream) (st : Batcher) (now : ℕ)
    → IsSound st
    → Accounts t s st [] (flush_all st now)
unfolding flush_all
flush_all_account t s st now v =
    let flushed = flush_threads_bytes t s now st.threads v.distinct in
    rw (v.usable, flush_all)
      (record {
        sound = record { usable = refl; distinct = flushed.0 };
        returned = refl;
        balanced = flushed.1 ∙ sym (append-nil (pending t s st));
      })

-- Every call keeps the batcher sound, returns, and balances the account of any thread and stream.
pub step_account :
    (t : ℕ) (s : IoStream) (st : Batcher) (c : Call)
    → IsSound st
    → Accounts t s st (written t s c) (step st c)
unfolding step handle_enriched_event
step_account t s st (recorded e) v = dispatch_account t s e.stream st e v refl
step_account t s st (stepping k now) v = flush_before_step_account t s st k now v
step_account t s st (draining now) v = flush_all_account t s st now v

abbrev pub all_written : ℕ → IoStream → List Call → List ℕ
all_written t s [] = []
all_written t s (c ∷ cs) = written t s c ++ all_written t s cs

run_account :
    (t : ℕ) (s : IoStream) (st : Batcher) (cs : List Call)
    → IsSound st
    → let (st', sent) = run st cs in
      IsSound st' × (sent_bytes t s sent ++ pending t s st' ≡ pending t s st ++ all_written t s cs)
unfolding run
run_account t s st [] v = (v, sym (append-nil (pending t s st)))
run_account t s st (c ∷ cs) v =
    let r = step st c in
    let first = step_account t s st c v in
    let rest = run_account t s r.batcher cs first.sound in
    let (st', sent) = run r.batcher cs in
    (
      rest.0,
      ap (λ p. p ++ pending t s st') (sent_bytes-append t s r.sent sent)
          ∙ append_assoc (sent_bytes t s r.sent) (sent_bytes t s sent) (pending t s st')
          ∙ ap (λ p. sent_bytes t s r.sent ++ p) rest.1
          ∙ sym (append_assoc (sent_bytes t s r.sent) (pending t s r.batcher) _)
          ∙ ap (λ p. p ++ all_written t s cs) first.balanced
          ∙ append_assoc (pending t s st) (written t s c) (all_written t s cs),
    )

pub empty-IsSound : IsSound empty
unfolding empty
empty-IsSound = record { usable = refl; distinct = tt }

-- From a new batcher, after any sequence of recorded events, step flushes and drains over any
-- threads, the bytes of the chunks handed over for a thread and stream, followed by the bytes
-- still pending there, are the bytes written there, in the order of the writes.
pub run_conserves :
    (t : ℕ) (s : IoStream) (cs : List Call)
    → let (st, sent) = run empty cs in sent_bytes t s sent ++ pending t s st ≡ all_written t s cs
unfolding empty lookup
run_conserves t s cs = (run_account t s empty cs empty-IsSound).1

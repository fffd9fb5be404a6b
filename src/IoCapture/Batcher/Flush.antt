-- ===== src/IoCapture/Batcher/Flush.antt =====
-- What the flushes of io_capture/sink/batcher.rs leave pending, when a buffer is split for its age,
-- and what follows a panic.
use codetracer_python_record.Prelude.{
  ℕ, ◌+◌, ◌≤◌, ◌<◌, ◌≡◌, refl, ◌≢◌, Bool, true, false, ◌||◌, List, [], ◌∷◌, some, arith,
  Option-cases, inl, inr, lookup, is_empty, lookup-insert,
}
use codetracer_python_record.IoCapture.Events.{
  IoStream, stdin, ProxyEvent, step_boundary, time_split,
}
use codetracer_python_record.IoCapture.Buffer.{
  StreamBuffer, emit, is_stale, chunk_of, max_batch_age,
}
use codetracer_python_record.IoCapture.Buffer.Shape.{IsSettled}
use codetracer_python_record.IoCapture.Batcher.{
  flush_both, Batcher, empty, Ran, split_stale, handle_output, flush_before_step, flush_all, Call,
  step,
}
use codetracer_python_record.IoCapture.Batcher.Account.{pending, IsSound}
use codetracer_python_record.IoCapture.Batcher.Bytes.{
  flush_both_bytes, flush_threads_bytes, step_account, empty-IsSound,
}

-- The flush before a step of a sound batcher leaves nothing pending on any stream of the
-- stepping thread, and leaves the buffers of every other thread as they were.
flush_before_step_lem :
    (st : Batcher) (t now : ℕ)
    → IsSound st
    → let st' = (flush_before_step st t now).batcher in
      ((s : IoStream) → pending t s st' ≡ [])
      × ((k : ℕ) → k ≢ t → lookup k st'.threads ≡ lookup k st.threads)
unfolding flush_before_step
flush_before_step_lem st t now v = elim (Option-cases (lookup t st.threads)) [
  | inl e ↦ rw (v.usable, e, flush_before_step) (λ s. rw e, λ k h. refl)
  | inr (bs, e) ↦
      let bs' = (flush_both t now step_boundary bs).0 in
      rw (v.usable, e, flush_before_step)
        (
          λ s.
              rw (lookup-insert t t bs' st.threads)
                (ground (arith, flush_both_bytes t t s now step_boundary bs)),
          λ k h. ground (arith, lookup-insert t k bs' st.threads),
        )
]

-- A drain of a sound batcher leaves nothing pending for any thread and stream.
pub pending-flush_all :
    (st : Batcher) (now t : ℕ) (s : IoStream)
    → IsSound st
    → pending t s (flush_all st now).batcher ≡ []
unfolding flush_all
pending-flush_all st now t s v =
    rw (v.usable, flush_all) (flush_threads_bytes t s now st.threads v.distinct).2

-- A settled buffer with pending bytes knows when it was last written; from five milliseconds
-- later on the next event first hands over all its bytes in one time-split chunk dated then,
-- and before that hands over nothing and leaves the buffer.
split_stale_lem :
    (e : ProxyEvent) (b : StreamBuffer)
    → IsSettled b
    → is_empty b.payload ≡ false
    → (last : ℕ) × (b.last_timestamp ≡ some last)
      × (last + max_batch_age ≤ e.timestamp
          → (split_stale e b).1 ≡ chunk_of e.thread_id e.stream last time_split b b.payload ∷ [])
      × (e.timestamp < last + max_batch_age → split_stale e b ≡ (b, []))
unfolding split_stale is_stale emit
split_stale_lem e b v h = elim (Option-cases b.last_timestamp) [
  | inl n ↦ absurd (ground (arith, v.dated h))
  | inr (last, n) ↦ (last, n, λ old. ground arith, λ young. ground arith)
]

-- What every operation under the lock gives once it is poisoned.
abbrev pub refused : Batcher → Ran
refused st = record { batcher = st; sent = []; panicked = true }

refused_of_poisoned :
    (st : Batcher) (e : ProxyEvent) (t now : ℕ)
    → st.poisoned ≡ true
    → (handle_output st e ≡ refused st)
      × (flush_before_step st t now ≡ refused st)
      × (flush_all st now ≡ refused st)
unfolding handle_output flush_before_step flush_all
refused_of_poisoned st e t now h = (ground arith, ground arith, ground arith)

stdin_poisons :
    (st : Batcher) (e : ProxyEvent)
    → e.stream ≡ stdin
    → ((handle_output st e).panicked ≡ true) × ((handle_output st e).batcher.poisoned ≡ true)
unfolding handle_output
stdin_poisons st e h = (ground arith, ground arith)

-- An output event that names standard input panics, and so does every later output event and
-- every flush, which hand over nothing and change nothing.
handle_output-stdin :
    (st : Batcher) (e f : ProxyEvent) (t now : ℕ)
    → e.stream ≡ stdin
    → let st' = (handle_output st e).batcher in
      ((handle_output st e).panicked ≡ true)
      × (handle_output st' f ≡ refused st')
      × (flush_before_step st' t now ≡ refused st')
      × (flush_all st' now ≡ refused st')
handle_output-stdin st e f t now h =
    let (fails, poisons) = stdin_poisons st e h in
    let later = refused_of_poisoned (handle_output st e).batcher f t now poisons in
    (fails, later.0, later.1, later.2)

-- Whether some call of a history panics.
abbrev pub panics : Batcher → List Call → Bool
panics st [] = false
panics st (c ∷ cs) = let later = panics (step st c).batcher cs in (step st c).panicked || later

panics_of_IsSound : (st : Batcher) (cs : List Call) → IsSound st → panics st cs ≡ false
panics_of_IsSound st [] v = refl
panics_of_IsSound st (c ∷ cs) v =
    let done = step_account 0 stdin st c v in
    ground (arith, done.returned, panics_of_IsSound (step st c).batcher cs done.sound)

-- Through the sink, which keeps input away from the output buffers, no call on a batcher that
-- started new ever panics.
pub panics_never : (cs : List Call) → panics empty cs ≡ false
panics_never cs = panics_of_IsSound empty cs empty-IsSound

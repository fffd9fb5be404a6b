-- ===== src/Coordinator/Ends.antt =====
-- What becomes of captured bytes between the sink and the trace: runtime/tracer/io.rs and
-- runtime/io_capture/pipeline.rs.
use codetracer_python_record.Prelude.{
  ℕ, true, ◌&&◌, Option, none, some, List, [], ◌∷◌, ◌++◌, ◌∙◌, ◌≡◌, refl, String, if◌then◌else◌,
  arith, ap, sym, subst, map, concat, concat-append, keep, keep-append, is_ascii, from_utf8_lossy,
  from_utf8_lossy_ascii, Bool, false, append-nil, append_assoc, ◌==◌, lookup,
}
use mathlib.Core.List.{map-append}
use codetracer_python_record.IoCapture.Events.{IoStream, IoChunk, same_stream}
use codetracer_python_record.IoCapture.Buffer.Sent.{sent_bytes, sent_bytes-append}
use codetracer_python_record.IoCapture.Batcher.{
  empty, Call, recorded, stepping, draining, step, flush_all,
}
use codetracer_python_record.IoCapture.Batcher.Account.{pending, written, IsSound}
use codetracer_python_record.IoCapture.Batcher.Bytes.{step_account, all_written, empty-IsSound}
use codetracer_python_record.IoCapture.Batcher.Flush.{pending-flush_all}
use codetracer_python_record.Enricher.{LineSnapshotStore}
use codetracer_python_record.Coordinator.{
  IoCall, ensure_path_id, register_special_event, IoCapturePipeline, IoCoordinator, new_coordinator,
  install, consume, build_metadata, record_chunk, record_chunks, drain_chunks, teardown, IoStep,
  sink_call, locates, io_step, io_run, capture_event, flush_before_step_io, flush_all_io,
}

-- The contents of the events of one thread and stream.
abbrev pub contents : ℕ → IoStream → List IoCall → List (List ℕ)
contents t s [] = []
contents t s (ensure_path_id path ∷ calls) = contents t s calls
contents t s (register_special_event kind m content ∷ calls) =
    if m.thread == t && same_stream m.stream s
    then content ∷ contents t s calls
    else contents t s calls

-- Texts that decode the pieces of these bytes, one each.
abbrev pub Decode : List (List ℕ) → List ℕ → Type 0
Decode texts bytes =
    (pieces : List (List ℕ)) × (concat pieces ≡ bytes) × (texts ≡ map from_utf8_lossy pieces)

Decode-append :
    (texts more : List (List ℕ)) (bytes others : List ℕ)
    → Decode texts bytes
    → Decode more others
    → Decode (texts ++ more) (bytes ++ others)
Decode-append texts more bytes others (ps, whole, e) (qs, whole', e') = (
  ps ++ qs,
  rw (concat-append ps qs) (rw (whole, whole') refl),
  rw (e, e') (sym (map-append from_utf8_lossy ps qs)),
)

pieces_ascii :
    (pieces : List (List ℕ))
    → keep is_ascii (concat (map from_utf8_lossy pieces)) ≡ keep is_ascii (concat pieces)
pieces_ascii [] = refl
pieces_ascii (p ∷ ps) =
    keep-append is_ascii (from_utf8_lossy p) (concat (map from_utf8_lossy ps))
    ∙ ap (λ l. l ++ keep is_ascii (concat (map from_utf8_lossy ps))) (from_utf8_lossy_ascii p)
    ∙ ap (λ l. keep is_ascii p ++ l) (pieces_ascii ps)
    ∙ sym (keep-append is_ascii p (concat ps))

texts_ascii :
    (texts : List (List ℕ)) (bytes : List ℕ)
    → Decode texts bytes
    → keep is_ascii (concat texts) ≡ keep is_ascii bytes
texts_ascii texts bytes (pieces, whole, e) =
    ap (λ l. keep is_ascii (concat l)) e ∙ pieces_ascii pieces ∙ ap (λ l. keep is_ascii l) whole

-- The calls of the sink among the steps.
abbrev pub sink_calls : List IoStep → List Call
sink_calls [] = []
sink_calls (sink_call c ∷ steps) = c ∷ sink_calls steps
sink_calls (locates t p l f ∷ steps) = sink_calls steps

module _ (t : ℕ) (s : IoStream) where
  contents-append :
      (xs ys : List IoCall) → contents t s (xs ++ ys) ≡ contents t s xs ++ contents t s ys
  contents-append [] ys = refl
  contents-append (ensure_path_id path ∷ xs) ys = contents-append xs ys
  contents-append (register_special_event kind m content ∷ xs) ys =
      ground (arith, contents-append xs ys)

  -- What calls carry, one list behind another.
  carried-append :
      (xs ys : List IoCall) (bytes others : List ℕ)
      → Decode (contents t s xs) bytes
      → Decode (contents t s ys) others
      → Decode (contents t s (xs ++ ys)) (bytes ++ others)
  carried-append xs ys bytes others h k =
      subst (λ l. Decode l (bytes ++ others)) (sym (contents-append xs ys))
        (Decode-append (contents t s xs) (contents t s ys) bytes others h k)

  -- What the buffer and the sink still hold.
  abbrev held : IoCapturePipeline → List ℕ
  held p = sent_bytes t s p.queue ++ pending t s p.sink

  module _ (path_id_of : String → ℕ) where
    event-Decode :
        (chunk : IoChunk) (same : Bool)
        → Decode
            (if same then from_utf8_lossy chunk.payload ∷ [] else [])
            (if same then chunk.payload ++ [] else [])
    event-Decode chunk true = (chunk.payload ∷ [], refl, refl)
    event-Decode chunk false = ([], refl, refl)

    chunk-Decode :
        (store : LineSnapshotStore) (chunk : IoChunk) (id : Option ℕ) (path : Option String)
        → chunk.path_id ≡ id
        → chunk.path ≡ path
        → Decode (contents t s (record_chunk path_id_of store chunk)) (sent_bytes t s (chunk ∷ []))
    unfolding record_chunk build_metadata
    chunk-Decode store chunk (some id) path e p =
        rw e (event-Decode chunk (chunk.thread_id == t && same_stream chunk.stream s))
    chunk-Decode store chunk none none e p =
        rw (e, p) (event-Decode chunk (chunk.thread_id == t && same_stream chunk.stream s))
    chunk-Decode store chunk none (some path) e p =
        rw (e, p) (event-Decode chunk (chunk.thread_id == t && same_stream chunk.stream s))

    chunks-Decode :
        (store : LineSnapshotStore) (chunks : List IoChunk)
        → Decode (contents t s (record_chunks path_id_of store chunks)) (sent_bytes t s chunks)
    unfolding record_chunks
    chunks-Decode store [] = ([], refl, refl)
    chunks-Decode store (chunk ∷ chunks) =
        subst (λ l. Decode (contents t s (record_chunks path_id_of store (chunk ∷ chunks))) l)
          (sym (sent_bytes-append t s (chunk ∷ []) chunks))
          (carried-append (record_chunk path_id_of store chunk)
            (record_chunks path_id_of store chunks) (sent_bytes t s (chunk ∷ []))
            (sent_bytes t s chunks) (chunk-Decode store chunk chunk.path_id chunk.path refl refl)
            (chunks-Decode store chunks))

    -- A call of the sink, with the buffer behind it.
    consume_balance :
        (p : IoCapturePipeline) (c : Call)
        → IsSound p.sink
        → sent_bytes t s (p.queue ++ (step p.sink c).sent) ++ pending t s (step p.sink c).batcher
          ≡ held p ++ written t s c
    consume_balance p c v =
        let r = step p.sink c in
        ap (λ l. l ++ pending t s r.batcher) (sent_bytes-append t s p.queue r.sent)
        ∙ append_assoc (sent_bytes t s p.queue) (sent_bytes t s r.sent) (pending t s r.batcher)
        ∙ ap (λ l. sent_bytes t s p.queue ++ l) (step_account t s p.sink c v).balanced
        ∙ sym (append_assoc (sent_bytes t s p.queue) (pending t s p.sink) (written t s c))

    -- A step keeps a pipeline, and what it records and holds is what was held and written.
    abbrev Balances : IoCapturePipeline → List ℕ → IoCoordinator × List IoCall → Type 0
    Balances p more (io, calls) =
        (p' : IoCapturePipeline) × (io.pipeline ≡ some p')
        × IsSound p'.sink
        × ((read : List ℕ) × Decode (contents t s calls) read × (read ++ held p' ≡ held p ++ more))

    step_balance :
        (io : IoCoordinator) (p : IoCapturePipeline) (x : IoStep)
        → io.pipeline ≡ some p
        → IsSound p.sink
        → Balances p (all_written t s (sink_calls (x ∷ []))) (io_step path_id_of io x)
    unfolding io_step capture_event flush_before_step_io flush_all_io drain_chunks consume step
    step_balance io p (sink_call (recorded e)) has v =
        let r = step p.sink (recorded e) in
        rw (has, io_step)
          (
            record { sink = r.batcher; queue = p.queue ++ r.sent },
            refl,
            (step_account t s p.sink (recorded e) v).sound,
            (
              [],
              ([], refl, refl),
              consume_balance p (recorded e) v ∙ ap (λ l. held p ++ l) (sym (append-nil _)),
            ),
          )
    step_balance io p (sink_call (stepping k now)) has v =
        let r = step p.sink (stepping k now) in
        rw (has, io_step)
          (
            record { sink = r.batcher; queue = [] },
            refl,
            (step_account t s p.sink (stepping k now) v).sound,
            (
              sent_bytes t s (p.queue ++ r.sent),
              chunks-Decode io.snapshots (p.queue ++ r.sent),
              consume_balance p (stepping k now) v,
            ),
          )
    step_balance io p (sink_call (draining now)) has v =
        let r = step p.sink (draining now) in
        rw (has, io_step)
          (
            record { sink = r.batcher; queue = [] },
            refl,
            (step_account t s p.sink (draining now) v).sound,
            (
              sent_bytes t s (p.queue ++ r.sent),
              chunks-Decode io.snapshots (p.queue ++ r.sent),
              consume_balance p (draining now) v,
            ),
          )
    step_balance io p (locates k q l f) has v =
        (p, has, v, ([], ([], refl, refl), sym (append-nil (held p))))

    written_cons :
        (x : IoStep) (steps : List IoStep)
        → all_written t s (sink_calls (x ∷ steps))
          ≡ all_written t s (sink_calls (x ∷ [])) ++ all_written t s (sink_calls steps)
    written_cons (sink_call c) steps =
        sym (append_assoc (written t s c) [] (all_written t s (sink_calls steps)))
    written_cons (locates k q l f) steps = refl

    run_balance :
        (io : IoCoordinator) (p : IoCapturePipeline) (steps : List IoStep)
        → io.pipeline ≡ some p
        → IsSound p.sink
        → Balances p (all_written t s (sink_calls steps)) (io_run path_id_of io steps)
    unfolding io_run
    run_balance io p [] has v = (p, has, v, ([], ([], refl, refl), sym (append-nil (held p))))
    run_balance io p (x ∷ steps) has v =
        let (io', calls) = io_step path_id_of io x in
        let (p', has', v', (read, decode, first)) = step_balance io p x has v in
        let (last, has'', v'', (others, decodes, rest)) = run_balance io' p' steps has' v' in
        let here = all_written t s (sink_calls (x ∷ [])) in
        let there = all_written t s (sink_calls steps) in
        (
          last,
          has'',
          v'',
          (
            read ++ others,
            carried-append calls (io_run path_id_of io' steps).1 read others decode decodes,
            append_assoc read others (held last)
                ∙ ap (λ l. read ++ l) rest
                ∙ sym (append_assoc read (held p') there)
                ∙ ap (λ l. l ++ there) first
                ∙ append_assoc (held p) here there
                ∙ ap (λ l. held p ++ l) (sym (written_cons x steps)),
          ),
        )

    teardown-Decode :
        (io : IoCoordinator) (p : IoCapturePipeline) (now : ℕ) (late : List IoChunk)
        → io.pipeline ≡ some p
        → IsSound p.sink
        → Decode (contents t s (teardown path_id_of io now late).1) (held p ++ sent_bytes t s late)
    unfolding teardown drain_chunks consume step
    teardown-Decode io p now late has v =
        let r = flush_all p.sink now in
        let drained : sent_bytes t s (p.queue ++ r.sent) ++ [] ≡ held p ++ [] =
          ap (λ l. sent_bytes t s (p.queue ++ r.sent) ++ l)
            (sym (pending-flush_all p.sink now t s v))
          ∙ consume_balance p (draining now) v in
        let whole : sent_bytes t s (p.queue ++ r.sent) ≡ held p =
          sym (append-nil _) ∙ drained ∙ append-nil (held p) in
        rw (has, teardown)
          (carried-append (record_chunks path_id_of io.snapshots (p.queue ++ r.sent))
            (record_chunks path_id_of io.snapshots late) (held p) (sent_bytes t s late)
            (subst
              (λ l.
                Decode (contents t s (record_chunks path_id_of io.snapshots (p.queue ++ r.sent))) l)
              whole (chunks-Decode io.snapshots (p.queue ++ r.sent)))
            (chunks-Decode io.snapshots late))

    -- After any sequence of captured events, flushes and new positions on a coordinator with a
    -- fresh pipeline, and a teardown, the bytes that were written for a thread and stream, in
    -- order, and then those that came while the pipeline was uninstalled, can be cut into pieces
    -- such that the events in the trace carry just their lossy decodings, one each, in order;
    -- and the ASCII characters of the events are just those of the bytes.
    pub io_run-teardown :
        (steps : List IoStep) (now : ℕ) (late : List IoChunk)
        → let (io, calls) = io_run path_id_of (install new_coordinator true) steps in
          let texts = contents t s (calls ++ (teardown path_id_of io now late).1) in
          let bytes = all_written t s (sink_calls steps) ++ sent_bytes t s late in
          Decode texts bytes × (keep is_ascii (concat texts) ≡ keep is_ascii bytes)
    unfolding install new_coordinator empty lookup
    io_run-teardown steps now late =
        let start = install new_coordinator true in
        let p : IoCapturePipeline = record { sink = empty; queue = [] } in
        let (io, calls) = io_run path_id_of start steps in
        let (last, has, v, (read, decode, balance)) =
          run_balance start p steps refl empty-IsSound in
        let texts = contents t s (calls ++ (teardown path_id_of io now late).1) in
        let whole =
          sym (append_assoc read (held last) (sent_bytes t s late))
          ∙ ap (λ l. l ++ sent_bytes t s late) balance in
        let decodes =
          subst (λ l. Decode texts l) whole
            (carried-append calls (teardown path_id_of io now late).1 read
              (held last ++ sent_bytes t s late) decode (teardown-Decode io last now late has v)) in
        (
          decodes,
          texts_ascii texts (all_written t s (sink_calls steps) ++ sent_bytes t s late) decodes,
        )

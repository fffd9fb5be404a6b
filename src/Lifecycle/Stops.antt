-- ===== src/Lifecycle/Stops.antt =====
-- The end of a trace in runtime/tracer/lifecycle.rs where a call on the writer fails.
use codetracer_python_record.Prelude.{
  ℕ, ◌≡◌, ◌⊎◌, refl, Bool, true, false, Option, none, some, List, [], ◌∷◌, Bool-cases, inl, inr,
}
use codetracer_python_record.Lifecycle.{
  DigestResult, digest, wrong_length, invalid_byte, decode_sha256_hex, WriterOp, close,
  write_meta_dat, finish_writing_trace_events, record_empty_filter_provenance,
  add_filter_provenance, call, provenance_of, publish_entries, publish_filter_provenance, finalise,
}

abbrev pub last_op : WriterOp → List WriterOp → WriterOp
last_op op [] = op
last_op op (next ∷ ops) = last_op next ops

-- The last call of a list is this one.
abbrev pub EndsWith : WriterOp → List WriterOp → Type 0
EndsWith op [] = ⊥
EndsWith op (first ∷ ops) = last_op first ops ≡ op

module _ (succeeds : WriterOp → Bool) where
  -- Every call succeeded, but the last one if the result is an error that it made.
  abbrev pub StopsAtFailure : List WriterOp → Bool → Type 0
  StopsAtFailure [] ok = Unit
  StopsAtFailure (op ∷ ops) ok =
      ((succeeds op ≡ true) × StopsAtFailure ops ok)
      ⊎ ((succeeds op ≡ false) × (ops ≡ []) × (ok ≡ false))

  -- A result without error comes behind the call that closes the writer.
  abbrev pub IsOrderly : List WriterOp × Bool → Type 0
  IsOrderly r = StopsAtFailure r.0 r.1 × (r.1 ≡ true → EndsWith close r.0)

  last_op-EndsWith :
      (op : WriterOp) (ops : List WriterOp) → EndsWith close ops → EndsWith close (op ∷ ops)
  last_op-EndsWith op [] h = absurd h
  last_op-EndsWith op (next ∷ ops) h = h

  call-IsOrderly :
      (op : WriterOp) (rest : List WriterOp × Bool)
      → IsOrderly rest
      → IsOrderly (call succeeds op rest)
  call-IsOrderly op rest h = elim (Bool-cases (succeeds op)) [
    | inl e ↦ rw e (inl (e, h.0), λ ok. last_op-EndsWith op rest.0 (h.1 ok))
    | inr e ↦ rw e (inr (e, refl, refl), λ ok. cc)
  ]

  close-IsOrderly : IsOrderly (call succeeds close ([], true))
  close-IsOrderly = elim (Bool-cases (succeeds close)) [
    | inl e ↦ rw e (inl (e, tt), λ ok. refl)
    | inr e ↦ rw e (inr (e, refl, refl), λ ok. cc)
  ]

  provenance-IsOrderly :
      (path : ℕ) (decoded : DigestResult) (rest : List WriterOp × Bool)
      → IsOrderly rest
      → IsOrderly (provenance_of succeeds path decoded rest)
  provenance-IsOrderly path (digest raw) rest h =
      call-IsOrderly (add_filter_provenance path raw) rest h
  provenance-IsOrderly path (wrong_length n) rest h = (tt, λ ok. cc)
  provenance-IsOrderly path (invalid_byte c i) rest h = (tt, λ ok. cc)

  entries-IsOrderly :
      (entries : List (ℕ × List ℕ)) (rest : List WriterOp × Bool)
      → IsOrderly rest
      → IsOrderly (publish_entries succeeds entries rest)
  unfolding publish_entries
  entries-IsOrderly [] rest h = h
  entries-IsOrderly ((path, hex) ∷ entries) rest h =
      provenance-IsOrderly path (decode_sha256_hex hex) (publish_entries succeeds entries rest)
        (entries-IsOrderly entries rest h)

  publish-IsOrderly :
      (summary : Option (List (ℕ × List ℕ))) (rest : List WriterOp × Bool)
      → IsOrderly rest
      → IsOrderly (publish_filter_provenance succeeds summary rest)
  unfolding publish_filter_provenance
  publish-IsOrderly none rest h = h
  publish-IsOrderly (some []) rest h = call-IsOrderly record_empty_filter_provenance rest h
  publish-IsOrderly (some (entry ∷ entries)) rest h = entries-IsOrderly (entry ∷ entries) rest h

  -- Whatever the summary and whichever calls on the writer fail, the end of a trace makes no
  -- call behind one that fails and answers the error, and it answers no error only if the last
  -- call closed the writer.
  pub finalise-IsOrderly :
      (summary : Option (List (ℕ × List ℕ))) → IsOrderly (finalise succeeds summary)
  unfolding finalise
  finalise-IsOrderly summary = publish-IsOrderly summary _ (
      call-IsOrderly finish_writing_trace_events _
        (call-IsOrderly write_meta_dat _ close-IsOrderly))

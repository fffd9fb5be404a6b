-- ===== src/Tests/Lifecycle.antt =====
-- The theorems on digests and the end of a trace at concrete inputs.
use codetracer_python_record.Prelude.{
  ℕ, ◌<◌, ◌≡◌, ◌++◌, refl, Bool, true, false, some, List, [], ◌∷◌, arith, All,
}
use codetracer_python_record.Lifecycle.{
  WriterOp, finish_writing_trace_events, write_meta_dat, close, add_filter_provenance,
  record_empty_filter_provenance, finalise,
}
use codetracer_python_record.Lifecycle.Digest.{summary_of, provenance_ops, finalise_lem}
use codetracer_python_record.Lifecycle.Stops.{IsOrderly, finalise-IsOrderly}

abbrev quarter : List ℕ
quarter = 0 ∷ 255 ∷ 18 ∷ 171 ∷ 9 ∷ 10 ∷ 160 ∷ 1 ∷ []

abbrev bytes : List ℕ
bytes = quarter ++ (quarter ++ (quarter ++ quarter))

bytes_below : All (λ (b : ℕ). b < 256) bytes
bytes_below = omega arith

abbrev writes : WriterOp → Bool
writes op = true

finalise_example : finalise writes (some (summary_of ((4, bytes) ∷ []))) ≡ (
  provenance_ops ((4, bytes) ∷ []) ++ finish_writing_trace_events ∷ write_meta_dat ∷ close ∷ [],
  true,
)
finalise_example = finalise_lem writes (λ op. refl) (4, bytes) [] (refl, bytes_below, tt)

-- A writer that cannot write the metadata.
abbrev writes_no_meta : WriterOp → Bool
writes_no_meta write_meta_dat = false
writes_no_meta record_empty_filter_provenance = true
writes_no_meta finish_writing_trace_events = true
writes_no_meta close = true
writes_no_meta (add_filter_provenance path raw) = true

finalise-IsOrderly_example : IsOrderly writes_no_meta (finalise writes_no_meta (some []))
finalise-IsOrderly_example = finalise-IsOrderly writes_no_meta (some [])

-- ===== src/Lifecycle.antt =====
-- `LifecycleController` of codetracer-python-recorder/src/runtime/tracer/lifecycle.rs: what a trace has
-- recorded, whether its absence is an error, and how it is finished. The trace writer is a parameter:
-- which of its calls fail. Bytes are numbers, a digest in hexadecimal is a list of bytes.
pub mod Digest
pub mod Stops
use codetracer_python_record.Prelude.{
  ℕ, suc, ◌+◌, ◌-◌, ◌*◌, Bool, true, false, not, ◌&&◌, Option, none, some, List, [], ◌∷◌, ◌++◌, leb,
  ◌==◌, if◌then◌else◌, length,
}

pub data DigestResult : Type 0 where
  digest : List ℕ → DigestResult
  wrong_length : ℕ → DigestResult
  invalid_byte : ℕ → ℕ → DigestResult

-- The value of a hexadecimal character.
unfoldable pub hex_value : ℕ → Option ℕ
hex_value c =
    if leb b'0' c && leb c b'9'
    then some (c - b'0')
    else if leb b'a' c && leb c b'f'
    then some (c - b'a' + 10)
    else if leb b'A' c && leb c b'F'
    then some (c - b'A' + 10)
    else none

-- `out[i] = (high << 4) | low` before the bytes that follow. Both are below 16.
abbrev pub before_digest : ℕ → DigestResult → DigestResult
before_digest b (digest out) = digest (b ∷ out)
before_digest b (wrong_length n) = wrong_length n
before_digest b (invalid_byte c i) = invalid_byte c i

-- The two characters at index `i`, and the result for those behind them.
abbrev pub decode_pair : ℕ → ℕ → ℕ → Option ℕ → Option ℕ → DigestResult → DigestResult
decode_pair i c d none low rest = invalid_byte c i
decode_pair i c d (some high) none rest = invalid_byte d (i + 1)
decode_pair i c d (some high) (some low) rest = before_digest (high * 16 + low) rest

-- The loop over the pairs; the length was checked to be even.
unfoldable pub decode_pairs : ℕ → List ℕ → DigestResult
decode_pairs i [] = digest []
decode_pairs i (c ∷ []) = digest []
decode_pairs i (c ∷ d ∷ hex) =
    decode_pair i c d (hex_value c) (hex_value d) (decode_pairs (i + 2) hex)

unfoldable pub decode_sha256_hex : List ℕ → DigestResult
decode_sha256_hex hex = if length hex == 64 then decode_pairs 0 hex else wrong_length (length hex)

-- The controller, without its activation (module Activation) and its trace id. An output is `true`
-- where paths are set.
pub record LifecycleController : Type 0 where
  pub output_paths : Bool
  pub events_recorded : Bool
  pub encountered_failure : Bool

abbrev pub new_lifecycle : LifecycleController
new_lifecycle = record {
  output_paths = false;
  events_recorded = false;
  encountered_failure = false;
}

-- `begin`: nothing changes where `configure_writer` fails.
unfoldable pub begin : LifecycleController → Bool → LifecycleController × Bool
begin l configured =
    if configured
    then (
      record { output_paths = true; events_recorded = false; encountered_failure = false },
      true,
    )
    else (l, false)

unfoldable pub mark_event : LifecycleController → LifecycleController
mark_event l = record l { events_recorded = true }

unfoldable pub mark_failure : LifecycleController → LifecycleController
mark_failure l = record l { encountered_failure = true }

-- `true` is `Ok`.
unfoldable pub require_trace_or_fail : LifecycleController → Bool → Bool
require_trace_or_fail l require_trace = not (require_trace && not l.events_recorded)

unfoldable pub reset_event_state : LifecycleController → LifecycleController
reset_event_state l = record {
  output_paths = false;
  events_recorded = false;
  encountered_failure = false;
}

-- The calls on the writer at the end of a trace. A path is a number.
pub data WriterOp : Type 0 where
  record_empty_filter_provenance finish_writing_trace_events write_meta_dat close : WriterOp
  add_filter_provenance : ℕ → List ℕ → WriterOp

module _ (succeeds : WriterOp → Bool) where
  -- A call, and what follows it where it succeeds: the calls made, and whether all is well.
  abbrev pub call : WriterOp → List WriterOp × Bool → List WriterOp × Bool
  call op rest = if succeeds op then (op ∷ rest.0, rest.1) else (op ∷ [], false)

  -- The loop over the entries of the summary, before what follows it.
  abbrev pub provenance_of : ℕ → DigestResult → List WriterOp × Bool → List WriterOp × Bool
  provenance_of path (digest raw) rest = call (add_filter_provenance path raw) rest
  provenance_of path (wrong_length n) rest = ([], false)
  provenance_of path (invalid_byte c i) rest = ([], false)

  unfoldable pub publish_entries : List (ℕ × List ℕ) → List WriterOp × Bool → List WriterOp × Bool
  publish_entries [] rest = rest
  publish_entries ((path, hex) ∷ entries) rest =
      provenance_of path (decode_sha256_hex hex) (publish_entries entries rest)

  -- `publish_filter_provenance`; `none` where there is no engine.
  unfoldable pub publish_filter_provenance :
      Option (List (ℕ × List ℕ)) → List WriterOp × Bool → List WriterOp × Bool
  publish_filter_provenance none rest = rest
  publish_filter_provenance (some []) rest = call record_empty_filter_provenance rest
  publish_filter_provenance (some (entry ∷ entries)) rest = publish_entries (entry ∷ entries) rest

  unfoldable pub finalise : Option (List (ℕ × List ℕ)) → List WriterOp × Bool
  finalise summary =
      publish_filter_provenance summary
        (call finish_writing_trace_events (call write_meta_dat (call close ([], true))))

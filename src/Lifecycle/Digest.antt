-- ===== src/Lifecycle/Digest.antt =====
-- The digests and the end of a trace in runtime/tracer/lifecycle.rs.
use codetracer_python_record.Prelude.{
  ℕ, ◌+◌, ◌-◌, ◌*◌, ◌/◌, ◌%◌, ◌<◌, ◌≡◌, refl, ◌∙◌, Bool, true, some, List, [], ◌∷◌, ◌++◌, ltb,
  if◌then◌else◌, length, All, arith,
}
use codetracer_python_record.Lifecycle.{
  digest, hex_value, decode_pairs, decode_sha256_hex, WriterOp, add_filter_provenance,
  finish_writing_trace_events, write_meta_dat, close, call, publish_entries,
  publish_filter_provenance, finalise,
}

-- The lower-case hexadecimal digits of a byte.
unfoldable pub hex_digit : ℕ → ℕ
hex_digit n = if ltb n 10 then b'0' + n else b'a' + (n - 10)

abbrev pub encode_hex : List ℕ → List ℕ
encode_hex [] = []
encode_hex (b ∷ bytes) = hex_digit (b / 16) ∷ hex_digit (b % 16) ∷ encode_hex bytes

hex_value-hex_digit : (n : ℕ) → n < 16 → hex_value (hex_digit n) ≡ some n
unfolding hex_value hex_digit
hex_value-hex_digit n h = ground arith

decode_pairs-encode :
    (i : ℕ) (bytes : List ℕ)
    → All (λ (b : ℕ). b < 256) bytes
    → decode_pairs i (encode_hex bytes) ≡ digest bytes
unfolding decode_pairs
decode_pairs-encode i [] h = refl
decode_pairs-encode i (b ∷ bytes) h = rw (hex_value-hex_digit (b / 16) (omega (arith, h.0))) (
    rw (hex_value-hex_digit (b % 16) (omega arith))
      (rw (decode_pairs-encode (i + 2) bytes h.1) (ground arith)))

length-encode_hex : (bytes : List ℕ) → length (encode_hex bytes) ≡ 2 * length bytes
length-encode_hex [] = omega arith
length-encode_hex (b ∷ bytes) = omega (arith, length-encode_hex bytes)

-- The hexadecimal form of 32 bytes is decoded to these bytes.
decode_sha256_hex-encode_hex :
    (bytes : List ℕ)
    → length bytes ≡ 32
    → All (λ (b : ℕ). b < 256) bytes
    → decode_sha256_hex (encode_hex bytes) ≡ digest bytes
unfolding decode_sha256_hex
decode_sha256_hex-encode_hex bytes n h =
    rw (length-encode_hex bytes) (rw n (decode_pairs-encode 0 bytes h))

-- The entries of a summary, whose digests are given as bytes, as the engine writes them.
abbrev pub summary_of : List (ℕ × List ℕ) → List (ℕ × List ℕ)
summary_of [] = []
summary_of ((path, bytes) ∷ entries) = (path, encode_hex bytes) ∷ summary_of entries

abbrev pub provenance_ops : List (ℕ × List ℕ) → List WriterOp
provenance_ops [] = []
provenance_ops ((path, bytes) ∷ entries) = add_filter_provenance path bytes ∷ provenance_ops entries

abbrev pub AreDigests : List (ℕ × List ℕ) → Type 0
AreDigests [] = Unit
AreDigests ((path, bytes) ∷ entries) =
    (length bytes ≡ 32) × All (λ (b : ℕ). b < 256) bytes × AreDigests entries

module _ (succeeds : WriterOp → Bool) (all : (op : WriterOp) → succeeds op ≡ true) where
  call_lem :
      (op : WriterOp) (rest : List WriterOp × Bool) → call succeeds op rest ≡ (op ∷ rest.0, rest.1)
  call_lem op rest = rw (all op) refl

  publish_entries_lem :
      (entries : List (ℕ × List ℕ)) (rest : List WriterOp × Bool)
      → AreDigests entries
      → publish_entries succeeds (summary_of entries) rest
        ≡ (provenance_ops entries ++ rest.0, rest.1)
  unfolding publish_entries
  publish_entries_lem [] rest h = refl
  publish_entries_lem ((path, bytes) ∷ entries) rest h =
      rw (decode_sha256_hex-encode_hex bytes h.0 h.1) (
        call_lem (add_filter_provenance path bytes)
          (publish_entries succeeds (summary_of entries) rest)
        ∙ rw (publish_entries_lem entries rest h.2) refl)

  -- If no call on the writer fails, the end of a trace with a filter whose summary has entries
  -- with digests of 32 bytes records the path and the digest of every entry, in order, and only
  -- then finishes the events, writes the metadata and closes.
  pub finalise_lem :
      (entry : ℕ × List ℕ) (entries : List (ℕ × List ℕ))
      → AreDigests (entry ∷ entries)
      → finalise succeeds (some (summary_of (entry ∷ entries))) ≡ (
        provenance_ops (entry ∷ entries)
            ++ finish_writing_trace_events ∷ write_meta_dat ∷ close ∷ [],
        true,
      )
  unfolding finalise publish_filter_provenance
  finalise_lem (path, bytes) entries h =
      publish_entries_lem ((path, bytes) ∷ entries) _ h
      ∙ rw (all finish_writing_trace_events) (rw (all write_meta_dat) (rw (all close) refl))

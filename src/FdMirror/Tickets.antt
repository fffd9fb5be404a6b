-- ===== src/FdMirror/Tickets.antt =====
-- Sequences of operations on one ledger of io_capture/fd_mirror/unix.rs: writes of the proxies, ends of
-- their tickets, and reads of the mirror.
use codetracer_python_record.Prelude.{
  concat, ℕ, zero, suc, ◌+◌, ◌-◌, ◌%◌, ◌≤◌, ◌<◌, ◌≡◌, refl, ap, ◌∙◌, Bool, not, true, false, some,
  List, [], ◌∷◌, ◌++◌, ◌==◌, leb, keep, length, drop, starts_with, arith, length-append, All,
  keep-append, append-nil, append_assoc, Bool-cases, inl, inr,
}
use codetracer_python_record.FdMirror.{
  LedgerEntry, Ledger, begin_entry, cancel_entry, end_ticket, subtract_from_chunk, u64_mod,
  wait_loop, wait_for_join, min, remaining,
}
use codetracer_python_record.FdMirror.Carve.{carve, carve_match, carve_skip, carve-nil}
use codetracer_python_record.FdMirror.Subtract.{payloads, subtract_from_chunk_lem}

starts_with-append : (p rest : List ℕ) → starts_with p (p ++ rest) ≡ true
starts_with-append [] rest = refl
starts_with-append (x ∷ p) rest = ground (arith, starts_with-append p rest)

drop-append : (p rest : List ℕ) → drop (length p) (p ++ rest) ≡ rest
drop-append [] rest = refl
drop-append (x ∷ p) rest = drop-append p rest

-- The proxies' payloads in one read, followed by bytes that no proxy wrote.
carve-concat :
    (ps : List (List ℕ)) (native : List ℕ)
    → All (λ (p : List ℕ). 0 < length p) ps
    → carve ps (concat ps ++ native) ≡ (native, length ps)
unfolding carve
carve-concat [] native h = refl
carve-concat ([] ∷ ps) native h = absurd (omega (arith, h.0))
carve-concat ((x ∷ p) ∷ ps) native h = rw (append_assoc (x ∷ p) (concat ps) native) (
    carve_match (x ∷ p) ps x (p ++ (concat ps ++ native))
      (starts_with-append (x ∷ p) (concat ps ++ native))
    ∙ rw (drop-append p (concat ps ++ native)) (rw (carve-concat ps native h.1) refl))

length-starts_with : (p chunk : List ℕ) → starts_with p chunk ≡ true → length p ≤ length chunk
length-starts_with [] chunk h = omega arith
length-starts_with (x ∷ p) [] h = ground arith
length-starts_with (x ∷ p) (b ∷ chunk) h = ground (arith, length-starts_with p chunk)

-- A payload does not occur in a shorter chunk, so nothing is cut out of it.
carve_short :
    (p : List ℕ) (ps : List (List ℕ)) (chunk : List ℕ)
    → length chunk < length p
    → carve (p ∷ ps) chunk ≡ (chunk, 0)
unfolding carve
carve_short p ps [] h = carve-nil (p ∷ ps)
carve_short p ps (b ∷ chunk) h = elim (Bool-cases (starts_with p (b ∷ chunk))) [
  | inl found ↦ absurd (omega (arith, length-starts_with p (b ∷ chunk) found))
  | inr missing ↦
      rw (carve_skip p ps b chunk missing) (rw (carve_short p ps chunk (omega arith)) refl)
]

drop-payloads : (es : List LedgerEntry) → drop (length (payloads es)) es ≡ []
drop-payloads [] = refl
drop-payloads (e ∷ es) = drop-payloads es

-- The ledger behind a chunk in which nothing was found.
abbrev unmatched : Ledger → List ℕ → Ledger
unmatched l chunk = record l { mirrored_bytes = (l.mirrored_bytes + length chunk) % u64_mod }

subtract_from_chunk_short :
    (l : Ledger) (e : LedgerEntry) (es : List LedgerEntry) (chunk : List ℕ)
    → l.matched_bytes < u64_mod
    → l.mirrored_bytes < u64_mod
    → l.entries ≡ e ∷ es
    → length chunk < length (remaining e)
    → subtract_from_chunk l chunk ≡ some (unmatched l chunk, chunk)
subtract_from_chunk_short l e es chunk h k pending short =
    subtract_from_chunk_lem l chunk h k ∙ ground (arith, ap payloads pending, nothing)
  where
    nothing : carve (payloads l.entries) chunk ≡ (chunk, 0)
    nothing =
        ap (λ (es : List LedgerEntry). carve (payloads es) chunk) pending
        ∙ carve_short (remaining e) (payloads es) chunk short

-- With counters below 2⁶⁴ and no empty payload pending, a read that brings the payloads of the
-- pending entries, whole and in order, and then bytes of native output hands back just the
-- native bytes, leaves no entry behind, and counts both.
subtract_from_chunk-concat :
    (l : Ledger) (native : List ℕ)
    → l.matched_bytes < u64_mod
    → l.mirrored_bytes < u64_mod
    → All (λ (p : List ℕ). 0 < length p) (payloads l.entries)
    → subtract_from_chunk l (concat (payloads l.entries) ++ native)
      ≡ some (
        record l {
          entries = [];
          matched_bytes = (l.matched_bytes + length (concat (payloads l.entries))) % u64_mod;
          mirrored_bytes = (l.mirrored_bytes + length native) % u64_mod;
        },
        native,
      )
subtract_from_chunk-concat l native h k nonempty =
    subtract_from_chunk_lem l (concat (payloads l.entries) ++ native) h k
    ∙ rw (carve-concat (payloads l.entries) native nonempty) (
        ground (arith, drop-payloads l.entries, length-append (concat (payloads l.entries)) native))

-- With counters below 2⁶⁴, if the payload of the front entry arrives in two reads that are both
-- not empty, each is handed back whole, and the entries stay, the front entry with them.
pub subtract_from_chunk-split :
    (l : Ledger) (e : LedgerEntry) (es : List LedgerEntry) (first second : List ℕ)
    → l.matched_bytes < u64_mod
    → l.mirrored_bytes < u64_mod
    → l.entries ≡ e ∷ es
    → remaining e ≡ first ++ second
    → 0 < length first
    → 0 < length second
    → (m n : Ledger) × (subtract_from_chunk l first ≡ some (m, first))
      × (subtract_from_chunk m second ≡ some (n, second))
      × (n.entries ≡ l.entries)
subtract_from_chunk-split l e es first second h k pending parts p q = (
  unmatched l first,
  unmatched (unmatched l first) second,
  subtract_from_chunk_short l e es first h k pending (omega (arith, whole)),
  subtract_from_chunk_short (unmatched l first) e es second h (omega arith) pending
      (omega (arith, whole)),
  refl,
)
  where
    whole : length (remaining e) ≡ length first + length second
    whole = ap length parts ∙ length-append first second

min_short : (poll left : ℕ) → leb left poll ≡ true → min poll left ≡ left
unfolding min
min_short poll left h = ground arith

min_long : (poll left : ℕ) → leb left poll ≡ false → min poll left ≡ poll
unfolding min
min_long poll left h = ground arith

wait_loop_lem :
    (fuel : ℕ) (finished : ℕ → Bool) (poll now left : ℕ)
    → ((t u : ℕ) → t ≤ u → finished t ≡ true → finished u ≡ true)
    → 0 < poll
    → left < fuel
    → wait_loop fuel finished poll now left ≡ some (finished (now + left))
unfolding wait_loop
wait_loop_lem zero finished poll now left mono pos enough = absurd (omega arith)
wait_loop_lem (suc fuel) finished poll now left mono pos enough = elim (Bool-cases (finished now)) [
  | inl h ↦ rw (h) (rw (mono now (now + left) (omega arith) h) refl)
  | inr h ↦ rw h (elim (Bool-cases (leb left poll)) [
    | inl short ↦ rw (min_short poll left short) (ground arith)
    | inr long ↦ rw (min_long poll left long) (
        ground (
          arith,
          long,
          mono (now + poll) (now + left),
          wait_loop_lem fuel finished poll (now + poll) (left - poll) mono pos,
        ))
  ])
]

-- If the thread, once finished, stays finished, and the poll interval is not zero, the wait
-- ends, and it answers whether the thread has finished within the timeout.
wait_for_join_lem :
    (finished : ℕ → Bool) (timeout poll : ℕ)
    → ((t u : ℕ) → t ≤ u → finished t ≡ true → finished u ≡ true)
    → 0 < poll
    → wait_for_join finished timeout poll ≡ some (finished timeout)
unfolding wait_for_join
wait_for_join_lem finished timeout poll mono pos =
    ground (arith, mono 0 timeout, wait_loop_lem (suc timeout) finished poll 0 timeout mono pos)

abbrev other_than : ℕ → LedgerEntry → Bool
other_than seq e = not (e.seq == seq)

keep_fresh :
    (seq : ℕ) (es : List LedgerEntry)
    → All (λ (e : LedgerEntry). (e.seq == seq) ≡ false) es
    → keep (other_than seq) es ≡ es
keep_fresh seq [] fresh = refl
keep_fresh seq (e ∷ es) fresh =
    rw fresh.0 (ap (λ (l : List LedgerEntry). e ∷ l) (keep_fresh seq es fresh.1))

-- If no pending entry has the number that is next, a ticket that is dropped just behind its
-- begin leaves the entries as they were, and one that is committed leaves the ledger as the
-- begin made it.
end_ticket-begin_entry :
    (l : Ledger) (payload : List ℕ)
    → All (λ (e : LedgerEntry). (e.seq == l.next_seq) ≡ false) l.entries
    → let (begun, seq) = begin_entry l payload in
      ((end_ticket begun seq false).entries ≡ l.entries) × (end_ticket begun seq true ≡ begun)
unfolding begin_entry end_ticket cancel_entry
end_ticket-begin_entry l payload fresh = (
  keep-append (other_than l.next_seq) l.entries (entry ∷ [])
      ∙ ground (arith, keep_fresh l.next_seq l.entries fresh, append-nil l.entries),
  refl,
)
  where
    entry : LedgerEntry
    entry = record { seq = l.next_seq; bytes = payload; offset = 0 }

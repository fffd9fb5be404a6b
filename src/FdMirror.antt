-- ===== src/FdMirror.antt =====
-- The ledger of codetracer-python-recorder/src/runtime/io_capture/fd_mirror/unix.rs, with which the
-- mirror of a file descriptor tells the bytes that a proxy already recorded from native output. The
-- mutex is the argument and the result; an atomic counter wraps at 64 bits.
pub mod Carve
pub mod Subtract
pub mod Tickets
pub mod Loop
use codetracer_python_record.Prelude.{
  ℕ, zero, suc, ◌+◌, ◌-◌, ◌%◌, Bool, true, false, not, Option, none, some, List, [], ◌∷◌, ◌++◌, leb,
  ◌==◌, if◌then◌else◌, length, drop, take, keep, is_empty, starts_with,
}
use codetracer_python_record.IoCapture.Events.{IoStream, stdout, stderr, stdin}

abbrev pub u64_mod : ℕ
u64_mod = 18446744073709551616

-- The field `bytes` is the source's `data`.
pub record LedgerEntry : Type 0 where
  pub seq : ℕ
  pub bytes : List ℕ
  pub offset : ℕ

-- `&self.data[self.offset..]`.
abbrev pub remaining : LedgerEntry → List ℕ
remaining e = drop e.offset e.bytes

unfoldable pub min : ℕ → ℕ → ℕ
min a b = if leb a b then a else b

unfoldable pub consume : LedgerEntry → ℕ → LedgerEntry
consume e amount = record e { offset = min (e.offset + amount) (length e.bytes) }

unfoldable pub is_spent : LedgerEntry → Bool
is_spent e = leb (length e.bytes) e.offset

pub record Ledger : Type 0 where
  pub next_seq : ℕ
  pub entries : List LedgerEntry
  pub matched_bytes : ℕ
  pub mirrored_bytes : ℕ

abbrev pub new_ledger : Ledger
new_ledger = record { next_seq = 0; entries = []; matched_bytes = 0; mirrored_bytes = 0 }

-- The ledger with the entry, and the number that the ticket holds.
unfoldable pub begin_entry : Ledger → List ℕ → Ledger × ℕ
begin_entry l payload =
    let entry : LedgerEntry = record { seq = l.next_seq; bytes = payload; offset = 0 } in
    (
      record l { next_seq = (l.next_seq + 1) % u64_mod; entries = l.entries ++ entry ∷ [] },
      l.next_seq,
    )

unfoldable pub cancel_entry : Ledger → ℕ → Ledger
cancel_entry l seq = record l { entries = keep (λ (e : LedgerEntry). not (e.seq == seq)) l.entries }

-- What the loop of `subtract_from_chunk` changes besides its index. The index is the rest of the
-- chunk, `&chunk[idx..]`.
pub record Scan : Type 0 where
  pub entries : List LedgerEntry
  pub leftover : List ℕ
  pub matched : ℕ

-- The queue behind a front entry that was consumed.
abbrev pub settle_front : LedgerEntry → List LedgerEntry → List LedgerEntry
settle_front e es = if is_spent e then es else e ∷ es

-- One round at the byte `b`, with the front entry and what remains of it.
abbrev pub scan_front : ℕ → List ℕ → Scan → LedgerEntry → List LedgerEntry → List ℕ → List ℕ × Scan
scan_front b rest s e es [] = (b ∷ rest, record s { entries = es })
scan_front b rest s e es (r ∷ rs) =
    let skip : List ℕ × Scan = (rest, record s { leftover = s.leftover ++ b ∷ [] }) in
    if not (b == r)
    then skip
    else if starts_with (r ∷ rs) (b ∷ rest)
    then (
      drop (length (r ∷ rs)) (b ∷ rest),
      record s {
        entries = settle_front (consume e (length (r ∷ rs))) es;
        matched = (s.matched + length (r ∷ rs)) % u64_mod;
      },
    )
    else skip

abbrev pub scan_byte : ℕ → List ℕ → Scan → List LedgerEntry → List ℕ × Scan
scan_byte b rest s [] = ([], record s { leftover = s.leftover ++ b ∷ rest })
scan_byte b rest s (e ∷ es) = scan_front b rest s e es (remaining e)

-- The loop. `none` is fuel that ran out.
unfoldable pub scan : ℕ → List ℕ → Scan → Option Scan
scan fuel [] s = some s
scan zero (b ∷ rest) s = none
scan (suc fuel) (b ∷ rest) s = let round = scan_byte b rest s s.entries in scan fuel round.0 round.1

-- The ledger and the counters behind the loop, with the leftover.
unfoldable pub finish : Ledger → Option Scan → Option (Ledger × List ℕ)
finish l none = none
finish l (some s) = some (
  record l {
    entries = s.entries;
    matched_bytes = s.matched;
    mirrored_bytes =
        if is_empty s.leftover
        then l.mirrored_bytes
        else (l.mirrored_bytes + length s.leftover) % u64_mod;
  },
  s.leftover,
)

unfoldable pub subtract_from_chunk : Ledger → List ℕ → Option (Ledger × List ℕ)
unfolding scan finish
subtract_from_chunk l [] = some (l, [])
subtract_from_chunk l (b ∷ rest) = finish l (
    scan (length (b ∷ rest) + length l.entries) (b ∷ rest)
      (record { entries = l.entries; leftover = []; matched = l.matched_bytes }))

unfoldable pub clear : Ledger → Ledger
clear l = record l { entries = [] }

pub record MirrorLedgerSet : Type 0 where
  pub out : Ledger
  pub err : Ledger

unfoldable pub begin_proxy_write : MirrorLedgerSet → IoStream → List ℕ → MirrorLedgerSet × Option ℕ
unfolding begin_entry
begin_proxy_write set stdout payload =
    let (l, seq) = begin_entry set.out payload in (record set { out = l }, some seq)
begin_proxy_write set stderr payload =
    let (l, seq) = begin_entry set.err payload in (record set { err = l }, some seq)
begin_proxy_write set stdin payload = (set, none)

unfoldable pub ledger_for : MirrorLedgerSet → IoStream → Option Ledger
ledger_for set stdout = some set.out
ledger_for set stderr = some set.err
ledger_for set stdin = none

-- What a ticket's end does: `commit`, or the drop of a ticket that was not committed.
unfoldable pub end_ticket : Ledger → ℕ → Bool → Ledger
unfolding cancel_entry
end_ticket l seq committed = if committed then l else cancel_entry l seq

-- `wait_for_join`: the thread has finished as `finished` tells at the time since the call, and time
-- passes only in the sleeps. `none` is fuel that ran out.
unfoldable pub wait_loop : ℕ → (ℕ → Bool) → ℕ → ℕ → ℕ → Option Bool
unfolding min
wait_loop zero finished poll now left = none
wait_loop (suc fuel) finished poll now left =
    let sleep_for = min poll left in
    let rest = wait_loop fuel finished poll (now + sleep_for) (left - sleep_for) in
    if finished now
    then some true
    else if finished (now + sleep_for)
    then some true
    else if leb left sleep_for
    then some false
    else rest

unfoldable pub wait_for_join : (ℕ → Bool) → ℕ → ℕ → Option Bool
unfolding wait_loop
wait_for_join finished timeout poll =
    let loop = wait_loop (suc timeout) finished poll 0 timeout in
    if finished 0 then some true else if timeout == 0 then some false else loop

-- What one `read` of the mirror's pipe does; `got` holds at least one byte.
pub data ReadResult : Type 0 where
  got : ℕ → List ℕ → ReadResult
  interrupted failed ended : ReadResult

-- A round of the loop of `mirror_loop`: the shutdown flag that it finds, what the read does, and
-- what `write_all` does: how many bytes it wrote before it failed, if it failed.
pub record Round : Type 0 where
  pub should_exit : Bool
  pub reads : ReadResult
  pub write_failed : Option ℕ

-- The ledger, what was written to the preserved descriptor, and the payloads of the chunks that the
-- consumer was given.
pub record Mirror : Type 0 where
  pub ledger : Ledger
  pub forwarded : List ℕ
  pub consumed : List (List ℕ)

-- How the loop stands behind some rounds: it goes on, it left by a `break` or the flag, or it left
-- because so many bytes of this leftover were written and no more.
pub data LoopState : Type 0 where
  running stopped : LoopState
  cut_short : List ℕ → ℕ → LoopState

-- What a leftover leads to. What a write that fails has written is the start of the leftover.
abbrev pub hand_on : Mirror → Option ℕ → List ℕ → Mirror × LoopState
hand_on m write_failed [] = (m, running)
hand_on m none (b ∷ rest) = (
  record m { forwarded = m.forwarded ++ b ∷ rest; consumed = m.consumed ++ (b ∷ rest) ∷ [] },
  running,
)
hand_on m (some n) (b ∷ rest) =
    (record m { forwarded = m.forwarded ++ take n (b ∷ rest) }, cut_short (b ∷ rest) n)

unfoldable pub mirror_read : Mirror → Option ℕ → ReadResult → Option (Mirror × LoopState)
mirror_read m write_failed (got b rest) = elim (subtract_from_chunk m.ledger (b ∷ rest)) [
  | none ↦ none
  | some (l, leftover) ↦ some (hand_on (record m { ledger = l }) write_failed leftover)
]
mirror_read m write_failed interrupted = some (m, running)
mirror_read m write_failed failed = some (m, stopped)
mirror_read m write_failed ended = some (m, stopped)

-- The loop over its first rounds. `none` is fuel of the subtraction that ran out.
unfoldable pub mirror_loop : Mirror → List Round → Option (Mirror × LoopState)
mirror_loop m [] = some (m, running)
mirror_loop m (r ∷ rs) =
    if r.should_exit then some (m, stopped) else elim (mirror_read m r.write_failed r.reads) [
      | none ↦ none
      | some (m', running) ↦ mirror_loop m' rs
      | some (m', stopped) ↦ some (m', stopped)
      | some (m', cut_short leftover n) ↦ some (m', cut_short leftover n)
    ]

-- ===== src/FdMirror/Loop.antt =====
-- The loop of the mirror thread, `mirror_loop` of io_capture/fd_mirror/unix.rs, over its rounds.
use codetracer_python_record.Prelude.{
  ℕ, ◌+◌, ◌%◌, ◌<◌, ◌≡◌, refl, Bool, true, false, ◌&&◌, ◌||◌, Option, none, some, List, [], ◌∷◌,
  ◌++◌, ◌∙◌, ap, length, take, arith, any, length-append, append-nil, concat, concat-append,
  Bool-cases, inl, inr,
}
use codetracer_python_record.FdMirror.{
  Ledger, Mirror, Round, ReadResult, got, interrupted, failed, ended, LoopState, running, stopped,
  cut_short, hand_on, mirror_read, mirror_loop, u64_mod,
}
use codetracer_python_record.FdMirror.Subtract.{subtracted, subtract_from_chunk_lem}

-- What was written on is what the consumer was given, and the counter of mirrored bytes is its length.
pub record IsAccounted (m : Mirror) : Type 0 where
  pub same : m.forwarded ≡ concat m.consumed
  pub matched : m.ledger.matched_bytes < u64_mod
  pub mirrored : m.ledger.mirrored_bytes ≡ length m.forwarded % u64_mod

-- What a loop leaves. Where a write was cut short, its leftover is counted whole, its start is
-- written on, and the consumer was not given it.
abbrev pub Accounts : Mirror → LoopState → Type 0
Accounts m running = IsAccounted m
Accounts m stopped = IsAccounted m
Accounts m (cut_short leftover n) =
    (m.forwarded ≡ concat m.consumed ++ take n leftover)
    × (m.ledger.mirrored_bytes ≡ (length (concat m.consumed) + length leftover) % u64_mod)

abbrev pub is_running : LoopState → Bool
is_running running = true
is_running stopped = false
is_running (cut_short leftover n) = false

abbrev pub ends_read : ReadResult → Bool
ends_read (got b rest) = false
ends_read interrupted = false
ends_read failed = true
ends_read ended = true

-- The flag, the end of the file, or an error that is no interrupt.
abbrev pub ends_round : Round → Bool
ends_round r = r.should_exit || ends_read r.reads

concat_last : (ps : List (List ℕ)) (p : List ℕ) → concat (ps ++ p ∷ []) ≡ concat ps ++ p
concat_last ps p = concat-append ps (p ∷ []) ∙ ap (λ l. concat ps ++ l) (append-nil p)

-- What a round leads to from an accounted mirror.
abbrev Reads : Mirror → Option ℕ → ReadResult → Type 0
Reads m w r =
    (m' : Mirror) × (st : LoopState) × (mirror_read m w r ≡ some (m', st))
    × Accounts m' st
    × ((is_running st && ends_read r) ≡ false)

hand_on-Accounts :
    (m : Mirror) (l : Ledger) (w : Option ℕ) (leftover : List ℕ)
    → IsAccounted m
    → l.matched_bytes < u64_mod
    → l.mirrored_bytes ≡ (m.ledger.mirrored_bytes + length leftover) % u64_mod
    → Accounts
        (hand_on (record m { ledger = l }) w leftover).0
        (hand_on (record m { ledger = l }) w leftover).1
hand_on-Accounts m l w [] a h k = ground arith
hand_on-Accounts m l none (b ∷ rest) a h k =
    ground (arith, concat_last m.consumed (b ∷ rest), length-append m.forwarded (b ∷ rest))
hand_on-Accounts m l (some n) (b ∷ rest) a h k = (
  ap (λ l. l ++ take n (b ∷ rest)) a.same,
  omega (arith, k, a.mirrored, ap (λ (l : List ℕ). length l) a.same),
)

read-Accounts : (m : Mirror) (w : Option ℕ) (r : ReadResult) → IsAccounted m → Reads m w r
unfolding mirror_read
read-Accounts m w (got b rest) a =
    let l : Ledger = (subtracted m.ledger (b ∷ rest)).0 in
    let out : List ℕ = (subtracted m.ledger (b ∷ rest)).1 in
    let after : Mirror × LoopState = hand_on (record m { ledger = l }) w out in
    (
      after.0,
      after.1,
      rw
          (
            subtract_from_chunk_lem m.ledger (b ∷ rest) a.matched (omega (arith, a.mirrored)),
            mirror_read,
          )
          refl,
      hand_on-Accounts m l w out a (omega arith) refl,
      ground arith,
    )
read-Accounts m w interrupted a = (m, running, refl, a, refl)
read-Accounts m w failed a = (m, stopped, refl, a, refl)
read-Accounts m w ended a = (m, stopped, refl, a, refl)

-- What the rounds of the loop lead to.
abbrev pub Loops : Mirror → List Round → Type 0
Loops m rs =
    (m' : Mirror) × (st : LoopState) × (mirror_loop m rs ≡ some (m', st))
    × Accounts m' st
    × ((is_running st && any ends_round rs) ≡ false)

go_on :
    (m : Mirror) (r : Round) (rs : List Round)
    → r.should_exit ≡ false
    → Reads m r.write_failed r.reads
    → ((n : Mirror) → IsAccounted n → Loops n rs)
    → Loops m (r ∷ rs)
unfolding mirror_loop
go_on m r rs h (m', running, e, a', ends) later =
    let (last, st, runs, kept, at_end) = later m' a' in
    (
      last,
      st,
      rw (h, mirror_loop) (rw (e, mirror_loop) runs),
      kept,
      ground (arith, h, ends, at_end),
    )
go_on m r rs h (m', stopped, e, a', ends) later =
    (m', stopped, rw (h, mirror_loop) (rw (e, mirror_loop) refl), a', refl)
go_on m r rs h (m', cut_short leftover n, e, a', ends) later =
    (m', cut_short leftover n, rw (h, mirror_loop) (rw (e, mirror_loop) refl), a', refl)

-- If what was written on is what the consumer was given and the ledger has counted it, then,
-- whatever the rounds of the loop bring, no subtraction runs out of fuel; the loop has ended
-- where one of the rounds finds the shutdown flag, the end of the file or an error of the read
-- other than an interrupt; and the same holds of the mirror that it leaves, but where a write
-- failed: there the consumer lacks the last leftover, of which the written start was written on,
-- and which is counted whole.
pub mirror_loop-IsAccounted :
    (m : Mirror) (rs : List Round)
    → IsAccounted m
    → (m' : Mirror) × (st : LoopState) × (mirror_loop m rs ≡ some (m', st))
      × Accounts m' st
      × ((is_running st && any ends_round rs) ≡ false)
unfolding mirror_loop
mirror_loop-IsAccounted m [] a = (m, running, refl, a, refl)
mirror_loop-IsAccounted m (r ∷ rs) a = elim (Bool-cases r.should_exit) [
  | inl h ↦ (m, stopped, rw h refl, a, refl)
  | inr h ↦
      go_on m r rs h (read-Accounts m r.write_failed r.reads a)
        (λ (n : Mirror) (k : IsAccounted n). mirror_loop-IsAccounted n rs k)
]

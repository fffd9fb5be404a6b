-- ===== src/FdMirror/Subtract.antt =====
-- The loop of `subtract_from_chunk` of io_capture/fd_mirror/unix.rs against the description by
-- payloads.
use codetracer_python_record.Prelude.{
  ℕ, zero, suc, ◌+◌, ◌-◌, ◌%◌, ◌≤◌, ◌<◌, is_empty→nil, ◌⊎◌, ◌≡◌, refl, ap, ◌∙◌, true, false, Option,
  some, List, [], ◌∷◌, ◌++◌, length, drop, starts_with, arith, map, append_assoc, append-nil,
  Bool-cases, inl, inr,
}
use codetracer_python_record.FdMirror.{
  LedgerEntry, Ledger, Scan, remaining, scan, scan_front, finish, subtract_from_chunk, consume,
  is_spent, min, u64_mod,
}
use codetracer_python_record.FdMirror.Carve.{
  carve, carve_skip, carve_match, carve-nil, length-drop_prefix,
}

abbrev pub payloads : List LedgerEntry → List (List ℕ)
payloads es = map (λ (e : LedgerEntry). remaining e) es

length-drop : (n : ℕ) (xs : List ℕ) → length xs ≤ n + length (drop n xs)
length-drop zero xs = omega arith
length-drop (suc n) [] = omega arith
length-drop (suc n) (x ∷ xs) = ground (arith, length-drop n xs)

-- A front entry that is consumed to its end is spent.
consume-is_spent :
    (e : LedgerEntry) (left : List ℕ)
    → remaining e ≡ left
    → is_spent (consume e (length left)) ≡ true
unfolding is_spent consume min
consume-is_spent e left h = rw (← h) (ground (arith, length-drop e.offset e.bytes))

pub length-carve : (ps : List (List ℕ)) (chunk : List ℕ) → length (carve ps chunk).0 ≤ length chunk
unfolding carve
length-carve [] chunk = omega arith
length-carve (p ∷ ps) [] = rw (carve-nil (p ∷ ps)) (omega arith)
length-carve (p ∷ ps) (b ∷ rest) = elim (Bool-cases (starts_with p (b ∷ rest))) [
  | inl h ↦ rw (carve_match p ps b rest h) (
      omega
        (arith, length-carve ps (drop (length p) (b ∷ rest)), length-drop_prefix p (b ∷ rest) h))
  | inr h ↦ rw (carve_skip p ps b rest h) (omega (arith, length-carve (p ∷ ps) rest))
]

-- What the loop ends with.
abbrev pub carved : List ℕ → List LedgerEntry → List ℕ → ℕ → Scan
carved chunk entries leftover matched =
    let c = carve (payloads entries) chunk in
    record {
      entries = drop c.1 entries;
      leftover = leftover ++ c.0;
      matched = (matched + (length chunk - length c.0)) % u64_mod;
    }

List-cases : (xs : List ℕ) → (xs ≡ []) ⊎ ((r : ℕ) × (rs : List ℕ) × (xs ≡ r ∷ rs))
List-cases [] = inl refl
List-cases (x ∷ xs) = inr (x, xs, refl)

abbrev at : List LedgerEntry → List ℕ → ℕ → Scan
at entries leftover matched = record { entries = entries; leftover = leftover; matched = matched }

-- One round of the loop, for each of its outcomes.
module _ (f b : ℕ) (rest : List ℕ) (e : LedgerEntry) (es : List LedgerEntry) (out : List ℕ)
    (m : ℕ) where
  -- The loop behind a round that finds `left` in the front entry.
  abbrev continue : List ℕ → Option Scan
  continue left =
      let round = scan_front b rest (at (e ∷ es) out m) e es left in scan f round.0 round.1

  scan_pop :
      remaining e ≡ []
      → scan (suc f) (b ∷ rest) (at (e ∷ es) out m) ≡ scan f (b ∷ rest) (at es out m)
  unfolding scan
  scan_pop h = ap continue h

  scan_skip :
      (r : ℕ) (rs : List ℕ)
      → remaining e ≡ r ∷ rs
      → starts_with (r ∷ rs) (b ∷ rest) ≡ false
      → scan (suc f) (b ∷ rest) (at (e ∷ es) out m) ≡ scan f rest (at (e ∷ es) (out ++ b ∷ []) m)
  unfolding scan
  scan_skip r rs h no_match = ap continue h ∙ skip_lem
    where
      skip_lem : continue (r ∷ rs) ≡ scan f rest (at (e ∷ es) (out ++ b ∷ []) m)
      skip_lem = ground arith

  scan_match :
      (r : ℕ) (rs : List ℕ)
      → remaining e ≡ r ∷ rs
      → starts_with (r ∷ rs) (b ∷ rest) ≡ true
      → scan (suc f) (b ∷ rest) (at (e ∷ es) out m)
        ≡ scan f (drop (length rs) rest) (at es out ((m + suc (length rs)) % u64_mod))
  unfolding scan
  scan_match r rs h matches = ap continue h ∙ match_lem
    where
      match_lem :
          continue (r ∷ rs)
          ≡ scan f (drop (length rs) rest) (at es out ((m + suc (length rs)) % u64_mod))
      match_lem = ground (arith, consume-is_spent e (r ∷ rs) h)

pub scan_lem :
    (fuel : ℕ) (chunk : List ℕ) (entries : List LedgerEntry) (leftover : List ℕ) (matched : ℕ)
    → matched < u64_mod
    → length chunk + length entries ≤ fuel
    → scan fuel chunk (at entries leftover matched) ≡ some (carved chunk entries leftover matched)
unfolding scan carve
scan_lem fuel [] entries leftover matched h enough =
    rw (carve-nil (payloads entries), append-nil leftover) (ground arith)
scan_lem zero (b ∷ rest) entries leftover matched h enough = absurd (omega arith)
scan_lem (suc f) (b ∷ rest) [] leftover matched h enough = ground arith
scan_lem (suc f) (b ∷ rest) (e ∷ es) leftover matched h enough = elim (List-cases (remaining e)) [
  | inl spent ↦
      scan_pop f b rest e es leftover matched spent
      ∙ scan_lem f (b ∷ rest) es leftover matched h (omega arith)
      ∙ rw spent (rw (carve_match [] (payloads es) b rest refl) refl)
  | inr (r, rs, opened) ↦ elim (Bool-cases (starts_with (r ∷ rs) (b ∷ rest))) [
    | inl found ↦
        scan_match f b rest e es leftover matched r rs opened found
        ∙ scan_lem f (drop (length rs) rest) es leftover ((matched + suc (length rs)) % u64_mod)
            (omega arith) (omega (arith, length-drop_prefix (r ∷ rs) (b ∷ rest) found))
        ∙ rw opened (
            rw (carve_match (r ∷ rs) (payloads es) b rest found) (
              ground (
                arith,
                length-drop_prefix (r ∷ rs) (b ∷ rest) found,
                length-carve (payloads es) (drop (length rs) rest),
              )))
    | inr other ↦
        scan_skip f b rest e es leftover matched r rs opened other
        ∙ scan_lem f rest (e ∷ es) (leftover ++ b ∷ []) matched h (omega arith)
        ∙ rw opened (
            rw (carve_skip (r ∷ rs) (payloads es) b rest other) (
              ground (
                arith,
                append_assoc leftover (b ∷ []) (carve ((r ∷ rs) ∷ payloads es) rest).0,
                length-carve ((r ∷ rs) ∷ payloads es) rest,
              )))
  ]
]

-- What `subtract_from_chunk` returns: the ledger without the entries whose payloads were found, its
-- counters raised by the bytes that were cut out and by those left over, and the bytes left over.
abbrev pub subtracted : Ledger → List ℕ → Ledger × List ℕ
subtracted l chunk =
    let c = carve (payloads l.entries) chunk in
    (
      record l {
        entries = drop c.1 l.entries;
        matched_bytes = (l.matched_bytes + (length chunk - length c.0)) % u64_mod;
        mirrored_bytes = (l.mirrored_bytes + length c.0) % u64_mod;
      },
      c.0,
    )

-- With counters below 2⁶⁴ the subtraction ends, and it cuts the payloads of the entries out of
-- the chunk in order, each at its first occurrence behind the one before: what it hands back is
-- the rest of the chunk, the entries found leave the ledger, the others stay, and the two
-- counters rise, modulo 2⁶⁴, by the bytes cut out and by the bytes left over.
pub subtract_from_chunk_lem :
    (l : Ledger) (chunk : List ℕ)
    → l.matched_bytes < u64_mod
    → l.mirrored_bytes < u64_mod
    → subtract_from_chunk l chunk ≡ some (subtracted l chunk)
unfolding subtract_from_chunk finish
subtract_from_chunk_lem l [] h k = rw (carve-nil (payloads l.entries)) (ground arith)
subtract_from_chunk_lem l (b ∷ rest) h k =
    rw
      (scan_lem (length (b ∷ rest) + length l.entries) (b ∷ rest) l.entries [] l.matched_bytes h
        (omega arith))
      (ground (arith, is_empty→nil (carve (payloads l.entries) (b ∷ rest)).0))

-- ===== src/Tests/FdMirror.antt =====
-- The theorems on the mirror's ledger at concrete ledgers.
use codetracer_python_record.Prelude.{
  ℕ, ◌≤◌, ◌≡◌, refl, Bool, true, false, leb, none, some, any, ◌&&◌, List, [], ◌∷◌, arith,
}
use codetracer_python_record.FdMirror.{
  LedgerEntry, Ledger, new_ledger, subtract_from_chunk, Mirror, Round, LoopState, got, interrupted,
  ended, mirror_loop,
}
use codetracer_python_record.FdMirror.Subtract.{subtract_from_chunk_lem, subtracted}
use codetracer_python_record.FdMirror.Tickets.{subtract_from_chunk-split}
use codetracer_python_record.FdMirror.Loop.{
  IsAccounted, Accounts, is_running, ends_round, mirror_loop-IsAccounted,
}

abbrev entry_of : ℕ → List ℕ → LedgerEntry
entry_of n payload = record { seq = n; bytes = payload; offset = 0 }

-- Two writes of a proxy that the mirror has not read yet.
abbrev pending_ledger : Ledger
pending_ledger = record new_ledger {
  next_seq = 2;
  entries = entry_of 0 (1 ∷ 2 ∷ []) ∷ entry_of 1 (3 ∷ []) ∷ [];
}

subtract_from_chunk_example :
    subtract_from_chunk pending_ledger (7 ∷ 1 ∷ 2 ∷ 8 ∷ 3 ∷ [])
    ≡ some (subtracted pending_ledger (7 ∷ 1 ∷ 2 ∷ 8 ∷ 3 ∷ []))
subtract_from_chunk_example =
    subtract_from_chunk_lem pending_ledger (7 ∷ 1 ∷ 2 ∷ 8 ∷ 3 ∷ []) (omega arith) (omega arith)

subtract_from_chunk-split_example :
    (m n : Ledger) × (subtract_from_chunk pending_ledger (1 ∷ []) ≡ some (m, 1 ∷ []))
    × (subtract_from_chunk m (2 ∷ []) ≡ some (n, 2 ∷ []))
    × (n.entries ≡ pending_ledger.entries)
subtract_from_chunk-split_example =
    subtract_from_chunk-split pending_ledger (entry_of 0 (1 ∷ 2 ∷ [])) (entry_of 1 (3 ∷ []) ∷ [])
      (1 ∷ []) (2 ∷ []) (omega arith) (omega arith) refl refl (omega arith) (omega arith)

abbrev finishes_at : ℕ → ℕ → Bool
finishes_at moment t = leb moment t

finishes_at_mono : (t u : ℕ) → t ≤ u → finishes_at 20 t ≡ true → finishes_at 20 u ≡ true
finishes_at_mono t u h k = ground arith

abbrev new_mirror : Mirror
new_mirror = record { ledger = pending_ledger; forwarded = []; consumed = [] }

abbrev rounds : List Round
rounds =
    record { should_exit = false; reads = got 1 (2 ∷ 8 ∷ []); write_failed = none }
    ∷ record { should_exit = false; reads = interrupted; write_failed = none }
    ∷ record { should_exit = false; reads = got 3 (9 ∷ []); write_failed = some 0 }
    ∷ record { should_exit = false; reads = ended; write_failed = none }
    ∷ []

new_mirror_lem : IsAccounted new_mirror
new_mirror_lem = record { same = refl; matched = omega arith; mirrored = refl }

mirror_loop_example :
    (m : Mirror) × (st : LoopState) × (mirror_loop new_mirror rounds ≡ some (m, st))
    × Accounts m st
    × ((is_running st && any ends_round rounds) ≡ false)
mirror_loop_example = mirror_loop-IsAccounted new_mirror rounds new_mirror_lem

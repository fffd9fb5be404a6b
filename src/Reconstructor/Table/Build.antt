-- ===== src/Reconstructor/Table/Build.antt =====
-- The loop of `build_table` in runtime/assignment_reconstructor.rs as a whole.
use codetracer_python_record.Prelude.{
  ℕ, zero, suc, ◌-◌, ◌≤◌, ◌≡◌, ◌⊎◌, refl, sym, ap, ◌∙◌, pos, ◌&&◌, Option, some, List, [], ◌∷◌,
  ◌++◌, String, str_eq, if◌then◌else◌, ltb, length, unwrap_or, take, drop, lookup, arith,
  append_assoc, append-nil, subst, Bool-cases, Option-cases, inl, inr,
}
use codetracer_python_record.Reconstructor.Window.{
  RValueShape, index_access, ArgValKind, name, int, other, missing, DecodedInstruction,
}
use codetracer_python_record.Reconstructor.Table.{
  LineAssignment, LineAssignmentTable, for_line, is_on, column_of, push, push_stores, push_store,
  count_stores, detect_unpack_sequence, classify_rvalue, unpacked, find_receiver, store_target,
  advance, build_loop, build_table,
}
use codetracer_python_record.Reconstructor.Table.Stores.{
  bound_by, stores_on, recorded, on_line, recorded-push, Unpacks-push, count_stores-inv,
  push_stores_lem,
}

-- A destructuring names a receiver and covers the stores that were counted, at least one.
abbrev Unpacked : RValueShape × ℕ → ℕ → Type 0
Unpacked c n =
    (receiver : String) × (m : ℕ) × (c.0 ≡ index_access receiver (pos 0))
    × (c.1 ≡ suc m)
    × (n ≡ suc m)

unpacked_cases :
    (kind : ArgValKind) (n : ℕ) (c : RValueShape × ℕ)
    → (c.1 ≡ 1)
    → (unwrap_or (unpacked kind n) c).1 ≡ 1 ⊎ Unpacked (unwrap_or (unpacked kind n) c) n
unpacked_cases (name receiver) zero c h = inl h
unpacked_cases (name receiver) (suc m) c h = inr (receiver, m, refl, refl, refl)
unpacked_cases (int k) n c h = inl h
unpacked_cases other n c h = inl h
unpacked_cases missing n c h = inl h

classify_cases :
    (before rest : List DecodedInstruction) (line : ℕ)
    → (classify_rvalue before rest line).1 ≡ 1
      ⊎ Unpacked (classify_rvalue before rest line) (count_stores line rest)
unfolding classify_rvalue detect_unpack_sequence
classify_cases [] rest line = inl refl
classify_cases (u ∷ []) rest line = inl refl
classify_cases (u ∷ i ∷ before) rest line =
    elim (Bool-cases (str_eq u.opname "UNPACK_SEQUENCE" && is_on line u.line)) [
      | inl h ↦
          rw h (
            unpacked_cases (find_receiver line i before).argval_kind (count_stores line rest) _
              refl)
      | inr h ↦ rw h (inl refl)
    ]

module _ (table : LineAssignmentTable) (target : String) (op : DecodedInstruction)
    (before rest : List DecodedInstruction) where
  abbrev line : ℕ
  line = unwrap_or op.line 0

  abbrev shape : RValueShape × ℕ
  shape = classify_rvalue before (op ∷ rest) line

  abbrev first : LineAssignment
  first = record { target = target; rvalue = shape.0; column = column_of op }

  -- What a round does: it passes over some instructions, and records what they bind.
  abbrev Records : LineAssignmentTable × ℕ → Type 0
  Records r =
      (k : ℕ) × (r.1 ≡ suc k)
      × ((l : ℕ) → recorded r.0 l ≡ recorded table l ++ stores_on l (take (suc k) (op ∷ rest)))

  first_bound : (l : ℕ) → store_target op ≡ some target → on_line line l first ≡ bound_by l op
  first_bound l h = rw (h, bound_by) refl

  Records-one : store_target op ≡ some target → Records (push table line first, 1)
  unfolding stores_on
  Records-one h = (
    0,
    refl,
    λ l.
        recorded-push table line first l
        ∙ rw (first_bound l h) (
            ap (λ (t : List (String × Option ℕ)). recorded table l ++ t)
              (sym (append-nil (bound_by l op)))),
  )

  Records-all :
      (receiver : String) (m : ℕ)
      → store_target op ≡ some target
      → shape.0 ≡ index_access receiver (pos 0)
      → count_stores line (op ∷ rest) ≡ suc m
      → Records (push_stores (push table line first) line 1 m rest, suc m)
  unfolding stores_on
  Records-all receiver m h reads counted = (
    m,
    refl,
    λ l.
        push_stores_lem (push table line first) line 1 m rest receiver l
          (Unpacks-push table line first receiver (pos 0) reads)
          ((count_stores-inv line m op rest counted).2)
        ∙ rw (recorded-push table line first l) (
            rw (first_bound l h)
              (append_assoc (recorded table l) (bound_by l op) (stores_on l (take m rest)))),
  )

  -- The choice that `push_store` makes by the number of stores covered.
  abbrev chosen : ℕ → LineAssignmentTable × ℕ
  chosen n =
      let t = push table line first in
      if ltb 1 n then (push_stores t line 1 (n - 1) rest, n) else (t, 1)

  Records-chosen :
      (receiver : String) (m : ℕ)
      → store_target op ≡ some target
      → shape.0 ≡ index_access receiver (pos 0)
      → count_stores line (op ∷ rest) ≡ suc m
      → Records (chosen (suc m))
  Records-chosen receiver zero h reads counted = Records-one h
  Records-chosen receiver (suc m) h reads counted =
      subst Records (sym several) (Records-all receiver (suc m) h reads counted)
    where
      several :
          chosen (suc (suc m))
          ≡ (push_stores (push table line first) line 1 (suc m) rest, suc (suc m))
      several = ground arith

  push_store_lem : store_target op ≡ some target → Records (push_store table target op before rest)
  unfolding push_store
  push_store_lem h = elim (classify_cases before (op ∷ rest) line) [
    | inl one ↦ subst (λ (n : ℕ). Records (chosen n)) (sym one) (Records-one h)
    | inr (receiver, m, reads, covers, counted) ↦
        subst (λ (n : ℕ). Records (chosen n)) (sym covers)
          (Records-chosen receiver m h reads counted)
  ]

advance_lem :
    (n : ℕ) (before rest : List DecodedInstruction) → (advance n before rest).1 ≡ drop n rest
unfolding advance
advance_lem zero before rest = refl
advance_lem (suc n) before [] = refl
advance_lem (suc n) before (i ∷ rest) = advance_lem n (i ∷ before) rest

stores_on-take :
    (l n : ℕ) (rest : List DecodedInstruction)
    → stores_on l (take n rest) ++ stores_on l (drop n rest) ≡ stores_on l rest
unfolding stores_on
stores_on-take l zero rest = refl
stores_on-take l (suc n) [] = refl
stores_on-take l (suc n) (op ∷ rest) =
    append_assoc (bound_by l op) (stores_on l (take n rest)) (stores_on l (drop n rest))
    ∙ ap (λ (t : List (String × Option ℕ)). bound_by l op ++ t) (stores_on-take l n rest)

-- Behind the stores that a round passed over, the loop has recorded all up to there.
recorded_more :
    (table t : LineAssignmentTable) (k l : ℕ) (rest : List DecodedInstruction)
    → recorded t l ≡ recorded table l ++ stores_on l (take k rest)
    → recorded t l ++ stores_on l (drop k rest) ≡ recorded table l ++ stores_on l rest
recorded_more table t k l rest h = rw h (
    append_assoc (recorded table l) (stores_on l (take k rest)) (stores_on l (drop k rest))
    ∙ ap (λ (u : List (String × Option ℕ)). recorded table l ++ u) (stores_on-take l k rest))

length-drop-le : (n : ℕ) (rest : List DecodedInstruction) → length (drop n rest) ≤ length rest
length-drop-le zero rest = omega arith
length-drop-le (suc n) [] = omega arith
length-drop-le (suc n) (op ∷ rest) = omega (arith, length-drop-le n rest)

-- The loop ends with a table that records what the rest binds behind what it recorded before.
abbrev Builds : Option LineAssignmentTable → LineAssignmentTable → List DecodedInstruction → Type 0
Builds r table rest =
    (t : LineAssignmentTable) × (r ≡ some t)
    × ((l : ℕ) → recorded t l ≡ recorded table l ++ stores_on l rest)

build_loop_lem :
    (fuel : ℕ) (table : LineAssignmentTable) (before rest : List DecodedInstruction)
    → length rest ≤ fuel
    → Builds (build_loop fuel table before rest) table rest
unfolding build_loop stores_on
build_loop_lem fuel table before [] h = (table, refl, λ l. sym (append-nil (recorded table l)))
build_loop_lem zero table before (op ∷ rest) h = absurd (omega arith)
build_loop_lem (suc fuel) table before (op ∷ rest) h = elim (Option-cases (store_target op)) [
  | inl none_bound ↦
      let (t, ends, records) = build_loop_lem fuel table (op ∷ before) rest (omega arith) in
      (t, rw (none_bound, build_loop) ends, λ l. records l ∙ rw (none_bound, bound_by) refl)
  | inr (target, bound) ↦
      let (k, covers, records) = push_store_lem table target op before rest bound in
      let round : LineAssignmentTable × ℕ = push_store table target op before rest in
      let next : List DecodedInstruction × List DecodedInstruction =
        advance round.1 before (op ∷ rest) in
      let passed : next.1 ≡ drop k rest =
        ap (λ (n : ℕ). (advance n before (op ∷ rest)).1) covers
        ∙ advance_lem (suc k) before (op ∷ rest) in
      let (t, ends, later) = build_loop_lem fuel round.0 next.0 next.1 (
        omega
          (arith, ap (λ (r : List DecodedInstruction). length r) passed, length-drop-le k rest)) in
      (
        t,
        rw (bound, build_loop) ends,
        λ l. later l ∙ rw passed (recorded_more table round.0 (suc k) l (op ∷ rest) (records l)),
      )
]

recorded_nil :
    (l : ℕ) (decoded : List DecodedInstruction)
    → recorded [] l ++ stores_on l decoded ≡ stores_on l decoded
unfolding recorded for_line lookup
recorded_nil l decoded = refl

-- For every decoded code the loop ends with a table, in which each line lists the stores of a
-- name on it, with their targets and columns, every one once and in the order of the code; a
-- store without a line stands at line 0.
pub build_table_lem :
    (decoded : List DecodedInstruction)
    → (t : LineAssignmentTable) × (build_table decoded ≡ some t)
      × ((l : ℕ) → recorded t l ≡ stores_on l decoded)
unfolding build_table
build_table_lem decoded =
    let (t, ends, records) = build_loop_lem (length decoded) [] [] decoded (omega arith) in
    (t, ends, λ l. records l ∙ recorded_nil l decoded)

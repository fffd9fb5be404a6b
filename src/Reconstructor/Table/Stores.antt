-- ===== src/Reconstructor/Table/Stores.antt =====
-- Every store of a name is recorded once, on its line: the loop of `build_table` in
-- runtime/assignment_reconstructor.rs against a list of the stores.
use codetracer_python_record.Prelude.{
  ℕ, zero, suc, ◌+◌, ◌≡◌, refl, sym, ap, ◌∙◌, ℤ, pos, true, Option, none, some, List, [], ◌∷◌, ◌++◌,
  String, if◌then◌else◌, ◌==◌, lookup, unwrap_or, map, take, arith, append_assoc, append-nil,
  lookup-insert, Bool-cases, Option-cases, inl, inr, ==_refl,
}
use mathlib.Core.List.{map-append}
use codetracer_python_record.Reconstructor.Window.{index_access, DecodedInstruction, is_store_op}
use codetracer_python_record.Reconstructor.Table.{
  LineAssignment, LineAssignmentTable, for_line, column_of, push, push_trailing, push_stores,
  count_stores, last_of, name_of, receiver_of, store_target,
}

-- What an instruction binds on a line: the name and the column of a store of a name there. A store
-- without a line counts for line 0.
abbrev pub bound_by : ℕ → DecodedInstruction → List (String × Option ℕ)
bound_by l op = elim (store_target op) [
  | none ↦ []
  | some target ↦ if unwrap_or op.line 0 == l then (target, column_of op) ∷ [] else []
]

unfoldable pub stores_on : ℕ → List DecodedInstruction → List (String × Option ℕ)
stores_on l [] = []
stores_on l (op ∷ rest) = bound_by l op ++ stores_on l rest

abbrev pub target_and_column : LineAssignment → String × Option ℕ
target_and_column a = (a.target, a.column)

-- The targets and columns that a table records for a line.
unfoldable pub recorded : LineAssignmentTable → ℕ → List (String × Option ℕ)
recorded table l = map target_and_column (for_line table l)

abbrev pub on_line : ℕ → ℕ → LineAssignment → List (String × Option ℕ)
on_line line l a = if line == l then target_and_column a ∷ [] else []

pub for_line-push :
    (table : LineAssignmentTable) (line : ℕ) (a : LineAssignment) (l : ℕ)
    → for_line (push table line a) l
      ≡ (if line == l then for_line table l ++ a ∷ [] else for_line table l)
unfolding push for_line
for_line-push table line a l =
    ground (arith, lookup-insert line l (unwrap_or (lookup line table) [] ++ a ∷ []) table)

pub recorded-push :
    (table : LineAssignmentTable) (line : ℕ) (a : LineAssignment) (l : ℕ)
    → recorded (push table line a) l ≡ recorded table l ++ on_line line l a
unfolding recorded
recorded-push table line a l = elim (Bool-cases (line == l)) [
  | inl h ↦
      ap (map target_and_column) (for_line-push table line a l)
      ∙ rw h (map-append target_and_column (for_line table l) (a ∷ []))
  | inr h ↦
      ap (map target_and_column) (for_line-push table line a l)
      ∙ rw h (sym (append-nil (map target_and_column (for_line table l))))
]

last_of-append : (xs : List LineAssignment) (a : LineAssignment) → last_of (xs ++ a ∷ []) ≡ some a
last_of-append [] a = refl
last_of-append (x ∷ []) a = refl
last_of-append (x ∷ y ∷ xs) a = last_of-append (y ∷ xs) a

-- The last assignment of a line reads a part of this receiver.
abbrev pub Unpacks : LineAssignmentTable → ℕ → String → Type 0
Unpacks table line receiver = receiver_of (last_of (for_line table line)) ≡ some receiver

pub Unpacks-push :
    (table : LineAssignmentTable) (line : ℕ) (a : LineAssignment) (receiver : String) (k : ℤ)
    → a.rvalue ≡ index_access receiver k
    → Unpacks (push table line a) line receiver
Unpacks-push table line a receiver k h =
    ap (λ (s : List LineAssignment). receiver_of (last_of s)) (for_line-push table line a line)
    ∙ rw (==_refl line) (rw (last_of-append (for_line table line) a) (rw h refl))

store_target_lem :
    (op : DecodedInstruction)
    → is_store_op op.opname ≡ true
    → store_target op ≡ name_of op.argval_kind
unfolding store_target
store_target_lem op h = rw h refl

abbrev part : String → ℕ → String → DecodedInstruction → LineAssignment
part receiver offset target store = record {
  target = target;
  rvalue = index_access receiver (pos offset);
  column = column_of store;
}

module _ (table : LineAssignmentTable) (line offset : ℕ) (store : DecodedInstruction) where
  push_trailing_unnamed :
      name_of store.argval_kind ≡ none → push_trailing table line offset store ≡ table
  unfolding push_trailing
  push_trailing_unnamed h = rw (h, push_trailing) refl

  push_trailing_named :
      (target receiver : String)
      → name_of store.argval_kind ≡ some target
      → Unpacks table line receiver
      → push_trailing table line offset store ≡ push table line (part receiver offset target store)
  unfolding push_trailing
  push_trailing_named target receiver h k = rw (h, push_trailing) (rw k refl)

  -- A trailing store of a destructuring is recorded, and the receiver stays at hand.
  abbrev Trails : String → LineAssignmentTable → Type 0
  Trails receiver t =
      Unpacks t line receiver × ((l : ℕ) → recorded t l ≡ recorded table l ++ bound_by l store)

  push_trailing_lem :
      (receiver : String)
      → Unpacks table line receiver
      → is_store_op store.opname ≡ true
      → store.line ≡ some line
      → Trails receiver (push_trailing table line offset store)
  push_trailing_lem receiver h is_store at_line = elim (Option-cases (name_of store.argval_kind)) [
    | inl unnamed ↦ rw (push_trailing_unnamed unnamed) (
      h,
      λ l.
          rw (store_target_lem store is_store ∙ unnamed, bound_by)
            (sym (append-nil (recorded table l))),
    )
    | inr (target, named) ↦ rw (push_trailing_named target receiver named h) (
      Unpacks-push table line (part receiver offset target store) receiver (pos offset) refl,
      λ l.
          recorded-push table line (part receiver offset target store) l
          ∙ rw (store_target_lem store is_store ∙ named, bound_by) (rw (at_line, bound_by) refl),
    )
  ]

-- A store that the count of a destructuring takes in is a store on the line.
pub count_stores-inv :
    (line n : ℕ) (store : DecodedInstruction) (rest : List DecodedInstruction)
    → count_stores line (store ∷ rest) ≡ suc n
    → (store.line ≡ some line) × (is_store_op store.opname ≡ true) × (count_stores line rest ≡ n)
unfolding count_stores
count_stores-inv line n store rest h = ground arith

pub push_stores_lem :
    (table : LineAssignmentTable) (line offset n : ℕ) (rest : List DecodedInstruction)
    (receiver : String) (l : ℕ)
    → Unpacks table line receiver
    → count_stores line rest ≡ n
    → recorded (push_stores table line offset n rest) l
      ≡ recorded table l ++ stores_on l (take n rest)
unfolding push_stores stores_on count_stores
push_stores_lem table line offset zero rest receiver l h counted =
    sym (append-nil (recorded table l))
push_stores_lem table line offset (suc n) [] receiver l h counted = ground arith
push_stores_lem table line offset (suc n) (store ∷ rest) receiver l h counted =
    let (at_line, is_store, more) = count_stores-inv line n store rest counted in
    let (unpacks, adds) = push_trailing_lem table line offset store receiver h is_store at_line in
    rw is_store (
      push_stores_lem (push_trailing table line offset store) line (offset + 1) n rest receiver l
        unpacks more
      ∙ rw (adds l)
          (append_assoc (recorded table l) (bound_by l store) (stores_on l (take n rest))))

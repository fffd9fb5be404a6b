-- ===== src/Reconstructor/Table.antt =====
-- `build_table`, its unpacking of sequences, and the cache of runtime/assignment_reconstructor.rs.
-- The index of the loop is the pair of the instructions before it, the nearest first, and those from
-- it on.
pub mod Stores
pub mod Build
use codetracer_python_record.Prelude.{
  ℕ, zero, suc, ◌+◌, ◌-◌, ℤ, pos, Bool, true, false, not, ◌&&◌, ◌||◌, Option, none, some, List, [],
  ◌∷◌, ◌++◌, String, str_eq, if◌then◌else◌, ltb, length, ◌==◌, lookup, insert, remove, unwrap_or,
  map,
}
use codetracer_python_record.Reconstructor.Window.{
  RValueShape, index_access, unclassified, ArgValKind, name, DecodedInstruction, is_store_op,
  is_load_op, classify_window,
}

pub record LineAssignment : Type 0 where
  pub target : String
  pub rvalue : RValueShape
  pub column : Option ℕ

-- `HashMap<u32, Vec<LineAssignment>>`.
abbrev pub LineAssignmentTable : Type 0
LineAssignmentTable = List (ℕ × List LineAssignment)

unfoldable pub for_line : LineAssignmentTable → ℕ → List LineAssignment
for_line table line = unwrap_or (lookup line table) []

abbrev pub min_column : Option ℕ → Option ℕ → Option ℕ
min_column none c = c
min_column (some c) none = some c
min_column (some c) (some d) = some (if ltb d c then d else c)

unfoldable pub first_column : List LineAssignment → Option ℕ
first_column [] = none
first_column (a ∷ stores) = min_column a.column (first_column stores)

unfoldable pub first_column_for_line : LineAssignmentTable → ℕ → Option ℕ
unfolding for_line
first_column_for_line table line = first_column (for_line table line)

-- `decoded[index].line == Some(line)`.
abbrev pub is_on : ℕ → Option ℕ → Bool
is_on line none = false
is_on line (some l) = l == line

-- The instructions before a store that stand on its line, `&decoded[window_start..store_idx]`.
unfoldable pub window_before : List DecodedInstruction → ℕ → List DecodedInstruction
window_before [] line = []
window_before (i ∷ before) line = if is_on line i.line then i ∷ window_before before line else []

-- The walk to the load that pushed what is unpacked; it stops at the first instruction.
unfoldable pub find_receiver : ℕ → DecodedInstruction → List DecodedInstruction → DecodedInstruction
find_receiver line i [] = i
find_receiver line i (j ∷ before) =
    if is_on line i.line && not (is_load_op i.opname) then find_receiver line j before else i

-- The stores that follow one another on the line.
unfoldable pub count_stores : ℕ → List DecodedInstruction → ℕ
count_stores line [] = 0
count_stores line (i ∷ rest) =
    if is_on line i.line && is_store_op i.opname then suc (count_stores line rest) else 0

-- The first shape of a destructuring of so many stores.
abbrev pub unpacked : ArgValKind → ℕ → Option (RValueShape × ℕ)
unpacked (name receiver) zero = none
unpacked (name receiver) (suc n) = some (index_access receiver (pos 0), suc n)
unpacked kind n = none

unfoldable pub detect_unpack_sequence :
    List DecodedInstruction → List DecodedInstruction → ℕ → Option (RValueShape × ℕ)
unfolding find_receiver count_stores
detect_unpack_sequence (unpack ∷ i ∷ before) rest line =
    if str_eq unpack.opname "UNPACK_SEQUENCE" && is_on line unpack.line
    then unpacked (find_receiver line i before).argval_kind (count_stores line rest)
    else none
detect_unpack_sequence before rest line = none

-- The shape of what the store at the head of `rest` stores, and how many stores it covers.
unfoldable pub classify_rvalue :
    List DecodedInstruction → List DecodedInstruction → ℕ → RValueShape × ℕ
unfolding window_before
classify_rvalue before rest line =
    unwrap_or (detect_unpack_sequence before rest line)
      (classify_window (window_before before line), 1)

-- `by_line.entry(line).or_default().push(..)`.
unfoldable pub push : LineAssignmentTable → ℕ → LineAssignment → LineAssignmentTable
unfolding for_line
push table line a = insert line (for_line table line ++ a ∷ []) table

-- `store.col_offset.map(|c| c + 1)`.
abbrev pub column_of : DecodedInstruction → Option ℕ
column_of i = elim i.col_offset [ none ↦ none | some c ↦ some (c + 1) ]

abbrev pub last_of : List LineAssignment → Option LineAssignment
last_of [] = none
last_of (a ∷ []) = some a
last_of (a ∷ b ∷ stores) = last_of (b ∷ stores)

-- The receiver that the last assignment of a line reads.
abbrev pub receiver_of : Option LineAssignment → Option String
receiver_of none = none
receiver_of (some a) = elim a.rvalue [ index_access receiver k ↦ some receiver | _ ↦ none ]

-- `match &argval_kind { ArgValKind::Name(s) => .., _ => continue }`.
unfoldable pub name_of : ArgValKind → Option String
name_of (name s) = some s
name_of kind = none

-- One of the trailing stores of a destructuring.
unfoldable pub push_trailing :
    LineAssignmentTable → ℕ → ℕ → DecodedInstruction → LineAssignmentTable
unfolding push for_line
push_trailing table line offset store = elim (name_of store.argval_kind) [
  | none ↦ table
  | some target ↦ elim (receiver_of (last_of (for_line table line))) [
    | none ↦ table
    | some receiver ↦ push table line (record {
      target = target;
      rvalue = index_access receiver (pos offset);
      column = column_of store;
    })
  ]
]

-- The loop over the trailing stores, so many from `offset` on.
unfoldable pub push_stores :
    LineAssignmentTable → ℕ → ℕ → ℕ → List DecodedInstruction → LineAssignmentTable
unfolding push_trailing
push_stores table line offset zero rest = table
push_stores table line offset (suc n) [] = table
push_stores table line offset (suc n) (store ∷ rest) =
    let more = push_stores (push_trailing table line offset store) line (offset + 1) n rest in
    if is_store_op store.opname then more else table

-- `i += n`.
unfoldable pub advance :
    ℕ
    → List DecodedInstruction
    → List DecodedInstruction
    → List DecodedInstruction × List DecodedInstruction
advance zero before rest = (before, rest)
advance (suc n) before [] = (before, [])
advance (suc n) before (i ∷ rest) = advance n (i ∷ before) rest

-- What the round at a store with a name does to the table, and by how much the index grows.
unfoldable pub push_store :
    LineAssignmentTable
    → String
    → DecodedInstruction
    → List DecodedInstruction
    → List DecodedInstruction
    → LineAssignmentTable × ℕ
unfolding classify_rvalue push push_stores
push_store table target op before rest =
    let line = unwrap_or op.line 0 in
    let (rvalue, n) = classify_rvalue before (op ∷ rest) line in
    let first : LineAssignment = record {
      target = target;
      rvalue = rvalue;
      column = column_of op;
    } in
    let table' = push table line first in
    if ltb 1 n then (push_stores table' line 1 (n - 1) rest, n) else (table', 1)

-- The name that a store binds.
unfoldable pub store_target : DecodedInstruction → Option String
store_target op = if is_store_op op.opname then name_of op.argval_kind else none

-- The loop. `none` is fuel that ran out.
unfoldable pub build_loop :
    ℕ
    → LineAssignmentTable
    → List DecodedInstruction
    → List DecodedInstruction
    → Option LineAssignmentTable
unfolding push_store advance
build_loop fuel table before [] = some table
build_loop zero table before (op ∷ rest) = none
build_loop (suc fuel) table before (op ∷ rest) = elim (store_target op) [
  | none ↦ build_loop fuel table (op ∷ before) rest
  | some target ↦
      let (table', n) = push_store table target op before rest in
      let (before', rest') = advance n before (op ∷ rest) in build_loop fuel table' before' rest'
]

unfoldable pub build_table : List DecodedInstruction → Option LineAssignmentTable
unfolding build_loop
build_table decoded = build_loop (length decoded) [] [] decoded

-- `AssignmentReconstructor`: the tables by the id of their code object. Where `dis` fails there is
-- no instruction to build from, and the error is returned.
abbrev pub AssignmentReconstructor : Type 0
AssignmentReconstructor = List (ℕ × LineAssignmentTable)

-- `self.cache.insert(id, Arc::clone(&table))`, where the table was built.
abbrev pub keep_built :
    AssignmentReconstructor
    → ℕ
    → Option LineAssignmentTable
    → AssignmentReconstructor × Option LineAssignmentTable
keep_built cache id none = (cache, none)
keep_built cache id (some table) = (insert id table cache, some table)

unfoldable pub table_for :
    AssignmentReconstructor
    → ℕ
    → Option (List DecodedInstruction)
    → AssignmentReconstructor × Option LineAssignmentTable
table_for cache id decoded = elim (lookup id cache) [
  | some existing ↦ (cache, some existing)
  | none ↦ elim decoded [
    | none ↦ (cache, none)
    | some instructions ↦ keep_built cache id (build_table instructions)
  ]
]

unfoldable pub forget : AssignmentReconstructor → ℕ → AssignmentReconstructor
forget cache id = remove id cache

abbrev pub clear : AssignmentReconstructor → AssignmentReconstructor
clear cache = []

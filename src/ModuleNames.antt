-- ===== src/ModuleNames.antt =====
-- Module names, codetracer-python-recorder/src/module_identity.rs. A path is what Rust's library makes
-- of it: its components, its directories from the innermost, its stem. Whether a directory holds an
-- `__init__.py`, the search path of Python and the current directory are arguments.
pub mod Relative
pub mod Prefix
use codetracer_python_record.Prelude.{
  ℕ, ◌+◌, Bool, true, false, not, ◌&&◌, ◌||◌, Option, none, some, List, [], ◌∷◌, ◌++◌, ◌==◌, Text,
  codes, leb, if◌then◌else◌, is_empty, all, keep, text_eq, starts_with, drop, length,
}

-- `str::split` by one character.
unfoldable pub split : ℕ → Text → List Text
split sep [] = [] ∷ []
split sep (c ∷ s) = elim (split sep s) [
  | [] ↦ [] ∷ []
  | part ∷ parts ↦ if c == sep then [] ∷ part ∷ parts else (c ∷ part) ∷ parts
]

-- `join` by one character.
unfoldable pub join : ℕ → List Text → Text
join sep [] = []
join sep (part ∷ []) = part
join sep (part ∷ next ∷ parts) = part ++ (sep ∷ join sep (next ∷ parts))

abbrev pub before_text : ℕ → Option Text → Option Text
before_text c none = none
before_text c (some s) = some (c ∷ s)

-- `str::strip_suffix`.
unfoldable pub strip_suffix : Text → Text → Option Text
strip_suffix suffix [] = if text_eq [] suffix then some [] else none
strip_suffix suffix (c ∷ s) =
    let rest = strip_suffix suffix s in
    if text_eq (c ∷ s) suffix then some [] else before_text c rest

abbrev pub nonempty : Text → Bool
nonempty s = not (is_empty s)

abbrev pub init_stem : Text
init_stem = codes "__init__"

abbrev pub py_suffix : Text
py_suffix = codes ".py"

-- The last part of a relative path, as parts of the name.
abbrev pub stem_parts : Text → Option Text → List Text
stem_parts last none = last ∷ []
stem_parts last (some stem) = if text_eq stem init_stem then [] else stem ∷ []

unfoldable pub name_parts : List Text → List Text
unfolding strip_suffix
name_parts [] = []
name_parts (last ∷ []) = stem_parts last (strip_suffix py_suffix last)
name_parts (part ∷ next ∷ parts) = part ∷ name_parts (next ∷ parts)

abbrev pub joined : List Text → Option Text
joined [] = none
joined (part ∷ parts) = some (join b'.' (part ∷ parts))

unfoldable pub module_from_relative : Text → Option Text
unfolding split join name_parts
module_from_relative relative = joined (name_parts (keep nonempty (split b'/' relative)))

abbrev pub without_slash : Text → Text
without_slash [] = []
without_slash (c ∷ s) = if c == b'/' then s else c ∷ s

abbrev pub nonempty_text : Text → Option Text
nonempty_text [] = none
nonempty_text (c ∷ s) = some (c ∷ s)

unfoldable pub strip_posix_prefix : Text → Text → Option Text
strip_posix_prefix path base =
    let base' = if text_eq base (b'/' ∷ []) then [] else base in
    if is_empty base
    then none
    else if text_eq path base'
    then none
    else if starts_with base' path
    then nonempty_text (without_slash (drop (length base') path))
    else none

unfoldable pub is_identifier_char : ℕ → Bool
is_identifier_char c =
    c == b'_' || leb b'a' c && leb c b'z' || leb b'A' c && leb c b'Z' || leb b'0' c && leb c b'9'

abbrev pub is_identifier : Text → Bool
is_identifier segment = nonempty segment && all is_identifier_char segment

unfoldable pub is_valid_module_name : Text → Bool
unfolding split is_identifier_char
is_valid_module_name name = nonempty name && all is_identifier (split b'.' name)

-- A directory above the file: whether it holds an `__init__.py`, and its name.
pub record Directory : Type 0 where
  pub has_init : Bool
  pub name : Option Text

-- Whether the walk goes on above the directory.
unfoldable pub package_name : Directory → Option Text
unfolding is_valid_module_name
package_name d =
    if d.has_init
    then elim d.name [
      | none ↦ none
      | some component ↦ if is_valid_module_name component then some component else none
    ]
    else none

-- The segments of the packages around the file, outermost first.
unfoldable pub package_segments : List Directory → List Text
unfolding package_name
package_segments [] = []
package_segments (d ∷ directories) =
    let rest = package_segments directories in
    elim (package_name d) [ none ↦ [] | some component ↦ rest ++ (component ∷ []) ]

abbrev pub stem_segment : Option Text → List Text
stem_segment none = []
stem_segment (some stem) =
    if not (text_eq stem init_stem) && is_valid_module_name stem then stem ∷ [] else []

unfoldable pub module_name_from_packages : List Directory → Option Text → Option Text
unfolding join package_segments is_valid_module_name
module_name_from_packages directories stem =
    joined (package_segments directories ++ stem_segment stem)

-- `std::path::Component`.
pub data Component : Type 0 where
  normal prefix : Text → Component
  root_dir cur_dir parent_dir : Component

unfoldable pub posix_parts : List Component → List Text
posix_parts [] = []
posix_parts (normal part ∷ path) = part ∷ posix_parts path
posix_parts (prefix part ∷ path) = part ∷ posix_parts path
posix_parts (root_dir ∷ path) = [] ∷ posix_parts path
posix_parts (cur_dir ∷ path) = posix_parts path
posix_parts (parent_dir ∷ path) = (b'.' ∷ b'.' ∷ []) ∷ posix_parts path

-- An empty path has no components.
unfoldable pub normalise_to_posix : List Component → Option Text
unfolding posix_parts join
normalise_to_posix path = elim (posix_parts path) [
  | [] ↦ none
  | part ∷ parts ↦ some (join b'/' (part ∷ parts))
]

module _ (components : Text → List Component) (cwd : Option (List Component)) where
  abbrev pub bind_text : {A : Type 0} → Option Text → (Text → Option A) → Option A
  bind_text none f = none
  bind_text (some s) f = f s

  -- The root that an entry of `sys.path` stands for, and `none` where the loop goes on.
  unfoldable pub root_of : Text → Option Text
  unfolding normalise_to_posix
  root_of [] = elim cwd [ none ↦ none | some path ↦ normalise_to_posix path ]
  root_of (c ∷ raw) = normalise_to_posix (components (c ∷ raw))

  -- What an entry says of the file.
  unfoldable pub entry_name : Text → Text → Option Text
  unfolding root_of strip_posix_prefix module_from_relative
  entry_name absolute raw =
      bind_text (root_of raw)
        (λ root. bind_text (strip_posix_prefix absolute root) module_from_relative)

  -- The loop over the entries; `none` is one that is no text, which ends it.
  unfoldable pub search_entries : Text → List (Option Text) → Option Text
  unfolding entry_name
  search_entries absolute [] = none
  search_entries absolute (none ∷ entries) = none
  search_entries absolute (some raw ∷ entries) =
      let rest = search_entries absolute entries in
      elim (entry_name absolute raw) [ none ↦ rest | some name ↦ some name ]

  -- `sys_path` is `none` where Python does not give a list.
  unfoldable pub module_name_from_sys_path :
      Option (List (Option Text)) → List Component → Option Text
  unfolding search_entries normalise_to_posix
  module_name_from_sys_path none path = none
  module_name_from_sys_path (some entries) path =
      bind_text (normalise_to_posix path) (λ absolute. search_entries absolute entries)

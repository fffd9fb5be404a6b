-- ===== src/ModuleNames/Prefix.antt =====
-- The search of module_identity.rs for a root of `sys.path` that a file lies below.
use codetracer_python_record.Prelude.{
  ℕ, true, false, Option, some, List, [], ◌∷◌, ◌++◌, ◌==◌, ◌<◌, ◌≡◌, refl, Text, is_empty, text_eq,
  starts_with, drop, length, arith, length-append, text_eq→eq, Bool-cases, inl, inr, ap,
}
use codetracer_python_record.ModuleNames.{
  Component, without_slash, nonempty_text, strip_posix_prefix, module_from_relative, root_of,
  entry_name,
}

starts_with-append : (s t : Text) → starts_with s (s ++ t) ≡ true
starts_with-append [] t = refl
starts_with-append (c ∷ s) t = ground (arith, starts_with-append s t)

drop-append : (s t : Text) → drop (length s) (s ++ t) ≡ t
drop-append [] t = refl
drop-append (c ∷ s) t = drop-append s t

longer_ne : (s t : Text) → length t < length s → text_eq s t ≡ false
longer_ne s t h = elim (Bool-cases (text_eq s t)) [
  | inl e ↦ absurd (omega (arith, ap length (text_eq→eq s t e)))
  | inr e ↦ e
]

-- A path that goes on where the base ends.
strip_posix_prefix-append :
    (base rest : Text) (c : ℕ)
    → is_empty base ≡ false
    → text_eq base (b'/' ∷ []) ≡ false
    → strip_posix_prefix (base ++ (c ∷ rest)) base ≡ nonempty_text (without_slash (c ∷ rest))
unfolding strip_posix_prefix
strip_posix_prefix-append base rest c filled other =
    rw
      (
        filled,
        other,
        longer_ne (base ++ (c ∷ rest)) base (omega (arith, length-append base (c ∷ rest))),
      )
      (rw (starts_with-append base (c ∷ rest), drop-append base (c ∷ rest)) refl)

-- Where the root of an entry of the search path is not empty and not a lone slash, and the text
-- of a file name goes on behind the text of the root with another character than a slash, the
-- entry gives the file the module name of the rest.
pub entry_name-append :
    (components : Text → List Component) (cwd : Option (List Component)) (raw base rest : Text)
    (c : ℕ)
    → root_of components cwd raw ≡ some base
    → is_empty base ≡ false
    → text_eq base (b'/' ∷ []) ≡ false
    → (c == b'/') ≡ false
    → entry_name components cwd (base ++ (c ∷ rest)) raw ≡ module_from_relative (c ∷ rest)
unfolding entry_name
entry_name-append components cwd raw base rest c root filled other slash =
    rw (root, strip_posix_prefix-append base rest c filled other, slash) refl

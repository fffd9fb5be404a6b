-- ===== src/ModuleNames/Relative.antt =====
-- Names from relative paths in module_identity.rs.
use codetracer_python_record.Prelude.{
  ℕ, true, false, not, some, List, [], ◌∷◌, ◌++◌, ◌∙◌, ◌==◌, ◌≡◌, refl, Text, text_eq, length,
  arith, length-append, text_eq→eq, text_eq_refl, Bool-cases, inl, inr, ap, All, all, keep, ==_refl,
  All-append,
}
use codetracer_python_record.ModuleNames.{
  split, join, strip_suffix, nonempty, init_stem, py_suffix, name_parts, module_from_relative,
  joined, is_identifier_char, is_identifier, is_valid_module_name, before_text,
}

-- A text without the separator, and not empty.
abbrev Free : ℕ → Text → Type 0
Free sep s = all (λ (c : ℕ). not (c == sep)) s ≡ true

split-Free : (sep : ℕ) (s : Text) → Free sep s → split sep s ≡ s ∷ []
unfolding split
split-Free sep [] h = refl
split-Free sep (c ∷ s) h =
    let rest : Free sep s = ground (arith, h) in
    let other : (c == sep) ≡ false = ground (arith, h) in rw (split-Free sep s rest, other) refl

pub split_some : (sep : ℕ) (s : Text) → (p : Text) × (ps : List Text) × (split sep s ≡ p ∷ ps)
unfolding split
split_some sep [] = ([], [], refl)
split_some sep (c ∷ s) =
    let (p, ps, e) = split_some sep s in
    elim (Bool-cases (c == sep)) [
      | inl h ↦ ([], p ∷ ps, rw (e, h) refl)
      | inr h ↦ (c ∷ p, ps, rw (e, h) refl)
    ]

split-cons : (sep : ℕ) (s t : Text) → Free sep s → split sep (s ++ (sep ∷ t)) ≡ s ∷ split sep t
unfolding split
split-cons sep [] t h = let (p, ps, e) = split_some sep t in rw (e, ==_refl sep) refl
split-cons sep (c ∷ s) t h =
    let rest : Free sep s = ground (arith, h) in
    let other : (c == sep) ≡ false = ground (arith, h) in rw (split-cons sep s t rest, other) refl

-- The separator puts the parts together so that they can be taken apart again.
split-join :
    (sep : ℕ) (part : Text) (parts : List Text)
    → All (Free sep) (part ∷ parts)
    → split sep (join sep (part ∷ parts)) ≡ part ∷ parts
unfolding join
split-join sep part [] h = split-Free sep part h.0
split-join sep part (next ∷ parts) h =
    split-cons sep part (join sep (next ∷ parts)) h.0
    ∙ ap (λ (l : List Text). part ∷ l) (split-join sep next parts h.1)

strip_suffix-append :
    (d : ℕ) (s suffix : Text) → strip_suffix (d ∷ suffix) (s ++ (d ∷ suffix)) ≡ some s
unfolding strip_suffix
strip_suffix-append d [] suffix = rw (text_eq_refl (d ∷ suffix)) refl
strip_suffix-append d (c ∷ s) suffix =
    elim (Bool-cases (text_eq (c ∷ s ++ (d ∷ suffix)) (d ∷ suffix))) [
      | inl e ↦ absurd (
          omega (
            arith,
            ap length (text_eq→eq (c ∷ s ++ (d ∷ suffix)) (d ∷ suffix) e),
            length-append s (d ∷ suffix),
          ))
      | inr e ↦ rw e (ap (before_text c) (strip_suffix-append d s suffix))
    ]

char_free :
    (c : ℕ) → is_identifier_char c ≡ true → (not (c == b'/') ≡ true) × (not (c == b'.') ≡ true)
unfolding is_identifier_char
char_free c h = ground arith

chars-Free : (s : Text) → all is_identifier_char s ≡ true → Free b'/' s × Free b'.' s
chars-Free [] h = (refl, refl)
chars-Free (c ∷ s) h =
    let here : is_identifier_char c ≡ true = ground (arith, h) in
    let rest = chars-Free s (ground (arith, h)) in
    let free = char_free c here in (ground (arith, rest.0, free.0), ground (arith, rest.1, free.1))

-- An identifier is not empty and has no separator.
abbrev IsPart : Text → Type 0
IsPart s = is_identifier s ≡ true

identifier-Free : (s : Text) → IsPart s → (nonempty s ≡ true) × Free b'/' s × Free b'.' s
identifier-Free s h =
    let chars = chars-Free s (ground (arith, h)) in (ground (arith, h), chars.0, chars.1)

parts-Free :
    (dirs : List Text) (last : Text)
    → All IsPart dirs
    → Free b'/' last
    → nonempty last ≡ true
    → All (Free b'/') (dirs ++ (last ∷ []))
      × (keep nonempty (dirs ++ (last ∷ [])) ≡ dirs ++ (last ∷ []))
parts-Free [] last h free filled = ((free, tt), rw filled refl)
parts-Free (dir ∷ dirs) last h free filled =
    let rest = parts-Free dirs last h.1 free filled in
    let here = identifier-Free dir h.0 in ((here.1, rest.0), rw (here.0, rest.1) refl)

-- A file with the suffix.
file-Free : (stem : Text) → Free b'/' stem → Free b'/' (stem ++ py_suffix)
file-Free [] h = refl
file-Free (c ∷ stem) h = ground (arith, file-Free stem, h)

name_parts-file :
    (dirs : List Text) (stem : Text)
    → text_eq stem init_stem ≡ false
    → name_parts (dirs ++ ((stem ++ py_suffix) ∷ [])) ≡ dirs ++ (stem ∷ [])
unfolding name_parts
name_parts-file [] stem other = rw (strip_suffix-append b'.' stem (b'p' ∷ b'y' ∷ []), other) refl
name_parts-file (dir ∷ []) stem other =
    ap (λ (l : List Text). dir ∷ l) (name_parts-file [] stem other)
name_parts-file (dir ∷ next ∷ dirs) stem other =
    ap (λ (l : List Text). dir ∷ l) (name_parts-file (next ∷ dirs) stem other)

names-Free : (dirs : List Text) → All IsPart dirs → All (Free b'.') dirs
names-Free [] h = tt
names-Free (dir ∷ dirs) h = ((identifier-Free dir h.0).2, names-Free dirs h.1)

all_parts : (dirs : List Text) → All IsPart dirs → all is_identifier dirs ≡ true
all_parts [] h = refl
all_parts (dir ∷ dirs) h = ground (arith, all_parts dirs h.1, h.0)

split-join_last :
    (sep : ℕ) (dirs : List Text) (last : Text)
    → All (Free sep) (dirs ++ (last ∷ []))
    → split sep (join sep (dirs ++ (last ∷ []))) ≡ dirs ++ (last ∷ [])
split-join_last sep [] last h = split-join sep last [] h
split-join_last sep (dir ∷ dirs) last h = split-join sep dir (dirs ++ (last ∷ [])) h

joined_last :
    (dirs : List Text) (last : Text)
    → joined (dirs ++ (last ∷ [])) ≡ some (join b'.' (dirs ++ (last ∷ [])))
joined_last [] last = refl
joined_last (dir ∷ dirs) last = refl

nonempty-append : (s t : Text) → nonempty s ≡ true → nonempty (s ++ t) ≡ true
nonempty-append [] t h = cc
nonempty-append (c ∷ s) t h = refl

nonempty-join :
    (sep : ℕ) (part : Text) (parts : List Text)
    → nonempty part ≡ true
    → nonempty (join sep (part ∷ parts)) ≡ true
unfolding join
nonempty-join sep part [] h = h
nonempty-join sep part (next ∷ parts) h = nonempty-append part (sep ∷ join sep (next ∷ parts)) h

valid_name :
    (part : Text) (parts : List Text)
    → All IsPart (part ∷ parts)
    → is_valid_module_name (join b'.' (part ∷ parts)) ≡ true
unfolding is_valid_module_name
valid_name part parts h =
    rw (nonempty-join b'.' part parts (identifier-Free part h.0).0)
      (rw (split-join b'.' part parts (names-Free (part ∷ parts) h)) (all_parts (part ∷ parts) h))

last_valid :
    (dirs : List Text) (stem : Text)
    → All IsPart dirs
    → IsPart stem
    → is_valid_module_name (join b'.' (dirs ++ (stem ∷ []))) ≡ true
last_valid [] stem h last = valid_name stem [] (last, tt)
last_valid (dir ∷ dirs) stem h last =
    valid_name dir (dirs ++ (stem ∷ [])) (All-append IsPart (dir ∷ dirs) (stem ∷ []) h (last, tt))

-- A relative path of identifiers that ends in a Python file other than the one of a package
-- gives the module name with the same parts, and it is valid.
pub module_from_relative-join :
    (dirs : List Text) (stem : Text)
    → All (λ s. is_identifier s ≡ true) dirs
    → is_identifier stem ≡ true
    → text_eq stem init_stem ≡ false
    → (module_from_relative (join b'/' (dirs ++ ((stem ++ py_suffix) ∷ [])))
        ≡ some (join b'.' (dirs ++ (stem ∷ []))))
      × (is_valid_module_name (join b'.' (dirs ++ (stem ∷ []))) ≡ true)
unfolding module_from_relative
module_from_relative-join dirs stem h last other =
    let free = identifier-Free stem last in
    let parts =
      parts-Free dirs (stem ++ py_suffix) h (file-Free stem free.1)
        (nonempty-append stem py_suffix free.0) in
    (
      rw
          (
            split-join_last b'/' dirs (stem ++ py_suffix) parts.0,
            parts.1,
            name_parts-file dirs stem other,
          )
          (joined_last dirs stem),
      last_valid dirs stem h last,
    )

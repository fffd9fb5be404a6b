-- ===== src/Policy/Capture.antt =====
-- What the capture setting of policy/env.rs accepts, and what it comes to.
use codetracer_python_record.Prelude.{
  ◌≡◌, refl, Bool, true, false, ◌||◌, not, List, [], ◌∷◌, arith, Text, codes, text_eq, text_eq→eq,
  trim, to_ascii_lowercase, is_empty, is_empty→nil, all, any, if◌then◌else◌, Bool-cases, inl, inr,
}
use codetracer_python_record.Policy.Parse.{
  bad_capture_io, ok, err, ◌>>=◌, capture_io_enables_nothing, is_proxy_word, is_fd_word,
  is_off_word, is_on_word, split_list, parse_tokens, require_some, parse_capture_io,
}

-- A part of the list names the proxies, the mirror, or is blank.
abbrev pub names_fd : Text → Bool
names_fd part = is_fd_word (trim part)

abbrev pub names_any : Text → Bool
names_any part = is_proxy_word (trim part) || is_fd_word (trim part)

abbrev pub accepted : Text → Bool
accepted part = is_empty (trim part) || names_any part

words_apart : (t : Text) → is_proxy_word t ≡ true → is_fd_word t ≡ false
unfolding is_proxy_word is_fd_word
words_apart t h = elim (Bool-cases (text_eq t (codes "proxies"))) [
  | inl e ↦ rw (text_eq→eq t (codes "proxies") e) refl
  | inr e ↦ elim (Bool-cases (text_eq t (codes "proxy"))) [
    | inl f ↦ rw (text_eq→eq t (codes "proxy") f) refl
    | inr f ↦ absurd (ground arith)
  ]
]

no_words : (t : Text) → is_empty t ≡ true → (is_proxy_word t ≡ false) × (is_fd_word t ≡ false)
unfolding is_proxy_word is_fd_word
no_words t h = rw (is_empty→nil t h) (refl, refl)

-- Where every part is accepted the flags are raised by what the parts name.
parse_tokens-accepted :
    (parts : List Text) (l f : Bool)
    → all accepted parts ≡ true
    → parse_tokens parts l f ≡ ok (l || any names_any parts, f || any names_fd parts)
unfolding parse_tokens
parse_tokens-accepted [] l f h = ground arith
parse_tokens-accepted (part ∷ parts) l f h = ground (
  arith,
  no_words (trim part),
  words_apart (trim part),
  parse_tokens-accepted parts l f,
  parse_tokens-accepted parts true f,
  parse_tokens-accepted parts true true,
)

-- The first part that is not accepted, without its blanks.
abbrev pub first_bad : List Text → Text
first_bad [] = []
first_bad (part ∷ parts) = if accepted part then first_bad parts else trim part

parse_tokens_rejected :
    (parts : List Text) (l f : Bool)
    → all accepted parts ≡ false
    → parse_tokens parts l f ≡ err (bad_capture_io (first_bad parts))
unfolding parse_tokens
parse_tokens_rejected [] l f h = cc
parse_tokens_rejected (part ∷ parts) l f h = ground (
  arith,
  parse_tokens_rejected parts l f,
  parse_tokens_rejected parts true f,
  parse_tokens_rejected parts true true,
)

-- What a setting asks for.
abbrev pub setting_parts : Text → List Text
setting_parts s = split_list (to_ascii_lowercase (trim s))

any_fd : (parts : List Text) → any names_fd parts ≡ true → any names_any parts ≡ true
any_fd [] h = h
any_fd (part ∷ parts) h = ground (arith, any_fd parts)

list_result :
    (parts : List Text)
    → (parse_tokens parts false false >>= require_some) ≡ (
        if not (all accepted parts)
        then err (bad_capture_io (first_bad parts))
        else if not (any names_any parts)
        then err capture_io_enables_nothing
        else ok (true, any names_fd parts))
list_result parts = elim (Bool-cases (all accepted parts)) [
  | inl h ↦ rw (parse_tokens-accepted parts false false h, h) (ground (arith, any_fd parts))
  | inr h ↦ rw (parse_tokens_rejected parts false false h, h) refl
]

-- A capture setting that is not blank and none of the words for on and off is read as a list of
-- parts: the first part that is not accepted is the error, a list that names nothing is an
-- error, and else the proxies are on, and the mirror exactly if a part names it.
pub parse_capture_io_list :
    (s : Text)
    → is_empty (trim s) ≡ false
    → is_off_word (to_ascii_lowercase (trim s)) ≡ false
    → is_on_word (to_ascii_lowercase (trim s)) ≡ false
    → let parts = setting_parts s in
      parse_capture_io s ≡ (
        if not (all accepted parts)
        then err (bad_capture_io (first_bad parts))
        else if not (any names_any parts)
        then err capture_io_enables_nothing
        else ok (true, any names_fd parts))
unfolding parse_capture_io
parse_capture_io_list s h off on = rw (h, off, on, parse_capture_io) (list_result (setting_parts s))

-- Every setting that is read asks for the mirror only with the proxies.
pub parse_capture_io-implies :
    (s : Text) (l f : Bool) → parse_capture_io s ≡ ok (l, f) → f ≡ true → l ≡ true
unfolding parse_capture_io
parse_capture_io-implies s l f h t = ground (arith, list_result (setting_parts s))

-- ===== src/Validators/Schema/Laws.antt =====
-- Accepted schema names: a second validation, and their quoting (tenants/validators.py).
use mt_shards_back_test.Base.{
  ℕ, ◌+◌, ◌-◌, ◌≤◌, ◌≡◌, refl, sym, ap, ◌∙◌, Bool, true, false, not, Option, none, some, [], ◌∷◌,
  ◌++◌, map, ltb, leb, ◌==◌, Text, all, any, length, if◌then◌else◌, arith,
}
use mt_shards_back_test.Base.Chars.{CharTable, is_empty}
use mt_shards_back_test.Base.Chars.Laws.{is_tame, lower-tame, strip-tame, all-implies}
use mt_shards_back_test.Base.Exec.{ok}
use mt_shards_back_test.Validators.Schema.{
  is_word, schema_name_re, is_unsafe, fold_hyphen, normalize_schema_name, check_schema_name,
  validate_schema_name, is_safe_schema_identifier, quote_schema, quote, schema_name_max,
}

all-word : (s : Text) → schema_name_re s ≡ true → all is_word s ≡ true
unfolding schema_name_re all
all-word [] h = refl
all-word (c ∷ s) h = ground arith

word-tame : (c : ℕ) → is_word c ≡ true → is_tame c ≡ true
word-tame c h = ground arith

word-safe : (c : ℕ) → is_word c ≡ true → not (is_unsafe c) ≡ true
unfolding is_unsafe
word-safe c h = ground arith

fold-word : (c : ℕ) → is_word c ≡ true → fold_hyphen c ≡ c
fold-word c h = ground arith

map-fold-word : (s : Text) → all is_word s ≡ true → map fold_hyphen s ≡ s
unfolding all
map-fold-word [] h = refl
map-fold-word (c ∷ s) h = ground (arith, fold-word c, map-fold-word s)

not-any : (p : ℕ → Bool) (s : Text) → all (λ c. not (p c)) s ≡ true → any p s ≡ false
unfolding all any
not-any p [] h = refl
not-any p (c ∷ s) h = ground (arith, not-any p s)

normalize-word : (u : CharTable) (s : Text) → all is_word s ≡ true → normalize_schema_name u s ≡ s
unfolding normalize_schema_name
normalize-word u s h =
    let t = all-implies is_word is_tame s word-tame h in
    rw (strip-tame u s t) (rw (lower-tame u s t) (map-fold-word s h))

check-accepted :
    (name n : Text)
    → check_schema_name name ≡ ok n
    → (name ≡ n) × (schema_name_re n ≡ true) × (ltb 63 (length n) ≡ false) × (is_empty n ≡ false)
unfolding check_schema_name
check-accepted name n h = ground arith

-- Validating an accepted name again returns it unchanged.
pub validate_schema_name_idem :
    (u : CharTable) (v n : Text) → validate_schema_name u v ≡ ok n → validate_schema_name u n ≡ ok n
unfolding validate_schema_name
validate_schema_name_idem u v n h =
    let (e, re, long, full) = check-accepted (normalize_schema_name u v) n h in
    ap check_schema_name (normalize-word u n (all-word n re) ∙ sym e) ∙ h

accepted_safe :
    (n : Text)
    → schema_name_re n ≡ true
    → ltb 63 (length n) ≡ false
    → is_empty n ≡ false
    → is_safe_schema_identifier n ≡ true
unfolding is_safe_schema_identifier
accepted_safe n re long full = ground (
  arith,
  not-any is_unsafe n (all-implies is_word (λ c. not (is_unsafe c)) n word-safe (all-word n re)),
)

-- quote_schema never refuses a name that validate_schema_name accepted.
pub quote_schema-accepted :
    (u : CharTable) (v n : Text)
    → validate_schema_name u v ≡ ok n
    → quote_schema n ≡ ok (quote ∷ (n ++ (quote ∷ [])))
unfolding validate_schema_name quote_schema
quote_schema-accepted u v n h =
    let (e, re, long, full) = check-accepted (normalize_schema_name u v) n h in
    ground (arith, accepted_safe n re long full)

-- How many bytes a code point and a text take in UTF-8, the encoding of the database.
abbrev pub width : ℕ → ℕ
width c = if ltb c 128 then 1 else if ltb c 2048 then 2 else if ltb c 65536 then 3 else 4

unfoldable pub bytes : Text → ℕ
bytes [] = 0
bytes (c ∷ s) = width c + bytes s

-- PostgreSQL keeps as much of a longer identifier as fits into the bytes that are left.
unfoldable pub clipped : ℕ → Text → Text
clipped left [] = []
clipped left (c ∷ s) =
    let rest = clipped (left - width c) s in if leb (width c) left then c ∷ rest else []

abbrev pub starts_with_quote : Text → Bool
starts_with_quote [] = false
starts_with_quote (c ∷ s) = c == quote

abbrev pub prepend : ℕ → Option (Text × Text) → Option (Text × Text)
prepend c none = none
prepend c (some (name, rest)) = some (c ∷ name, rest)

abbrev pub at_quote : Bool → Text → Option (Text × Text) → Option (Text × Text)
at_quote doubled s inner = if doubled then inner else some ([], s)

-- The body of a quoted identifier and what follows its closing quote: a doubled quote stands for one
-- quote. The flag says that the quote before was the first of two.
unfoldable pub quoted_body : Bool → Text → Option (Text × Text)
quoted_body second [] = none
quoted_body true (c ∷ s) = let rest = quoted_body false s in prepend c rest
quoted_body false (c ∷ s) =
    let plain = quoted_body false s in
    let pair = quoted_body true s in
    if c == quote then at_quote (starts_with_quote s) s pair else prepend c plain

abbrev pub clip_name : Option (Text × Text) → Option (Text × Text)
clip_name none = none
clip_name (some (name, rest)) = some (clipped schema_name_max name, rest)

-- How PostgreSQL reads a quoted identifier at the start of a text, and what follows it.
abbrev pub read_quoted : Text → Option (Text × Text)
read_quoted [] = none
read_quoted (c ∷ s) = if c == quote then clip_name (quoted_body false s) else none

quoted_body-safe :
    (n rest : Text)
    → any is_unsafe n ≡ false
    → starts_with_quote rest ≡ false
    → quoted_body false (n ++ (quote ∷ rest)) ≡ some (n, rest)
unfolding quoted_body any is_unsafe
quoted_body-safe [] rest h q = rw q refl
quoted_body-safe (c ∷ n) rest h q =
    let apart : (c == quote) ≡ false = ground (arith, h) in
    rw (apart, quoted_body-safe n rest (ground (arith, h)) q) refl

clipped_fits : (left : ℕ) (n : Text) → bytes n ≤ left → clipped left n ≡ n
unfolding clipped bytes
clipped_fits left [] h = refl
clipped_fits left (c ∷ n) h =
    let fits : leb (width c) left ≡ true = ground (arith, h) in
    rw (fits, clipped_fits (left - width c) n (omega (arith, h))) refl

append_cons : (n rest : Text) → (n ++ (quote ∷ [])) ++ rest ≡ n ++ (quote ∷ rest)
append_cons [] rest = refl
append_cons (c ∷ n) rest = ap (λ s. c ∷ s) (append_cons n rest)

-- PostgreSQL reads what quote_schema built as exactly the name that was given, and goes on with the
-- SQL that follows, if that SQL does not start with a quote and the name takes no more than 63 bytes
-- in UTF-8.
pub quote_schema-read :
    (n q rest : Text)
    → quote_schema n ≡ ok q
    → bytes n ≤ schema_name_max
    → starts_with_quote rest ≡ false
    → read_quoted (q ++ rest) ≡ some (n, rest)
unfolding quote_schema
quote_schema-read n q rest h short apart =
    let built : quote ∷ (n ++ (quote ∷ [])) ≡ q = ground (arith, h) in
    let safe : any is_unsafe n ≡ false = ground (arith, h) in
    rw (← built, append_cons n rest, quoted_body-safe n rest safe apart, clipped_fits 63 n short)
      refl

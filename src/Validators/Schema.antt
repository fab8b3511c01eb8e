-- ===== src/Validators/Schema.antt =====
-- tenants/validators.py: schema names, from the convention for new ones to the quoting for SQL.
pub mod Laws
use mt_shards_back_test.Base.{
  ℕ, Bool, true, false, not, ◌&&◌, ◌||◌, List, [], ◌∷◌, ◌++◌, map, ltb, leb, ◌==◌, Text, codes,
  starts_with, elem, all, any, length, if◌then◌else◌,
}
use mt_shards_back_test.Base.Chars.{CharTable, is_lower, is_digit, lower, strip, is_empty}
use mt_shards_back_test.Base.Exec.{Outcome, ok, raise}

pub data ValidationError : Type 0 where
  schema_required schema_too_long schema_unusable schema_reserved : ValidationError
  host_required host_too_long host_malformed host_numeric : ValidationError
  label_malformed host_public host_reserved unknown_match_type : ValidationError

-- ValueError
pub data ValueError : Type 0 where
  unsafe_identifier : ValueError

abbrev pub schema_name_max : ℕ
schema_name_max = 63

abbrev pub is_word : ℕ → Bool
is_word c = is_lower c || (is_digit c || c == 95)

abbrev pub is_alnum : ℕ → Bool
is_alnum c = is_lower c || is_digit c

abbrev pub first_then_words : Text → Bool
first_then_words [] = false
first_then_words (c ∷ s) = is_alnum c && (all is_word s && leb (length s) 62)

-- SCHEMA_NAME_RE.fullmatch, ^(?!pg_)[a-z0-9][a-z0-9_]{0,62}$
unfoldable pub schema_name_re : Text → Bool
schema_name_re s = not (starts_with s (codes "pg_")) && first_then_words s

-- _UNSAFE_IDENT_RE, [\x00-\x1f"']
unfoldable pub is_unsafe : ℕ → Bool
is_unsafe c = ltb c 32 || (c == 34 || c == 39)

abbrev pub fold_hyphen : ℕ → ℕ
fold_hyphen c = if c == 45 then 95 else c

unfoldable pub normalize_schema_name : CharTable → Text → Text
normalize_schema_name u v = map fold_hyphen (lower u (strip u v))

unfoldable pub check_schema_name : Text → Outcome ValidationError Text
check_schema_name name =
    if is_empty name
    then raise schema_required
    else if ltb schema_name_max (length name)
    then raise schema_too_long
    else if not (schema_name_re name)
    then raise schema_unusable
    else ok name

unfoldable pub validate_schema_name : CharTable → Text → Outcome ValidationError Text
unfolding check_schema_name normalize_schema_name
validate_schema_name u v = check_schema_name (normalize_schema_name u v)

unfoldable pub is_safe_schema_identifier : Text → Bool
is_safe_schema_identifier v =
    not (is_empty v) && (leb (length v) schema_name_max && not (any is_unsafe v))

abbrev pub quote : ℕ
quote = 34

unfoldable pub quote_schema : Text → Outcome ValueError Text
unfolding is_safe_schema_identifier
quote_schema name =
    if not (is_safe_schema_identifier name)
    then raise unsafe_identifier
    else ok (quote ∷ (name ++ (quote ∷ [])))

-- `reserved` is what reserved_schema_labels() reads.
unfoldable pub validate_tenant_schema_name :
    CharTable → List Text → Text → Outcome ValidationError Text
validate_tenant_schema_name u reserved v =
    let name = lower u (strip u v) in if elem name reserved then raise schema_reserved else ok name

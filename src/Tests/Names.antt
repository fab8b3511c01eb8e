-- ===== src/Tests/Names.antt =====
-- Names, hosts and rules at concrete inputs.
use mt_shards_back_test.Base.{
  ◌≡◌, ◌↔◌, refl, true, false, some, arith, [], ◌∷◌, ◌++◌, Text, codes, text_eq, elem, starts_with,
  all, any,
}
use mt_shards_back_test.Base.Chars.{
  CharTable, lower_char, lower, is_space, rstrip, strip, split_dots, ends_with,
}
use mt_shards_back_test.Base.Exec.{ok}
use mt_shards_back_test.Validators.Schema.{quote_schema, is_unsafe}
use mt_shards_back_test.Validators.Schema.Laws.{quote_schema-read, read_quoted, bytes}
use mt_shards_back_test.Validators.Host.{
  label_re, ends_hyphen, normalize_host, chop_dot, last_numeric, check_hostname, validate_hostname,
}
use mt_shards_back_test.Validators.Host.Laws.{validate_hostname_canonical}
use mt_shards_back_test.Validators.Rules.{
  Rule, label, first_label, match_by, matches, candidate, validate_tenant_domain,
}
use mt_shards_back_test.Validators.Rules.Laws.{
  candidate-matches, validate_tenant_domain_iff, is_reserved,
}

-- No code point past ASCII is a space or has a lower case.
abbrev ascii : CharTable
ascii = record { lower_wide = λ c. c ∷ []; space_wide = λ c. false }

quote_schema-read_example :
    read_quoted (codes "\"ab\"" ++ codes " CASCADE") ≡ some (codes "ab", codes " CASCADE")
unfolding quote_schema any is_unsafe bytes
quote_schema-read_example =
    quote_schema-read (codes "ab") (codes "\"ab\"") (codes " CASCADE") refl (omega arith) refl

abbrev host : Text
host = codes "www.b.io"

validate_hostname_canonical_example :
    (normalize_host ascii host ≡ host) × (validate_hostname ascii host ≡ ok host)
unfolding validate_hostname check_hostname chop_dot strip lower lower_char is_space label_re
    ends_hyphen last_numeric split_dots all
validate_hostname_canonical_example =
    validate_hostname_canonical ascii (codes " WWW.b.io.") host refl

abbrev www : Rule
www = record {
  match_type = label;
  value = codes "www";
  base_domain = codes "b.io";
  is_active = true;
}

candidate-matches_example : candidate ascii www host ≡ true
unfolding matches match_by normalize_host first_label strip lower lower_char is_space rstrip text_eq
    ends_with starts_with
candidate-matches_example = candidate-matches ascii www host refl refl

validate_tenant_domain_example :
    (validate_tenant_domain ascii (codes "m.io" ∷ []) (www ∷ []) (codes "a.io") ≡ ok (codes "a.io"))
    ↔ ((validate_hostname ascii (codes "a.io") ≡ ok (codes "a.io"))
        × (elem (codes "a.io") (codes "m.io" ∷ []) ≡ false)
        × (is_reserved ascii (www ∷ []) (codes "a.io") ≡ false))
validate_tenant_domain_example =
    validate_tenant_domain_iff ascii (codes "m.io" ∷ []) (www ∷ []) (codes "a.io") (codes "a.io")

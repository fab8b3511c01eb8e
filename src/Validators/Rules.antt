-- ===== src/Validators/Rules.antt =====
-- tenants/models.py, ReservedHostRule, and the checks of tenants/validators.py that read its rows.
pub mod Laws
use mt_shards_back_test.Base.{
  Bool, true, false, not, ◌&&◌, ◌||◌, List, [], ◌∷◌, ◌++◌, Option, none, some, ◌==◌, Text, text_eq,
  starts_with, elem, if◌then◌else◌,
}
use mt_shards_back_test.Base.Chars.{CharTable, strip, is_empty, dot, ends_with}
use mt_shards_back_test.Base.Exec.{Outcome, ok, raise}
use mt_shards_back_test.Validators.Schema.{ValidationError, host_public, host_reserved}
use mt_shards_back_test.Validators.Host.{normalize_host, validate_hostname, validate_label}

pub data MatchType : Type 0 where
  exact suffix label : MatchType

pub record Rule : Type 0 where
  pub match_type : MatchType
  pub value : Text
  pub base_domain : Text
  pub is_active : Bool

-- host.split(".", 1)[0]
unfoldable pub first_label : Text → Text
first_label [] = []
first_label (c ∷ s) = let rest = first_label s in if c == dot then [] else c ∷ rest

abbrev pub under : Text → Text → Bool
under base host = text_eq host base || ends_with host (dot ∷ base)

-- The tests of `matches` on a normalized host, value and base.
unfoldable pub match_by : MatchType → Text → Text → Text → Bool
match_by exact val base host = text_eq host val
match_by suffix val base host = under val host
match_by label val base host =
    if not (text_eq (first_label host) val) then false else is_empty base || under base host

unfoldable pub matches : CharTable → Rule → Text → Bool
matches u r host =
    match_by r.match_type (normalize_host u r.value) (normalize_host u r.base_domain)
      (normalize_host u host)

-- candidate_q as a test of a stored domain, compared as it stands.
unfoldable pub candidate_by : MatchType → Text → Text → Bool
candidate_by exact val domain = text_eq domain val
candidate_by suffix val domain = text_eq domain val || ends_with domain (dot ∷ val)
candidate_by label val domain = text_eq domain val || starts_with domain (val ++ (dot ∷ []))

unfoldable pub candidate : CharTable → Rule → Text → Bool
unfolding candidate_by
candidate u r domain = candidate_by r.match_type (normalize_host u r.value) domain

abbrev pub keep_base : Text → Outcome ValidationError Text → Outcome ValidationError (Text × Text)
keep_base value (ok base) = ok (value, base)
keep_base value (raise e) = raise e

abbrev pub no_base : Outcome ValidationError Text → Outcome ValidationError (Text × Text)
no_base (ok value) = ok (value, [])
no_base (raise e) = raise e

abbrev pub then_base :
    CharTable → Text → Outcome ValidationError Text → Outcome ValidationError (Text × Text)
then_base u base (ok value) =
    if is_empty (strip u base) then ok (value, []) else keep_base value (validate_hostname u base)
then_base u base (raise e) = raise e

-- ReservedHostRule.normalize
unfoldable pub normalize_rule :
    CharTable → MatchType → Text → Text → Outcome ValidationError (Text × Text)
normalize_rule u label value base = then_base u base (validate_label u value)
normalize_rule u exact value base = no_base (validate_hostname u value)
normalize_rule u suffix value base = no_base (validate_hostname u value)

-- matching_rule, over the rows of the table in their order.
unfoldable pub matching_rule : CharTable → List Rule → Text → Option Rule
matching_rule u [] host = none
matching_rule u (r ∷ rules) host =
    let rest = matching_rule u rules host in
    if r.is_active && matches u r (normalize_host u host) then some r else rest

abbrev pub refuse_reserved : Text → Option Rule → Outcome ValidationError Text
refuse_reserved host none = ok host
refuse_reserved host (some r) = raise host_reserved

unfoldable pub check_tenant_domain :
    CharTable → List Text → List Rule → Text → Outcome ValidationError Text
check_tenant_domain u public rules host =
    if elem host public
    then raise host_public
    else refuse_reserved host (matching_rule u rules host)

abbrev pub then_check :
    CharTable → List Text → List Rule → Outcome ValidationError Text → Outcome ValidationError Text
then_check u public rules (ok host) = check_tenant_domain u public rules host
then_check u public rules (raise e) = raise e

-- `public` is what _public_hosts() reads.
unfoldable pub validate_tenant_domain :
    CharTable → List Text → List Rule → Text → Outcome ValidationError Text
unfolding check_tenant_domain
validate_tenant_domain u public rules v = then_check u public rules (validate_hostname u v)

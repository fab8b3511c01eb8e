-- ===== src/Validators/Host.antt =====
-- tenants/validators.py: hostnames, label by label.
pub mod Laws
use mt_shards_back_test.Base.{
  ℕ, Bool, true, false, not, ◌&&◌, ◌||◌, List, [], ◌∷◌, ltb, leb, ◌==◌, Text, all, length,
  if◌then◌else◌,
}
use mt_shards_back_test.Base.Chars.{
  CharTable, is_lower, is_digit, lower, strip, rstrip, is_empty, dot, split_dots,
}
use mt_shards_back_test.Base.Exec.{Outcome, ok, raise}
use mt_shards_back_test.Validators.Schema.{
  ValidationError, host_required, host_too_long, host_malformed, host_numeric, label_malformed,
}

abbrev pub hostname_max : ℕ
hostname_max = 253

abbrev pub is_ldh : ℕ → Bool
is_ldh c = is_lower c || (is_digit c || c == 45)

abbrev pub starts_hyphen : Text → Bool
starts_hyphen [] = false
starts_hyphen (c ∷ s) = c == 45

unfoldable pub ends_hyphen : Text → Bool
ends_hyphen [] = false
ends_hyphen (c ∷ s) = let rest = ends_hyphen s in if is_empty s then c == 45 else rest

-- _LABEL_RE.fullmatch, ^(?!-)[a-z0-9-]{1,63}(?<!-)$
unfoldable pub label_re : Text → Bool
label_re l =
    not (is_empty l)
    && (all is_ldh l && (leb (length l) 63 && (not (starts_hyphen l) && not (ends_hyphen l))))

unfoldable pub normalize_host : CharTable → Text → Text
normalize_host u v = rstrip (λ c. c == dot) (lower u (strip u v))

-- if host.endswith("."): host = host[:-1]
unfoldable pub chop_dot : Text → Text
chop_dot [] = []
chop_dot (c ∷ s) =
    let rest = chop_dot s in if is_empty s then (if c == dot then [] else c ∷ []) else c ∷ rest

-- labels[-1].isdigit(), for labels that matched _LABEL_RE
unfoldable pub last_numeric : List Text → Bool
last_numeric [] = false
last_numeric (l ∷ []) = all is_digit l
last_numeric (l ∷ m ∷ ls) = last_numeric (m ∷ ls)

unfoldable pub check_hostname : Text → Outcome ValidationError Text
check_hostname host =
    if is_empty host
    then raise host_required
    else if ltb hostname_max (length host)
    then raise host_too_long
    else if not (all label_re (split_dots host))
    then raise host_malformed
    else if last_numeric (split_dots host)
    then raise host_numeric
    else ok host

unfoldable pub validate_hostname : CharTable → Text → Outcome ValidationError Text
validate_hostname u v = check_hostname (chop_dot (lower u (strip u v)))

unfoldable pub validate_label : CharTable → Text → Outcome ValidationError Text
validate_label u v =
    let label = lower u (strip u v) in
    if not (label_re label) then raise label_malformed else ok label

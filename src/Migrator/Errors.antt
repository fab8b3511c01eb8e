-- ===== src/Migrator/Errors.antt =====
-- tenants/migrator.py, "Exception classification": exceptions as the chain of their links, and the
-- tests that decide whether one is a lost connection or a lock timeout.
pub mod Laws
use mt_shards_back_test.Base.{
  ℕ, Bool, true, false, ◌&&◌, ◌||◌, Option, none, some, List, [], ◌∷◌, Text, codes, text_eq,
  starts_with, elem, any, if◌then◌else◌,
}

-- What is read of one exception: its two possible SQLSTATE attributes, and whether it is an
-- instance of _CONN_ERROR_CLASSES.
pub record Link : Type 0 where
  pub sqlstate : Option Text
  pub pgcode : Option Text
  pub driver : Bool

-- An exception with its __cause__/__context__ links, in the order in which `_chain` yields them.
abbrev pub Chain : Type 0
Chain = List Link

abbrev pub truthy : Option Text → Bool
truthy none = false
truthy (some []) = false
truthy (some (c ∷ s)) = true

-- getattr(x, "sqlstate", None) or getattr(x, "pgcode", None)
unfoldable pub own_code : Link → Option Text
own_code x = if truthy x.sqlstate then x.sqlstate else x.pgcode

unfoldable pub sqlstate_of : Chain → Option Text
sqlstate_of [] = none
sqlstate_of (x ∷ rest) = if truthy (own_code x) then own_code x else sqlstate_of rest

abbrev pub conn_sqlstates : List Text
conn_sqlstates = codes "57P01" ∷ codes "57P02" ∷ codes "57P03" ∷ codes "57P05" ∷ codes "25P03" ∷ []

unfoldable pub is_conn_code : Text → Bool
is_conn_code code = starts_with code (codes "08") || elem code conn_sqlstates

-- The second test of the loop: a driver error whose code is absent or a connection code.
unfoldable pub driver_lost : Option Text → Bool
driver_lost none = true
driver_lost (some code) = is_conn_code code

unfoldable pub own_lost : Option Text → Bool
own_lost none = false
own_lost (some code) = truthy (some code) && is_conn_code code

unfoldable pub is_conn_error : Chain → Bool
is_conn_error [] = false
is_conn_error (x ∷ rest) =
    own_lost (own_code x)
    || ((x.driver && driver_lost (sqlstate_of (x ∷ rest))) || is_conn_error rest)

abbrev pub code_is : Text → Option Text → Bool
code_is c none = false
code_is c (some d) = text_eq d c

unfoldable pub is_lock_timeout : Chain → Bool
is_lock_timeout = any (λ x. code_is (codes "55P03") (own_code x))

-- What a statement of the migrator may raise. `interrupt` is a BaseException that is no Exception.
pub data Kind : Type 0 where
  tenant_missing shard_unavailable disappeared other : Kind
  incomplete : ℕ → Kind

pub data Exn : Type 0 where
  exc : Kind → Chain → Exn
  interrupt : Exn

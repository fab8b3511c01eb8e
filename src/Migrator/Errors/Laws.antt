-- ===== src/Migrator/Errors/Laws.antt =====
-- What the classification of exceptions guarantees along a chain.
use mt_shards_back_test.Base.{
  ◌≡◌, refl, true, false, some, [], ◌∷◌, Text, All, arith, Bool-cases, inl, inr,
}
use mt_shards_back_test.Migrator.Errors.{
  Link, Chain, truthy, own_code, sqlstate_of, is_conn_code, driver_lost, own_lost, is_conn_error,
}

-- A first code that is a connection code makes its whole chain a connection error.
pub first_code_lost :
    (e : Chain) (c : Text) → sqlstate_of e ≡ some c → is_conn_code c ≡ true → is_conn_error e ≡ true
unfolding sqlstate_of is_conn_error own_lost
first_code_lost [] c h k = ground arith
first_code_lost (x ∷ rest) c h k = elim (Bool-cases (truthy (own_code x))) [
  | inl y ↦ ground arith
  | inr n ↦ ground (arith, first_code_lost rest c)
]

-- Wrapping an exception that carries a code somewhere in a wrapper that carries none, whatever
-- its class, does not change the verdict.
pub is_conn_error-wrap :
    (x : Link) (e : Chain) (c : Text)
    → truthy (own_code x) ≡ false
    → sqlstate_of e ≡ some c
    → is_conn_error (x ∷ e) ≡ is_conn_error e
unfolding is_conn_error own_lost driver_lost sqlstate_of
is_conn_error-wrap x e c h k = ground (arith, first_code_lost e c)

-- `c` is a code that says something other than a lost connection.
abbrev pub IsOther : Link → Type 0
IsOther x = (truthy (own_code x) ≡ true) × (own_lost (own_code x) ≡ false)

-- An exception all of whose links carry codes of other errors is no connection error, driver
-- class or not.
pub is_conn_error-other : (e : Chain) → All IsOther e → is_conn_error e ≡ false
unfolding is_conn_error driver_lost sqlstate_of own_lost
is_conn_error-other [] h = refl
is_conn_error-other (x ∷ e) h = ground (arith, is_conn_error-other e h.1)

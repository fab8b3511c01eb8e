-- ===== src/Resolver/Store.antt =====
-- The cache backend behind CACHES["tenant_resolve"] (django-redis over Redis) as an interface: the
-- operations that the resolver calls, and what their documentation promises while Redis answers.
-- `get_many`, `set_many` and `delete_many` are over the same keys as `get`; a time to live of none
-- is no expiry, and one of 0 stores nothing lasting, so the laws exclude it. Expiry is a change of
-- the state between calls and appears in no law.
use mt_shards_back_test.Base.{
  ℕ, ◌≡◌, ◌≢◌, Bool, true, false, ◌&&◌, Option, none, some, List, [], ◌∷◌, Text, text_eq, elem,
  starts_with, is_none, if◌then◌else◌,
}
use mt_shards_back_test.Resolver.Snapshot.{Value}

-- The last value that a batch gives a key.
unfoldable pub batch_value : List (Text × Value) → Text → Option Value
batch_value [] k = none
batch_value ((j, v) ∷ b) k =
    let rest = batch_value b k in
    if is_none rest then (if text_eq j k then some v else none) else rest

abbrev pub or_else {ℓ} : {A : Type ℓ} → Option A → Option A → Option A
or_else none o = o
or_else (some a) o = some a

pub record Store : Type 1 where
  pub State : Type 0
  pub get : Text → State → Option Value
  -- set(key, value, ttl, nx=True): whether it was set
  pub set_nx : Text → Value → Option ℕ → State → Bool × State
  pub set_many : List (Text × Value) → Option ℕ → State → State
  pub delete_many : List Text → State → State
  -- delete_pattern(prefix*)
  pub delete_prefix : Text → State → State
  -- SCAN of the logical keys with a prefix, which may repeat a key
  pub scan : Text → State → List Text
  pub set_nx_flag :
      (k : Text) (v : Value) (ttl : Option ℕ) (s : State)
      → ttl ≢ some 0
      → (set_nx k v ttl s).0 ≡ is_none (get k s)
  pub get-set_nx :
      (k j : Text) (v : Value) (ttl : Option ℕ) (s : State)
      → ttl ≢ some 0
      → get j (set_nx k v ttl s).1 ≡ (if text_eq k j && is_none (get k s) then some v else get j s)
  pub get-set_many :
      (b : List (Text × Value)) (j : Text) (ttl : Option ℕ) (s : State)
      → ttl ≢ some 0
      → get j (set_many b ttl s) ≡ or_else (batch_value b j) (get j s)
  pub get-delete_many :
      (ks : List Text) (j : Text) (s : State)
      → get j (delete_many ks s) ≡ (if elem j ks then none else get j s)
  pub get-delete_prefix :
      (p j : Text) (s : State)
      → get j (delete_prefix p s) ≡ (if starts_with j p then none else get j s)
  pub mem-scan :
      (p k : Text) (s : State)
      → elem k (scan p s) ≡ (starts_with k p && (if is_none (get k s) then false else true))

-- ===== src/Tasks/Local.antt =====
-- tenants/celery/cache.py, SimpleCache: the cache of one worker process. `now` is what _now gives at
-- the call; all times are in seconds.
use mt_shards_back_test.Base.{
  ℕ, ◌+◌, ltb, leb, Option, none, some, Text, text_eq, length, if◌then◌else◌, List, [], ◌∷◌,
}

-- _CacheEntry under its key; a dict holds a key once.
pub record Entry (V : Type 0) : Type 0 where
  pub key : Text
  pub value : V
  pub expires_at : ℕ

abbrev pub purge_at : ℕ
purge_at = 1024

module _ {V : Type 0} where
  unfoldable pub find : Text → List (Entry V) → Option (Entry V)
  find key [] = none
  find key (e ∷ es) = if text_eq e.key key then some e else find key es

  unfoldable pub pop : Text → List (Entry V) → List (Entry V)
  pop key [] = []
  pop key (e ∷ es) = let rest = pop key es in if text_eq e.key key then rest else e ∷ rest

  abbrev pub found : Text → ℕ → List (Entry V) → Option (Entry V) → Option V × List (Entry V)
  found key now items none = (none, items)
  found key now items (some e) =
      if ltb e.expires_at now then (none, pop key items) else (some e.value, items)

  -- get, with the evicted store
  unfoldable pub get : Text → ℕ → List (Entry V) → Option V × List (Entry V)
  unfolding find pop
  get key now items = found key now items (find key items)

  unfoldable pub purge : ℕ → List (Entry V) → List (Entry V)
  purge now [] = []
  purge now (e ∷ es) = let rest = purge now es in if ltb e.expires_at now then rest else e ∷ rest

  unfoldable pub set : Text → V → ℕ → ℕ → List (Entry V) → List (Entry V)
  unfolding purge pop
  set key value expire_seconds now items =
      let kept = if leb purge_at (length items) then purge now items else items in
      record { key = key; value = value; expires_at = now + expire_seconds } ∷ pop key kept

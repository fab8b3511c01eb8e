-- ===== src/Resolver/Batch.antt =====
-- tenants/resolver/cache.py: put_many and put_schema_many, over `_put_many_by_ttl`, which writes one
-- batch for each time to live. A dict is the list of its items, in the order of their keys.
pub mod Laws
use mt_shards_back_test.Base.{
  ℕ, ◌+◌, Bool, true, false, not, ◌&&◌, Option, none, some, List, [], ◌∷◌, Text, text_eq, ◌==◌,
  if◌then◌else◌, length,
}
use mt_shards_back_test.Resolver.Snapshot.{Source, capture, dump, Value, payload}
use mt_shards_back_test.Resolver.Store.{Store}
use mt_shards_back_test.Resolver.Cache.{Config, ttl_for, nonzero, snap_key, schema_snap_key}

abbrev pub Items : Type 0
Items = List (Text × Value)

-- `dict[key] = value`
unfoldable pub set_item : Text → Value → Items → Items
set_item k v [] = (k, v) ∷ []
set_item k v (i ∷ is) =
    let rest = set_item k v is in if text_eq k i.0 then (i.0, v) ∷ is else i ∷ rest

abbrev pub ttl_eq : Option ℕ → Option ℕ → Bool
ttl_eq none none = true
ttl_eq none (some n) = false
ttl_eq (some m) none = false
ttl_eq (some m) (some n) = m == n

abbrev pub Groups : Type 0
Groups = List (Option ℕ × Items)

-- `by_ttl.setdefault(ttl, {})[key] = value`
unfoldable pub add_item : Option ℕ → Text → Value → Groups → Groups
unfolding set_item
add_item ttl k v [] = (ttl, (k, v) ∷ []) ∷ []
add_item ttl k v (g ∷ gs) =
    let rest = add_item ttl k v gs in
    if ttl_eq ttl g.0 then (g.0, set_item k v g.1) ∷ gs else g ∷ rest

abbrev pub Keyed : Type 0
Keyed = List (Text × Source)

unfoldable pub grouped : Config → Keyed → Groups → Groups
unfolding add_item
grouped cfg [] gs = gs
grouped cfg (x ∷ xs) gs = grouped cfg xs (add_item (ttl_for cfg x.1) x.0 (payload (dump x.1)) gs)

unfoldable pub by_host : Keyed → Keyed
by_host [] = []
by_host (x ∷ xs) = (snap_key x.0, x.1) ∷ by_host xs

unfoldable pub by_schema : List Source → Keyed
by_schema [] = []
by_schema (t ∷ ts) = (schema_snap_key (capture t).schema_name, t) ∷ by_schema ts

module _ (σ : Store) where
  open σ use {State, set_many}

  unfoldable pub write_groups : Groups → State → ℕ × State
  write_groups [] s = (0, s)
  write_groups (g ∷ gs) s =
      let (n, s') = write_groups gs (set_many g.1 g.0 s) in (length g.1 + n, s')

  -- _put_many_by_ttl: how many were written, and the store.
  unfoldable pub put_many_by_ttl : Config → Keyed → State → ℕ × State
  unfolding grouped write_groups
  put_many_by_ttl cfg xs s =
      if not cfg.warm && not (nonzero cfg.pos_ttl)
      then (0, s)
      else write_groups (grouped cfg xs []) s

  unfoldable pub put_many : Config → List (Text × Source) → State → ℕ × State
  unfolding put_many_by_ttl by_host
  put_many cfg xs s = put_many_by_ttl cfg (by_host xs) s

  unfoldable pub put_schema_many : Config → List Source → State → ℕ × State
  unfolding put_many_by_ttl by_schema
  put_schema_many cfg ts s = put_many_by_ttl cfg (by_schema ts) s

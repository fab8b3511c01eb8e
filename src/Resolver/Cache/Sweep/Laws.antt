-- ===== src/Resolver/Cache/Sweep/Laws.antt =====
-- What the orphan sweep leaves in the cache (tenants/resolver/cache.py).
use mt_shards_back_test.Base.{
  ℕ, ◌≡◌, refl, ap, ◌∙◌, Bool, true, false, not, ◌&&◌, ◌||◌, Option, none, some, List, [], ◌∷◌,
  ◌++◌, map, leb, Text, codes, text_eq, text_eq_refl, text_eq_iff, elem, length, starts_with,
  starts_with-append, is_none, if◌then◌else◌, arith, inl, inr, Bool-cases,
}
use mt_shards_back_test.Resolver.Store.{Store}
use mt_shards_back_test.Resolver.Snapshot.{Value, payload, negative, tombstone, corrupt}
use mt_shards_back_test.Resolver.Cache.{snap_key, schema_snap_key, is_positive}
use mt_shards_back_test.Resolver.Cache.Keys.{
  elem-append, elem-map-snap_key, elem-map-schema_key, elem-schema_key-hosts, elem-snap_key-schemas,
}
use mt_shards_back_test.Resolver.Cache.Sweep.{
  drop, select, distinct, orphans, delete_found, sweep_batch, sweep_namespace, sweep_orphans,
  iter_snapshot_hosts, iter_snapshot_schemas,
}

-- A value after a sweep that reaches it or not.
abbrev pub swept : Bool → Option Value → Option Value
swept c v = if c && is_positive v then none else v

swept-none : (c : Bool) → swept c none ≡ none
swept-none true = refl
swept-none false = refl

swept_twice : (a b : Bool) (v : Option Value) → swept b (swept a v) ≡ swept (a || b) v
swept_twice false b v = refl
swept_twice true b none = swept-none b
swept_twice true b (some (payload p)) = swept-none b
swept_twice true true (some negative) = refl
swept_twice true false (some negative) = refl
swept_twice true true (some tombstone) = refl
swept_twice true false (some tombstone) = refl
swept_twice true true (some corrupt) = refl
swept_twice true false (some corrupt) = refl

elem-select :
    (p : Text → Bool) (j : Text) (xs : List Text) → elem j (select p xs) ≡ (p j && elem j xs)
unfolding select elem
elem-select p j [] = ground arith
elem-select p j (x ∷ xs) = elim (Bool-cases (text_eq x j)) [
  | inl e ↦ ground (arith, elem-select p j xs, ap p ((text_eq_iff x j).0 e))
  | inr e ↦ ground (arith, elem-select p j xs)
]

elem-distinct : (j : Text) (xs : List Text) → elem j (distinct xs) ≡ elem j xs
unfolding distinct elem
elem-distinct j [] = refl
elem-distinct j (x ∷ xs) =
    ground (arith, elem-select (λ y. not (text_eq x y)) j (distinct xs), elem-distinct j xs)

map-append : (f : Text → Text) (xs ys : List Text) → map f (xs ++ ys) ≡ map f xs ++ map f ys
map-append f [] ys = refl
map-append f (x ∷ xs) ys = ap (◌∷◌ (f x)) (map-append f xs ys)

drop_lem :
    (p x h : Text) → starts_with x p ≡ true → text_eq (drop (length p) x) h ≡ text_eq x (p ++ h)
unfolding starts_with text_eq
drop_lem [] [] h e = refl
drop_lem [] (d ∷ x) h e = refl
drop_lem (c ∷ p) [] h e = ground arith
drop_lem (c ∷ p) (d ∷ x) h e = ground (arith, drop_lem p x h)

-- When every key has the prefix, the names are the keys without it.
elem-map-drop :
    (p h : Text) (xs : List Text)
    → ((k : Text) → elem k xs ≡ true → starts_with k p ≡ true)
    → elem h (map (drop (length p)) xs) ≡ elem (p ++ h) xs
unfolding elem
elem-map-drop p h [] all_p = refl
elem-map-drop p h (x ∷ xs) all_p =
    let head = drop_lem p x h (all_p x (rw (text_eq_refl x) refl)) in
    let tail = elem-map-drop p h xs (λ k m. all_p k (ground arith)) in ground arith

module _ (σ : Store) where
  open σ use {State, get, get-delete_many, scan, mem-scan}

  elem-orphans :
      (key : Text → Text) (names : List Text) (j : Text) (s : State)
      → elem j (orphans σ key names s) ≡ (is_positive (get j s) && elem j (map key names))
  unfolding orphans
  elem-orphans key names j s =
      elem-select (λ k. is_positive (get k s)) j (distinct (map key names))
      ∙ ap (λ b. is_positive (get j s) && b) (elem-distinct j (map key names))

  get-delete_found :
      (ks : List Text) (j : Text) (s : State)
      → get j (delete_found σ ks s) ≡ (if elem j ks then none else get j s)
  unfolding delete_found elem
  get-delete_found [] j s = refl
  get-delete_found (k ∷ ks) j s = get-delete_many (k ∷ ks) j s

  get-sweep_batch :
      (key : Text → Text) (names : List Text) (j : Text) (s : State)
      → get j (sweep_batch σ key names s).1 ≡ swept (elem j (map key names)) (get j s)
  unfolding sweep_batch elem
  get-sweep_batch key [] j s = refl
  get-sweep_batch key (n ∷ names) j s =
      let found = orphans σ key (n ∷ names) s in
      ground (arith, get-delete_found found j s, elem-orphans key (n ∷ names) j s)

  abbrev stale : List Text → List Text → List Text
  stale valid names = select (λ n. not (elem n valid)) names

  reached :
      (key : Text → Text) (batch : List Text) (name j : Text)
      → elem j (map key (batch ++ (name ∷ []))) ≡ (elem j (map key batch) || text_eq (key name) j)
  unfolding elem
  reached key batch name j =
      ap (elem j) (map-append key batch (name ∷ []))
      ∙ ground (arith, elem-append j (map key batch) (key name ∷ []))

  get-sweep_namespace :
      (size : ℕ) (valid : List Text) (key : Text → Text) (names batch : List Text) (j : Text)
      (s : State)
      → get j (sweep_namespace σ size valid key names batch s).1
        ≡ swept (elem j (map key batch) || elem j (map key (stale valid names))) (get j s)
  unfolding sweep_namespace select elem
  get-sweep_namespace size valid key [] batch j s = ground (arith, get-sweep_batch key batch j s)
  get-sweep_namespace size valid key (name ∷ names) batch j s =
      elim (Bool-cases (elem name valid)) [
        | inl e ↦ rw (e, sweep_namespace) (get-sweep_namespace size valid key names batch j s)
        | inr e ↦
            let full = batch ++ (name ∷ []) in
            elim (Bool-cases (leb size (length full))) [
              | inl l ↦
                  let s' = (sweep_batch σ key full s).1 in
                  let rest = elem j (map key (stale valid names)) in
                  rw (e, l, sweep_namespace)
                    (get-sweep_namespace size valid key names [] j s'
                      ∙ ap (swept rest) (get-sweep_batch key full j s)
                      ∙ swept_twice (elem j (map key full)) rest (get j s)
                      ∙ ground (arith, reached key batch name j))
              | inr l ↦
                  rw (e, l, sweep_namespace)
                    (get-sweep_namespace size valid key names full j s
                      ∙ ground (arith, reached key batch name j))
            ]
      ]

  scanned :
      (p h : Text) (s : State)
      → elem h (map (drop (length p)) (scan p s))
        ≡ (if is_none (get (p ++ h) s) then false else true)
  scanned p h s =
      elem-map-drop p h (scan p s) (λ k m. ground (arith, mem-scan p k s))
      ∙ mem-scan p (p ++ h) s
      ∙ rw (starts_with-append p h) refl

  -- A sweep over a name of the namespace, whether or not the scan found it.
  swept_scan :
      (p h : Text) (valid : List Text) (s : State)
      → swept (elem h (stale valid (map (drop (length p)) (scan p s)))) (get (p ++ h) s)
        ≡ swept (not (elem h valid)) (get (p ++ h) s)
  swept_scan p h valid s = ground (
    arith,
    elem-select (λ n. not (elem n valid)) h (map (drop (length p)) (scan p s)),
    scanned p h s,
  )

  swept_hosts :
      (valid : List Text) (h : Text) (s : State)
      → swept (elem h (stale valid (iter_snapshot_hosts σ s))) (get (snap_key h) s)
        ≡ swept (not (elem h valid)) (get (snap_key h) s)
  unfolding iter_snapshot_hosts snap_key
  swept_hosts valid h s = swept_scan (codes "host-snap:") h valid s

  swept_schemas :
      (valid : List Text) (h : Text) (s : State)
      → swept (elem h (stale valid (iter_snapshot_schemas σ s))) (get (schema_snap_key h) s)
        ≡ swept (not (elem h valid)) (get (schema_snap_key h) s)
  unfolding iter_snapshot_schemas schema_snap_key
  swept_schemas valid h s = swept_scan (codes "schema-snap:") h valid s

  -- After a sweep, whatever the size of its batches, a host that the database does not know reads
  -- no positive snapshot any more and a schema that it does not know neither: exactly the keys of the
  -- two namespaces that hold a positive snapshot of a name that is not valid are gone, and every
  -- other key of the namespaces holds what it held.
  pub sweep_orphans_lem :
      (size : ℕ) (hosts schemas : List Text) (h : Text) (s : State)
      → (get (snap_key h) (sweep_orphans σ size hosts schemas s).1
          ≡ swept (not (elem h hosts)) (get (snap_key h) s))
        × (get (schema_snap_key h) (sweep_orphans σ size hosts schemas s).1
            ≡ swept (not (elem h schemas)) (get (schema_snap_key h) s))
  unfolding sweep_orphans elem
  sweep_orphans_lem size hosts schemas h s =
      let names = iter_snapshot_hosts σ s in
      let s' = (sweep_namespace σ size hosts snap_key names [] s).1 in
      let names' = iter_snapshot_schemas σ s' in
      (
        get-sweep_namespace size schemas schema_snap_key names' [] (snap_key h) s'
            ∙ rw (elem-snap_key-schemas h (stale schemas names')) (
                get-sweep_namespace size hosts snap_key names [] (snap_key h) s
                ∙ rw (elem-map-snap_key h (stale hosts names)) (swept_hosts hosts h s)),
        get-sweep_namespace size schemas schema_snap_key names' [] (schema_snap_key h) s'
            ∙ rw (elem-map-schema_key h (stale schemas names')) (
                swept_schemas schemas h s'
                ∙ ap (swept (not (elem h schemas))) (
                    get-sweep_namespace size hosts snap_key names [] (schema_snap_key h) s
                    ∙ rw (elem-schema_key-hosts h (stale hosts names)) refl)),
      )

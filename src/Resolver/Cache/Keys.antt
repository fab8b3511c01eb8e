-- ===== src/Resolver/Cache/Keys.antt =====
-- The keys of the two snapshot namespaces of tenants/resolver/cache.py.
use mt_shards_back_test.Base.{
  ◌≡◌, refl, false, List, [], ◌∷◌, ◌++◌, map, Text, codes, text_eq, text_eq_iff, text_eq_refl, elem,
  append_cancel_left, arith, ◌||◌,
}
use mt_shards_back_test.Resolver.Cache.{snap_key, schema_snap_key}

pub text_eq_sym : (s t : Text) → text_eq s t ≡ false → text_eq t s ≡ false
text_eq_sym s t h = ground (arith, text_eq_iff s t, text_eq_iff t s, text_eq_refl s)

pub snap_key_inj : (g h : Text) → snap_key g ≡ snap_key h → g ≡ h
unfolding snap_key
snap_key_inj g h = append_cancel_left (codes "host-snap:") g h

pub schema_snap_key_inj : (g h : Text) → schema_snap_key g ≡ schema_snap_key h → g ≡ h
unfolding schema_snap_key
schema_snap_key_inj g h = append_cancel_left (codes "schema-snap:") g h

-- No host key is a schema key.
pub keys_differ : (h s : Text) → text_eq (snap_key h) (schema_snap_key s) ≡ false
unfolding snap_key schema_snap_key text_eq
keys_differ h s = refl

pub keys_differ' : (h s : Text) → text_eq (schema_snap_key s) (snap_key h) ≡ false
unfolding snap_key schema_snap_key text_eq
keys_differ' h s = refl

pub snap_key-eq : (g h : Text) → text_eq (snap_key g) (snap_key h) ≡ text_eq g h
unfolding snap_key text_eq
snap_key-eq g h = refl

pub schema_snap_key-eq :
    (g h : Text) → text_eq (schema_snap_key g) (schema_snap_key h) ≡ text_eq g h
unfolding schema_snap_key text_eq
schema_snap_key-eq g h = refl

pub elem-append : (k : Text) (xs ys : List Text) → elem k (xs ++ ys) ≡ (elem k xs || elem k ys)
unfolding elem
elem-append k [] ys = refl
elem-append k (x ∷ xs) ys = ground (arith, elem-append k xs ys)

pub elem-map-snap_key :
    (h : Text) (hs : List Text) → elem (snap_key h) (map snap_key hs) ≡ elem h hs
unfolding elem
elem-map-snap_key h [] = refl
elem-map-snap_key h (g ∷ hs) = ground (arith, elem-map-snap_key h hs, snap_key-eq g h)

pub elem-map-schema_key :
    (h : Text) (hs : List Text) → elem (schema_snap_key h) (map schema_snap_key hs) ≡ elem h hs
unfolding elem
elem-map-schema_key h [] = refl
elem-map-schema_key h (g ∷ hs) = ground (arith, elem-map-schema_key h hs, schema_snap_key-eq g h)

pub elem-schema_key-hosts :
    (s : Text) (hs : List Text) → elem (schema_snap_key s) (map snap_key hs) ≡ false
unfolding elem
elem-schema_key-hosts s [] = refl
elem-schema_key-hosts s (g ∷ hs) = ground (arith, elem-schema_key-hosts s hs, keys_differ g s)

pub elem-snap_key-schemas :
    (h : Text) (ss : List Text) → elem (snap_key h) (map schema_snap_key ss) ≡ false
unfolding elem
elem-snap_key-schemas h [] = refl
elem-snap_key-schemas h (g ∷ ss) = ground (arith, elem-snap_key-schemas h ss, keys_differ' h g)

-- ===== src/Tests/Backend.antt =====
-- A backend that meets the interface of Resolver/Store.antt: an association list without expiry.
use mt_shards_back_test.Base.{
  ◌≡◌, refl, Bool, true, false, ◌&&◌, Option, none, some, List, [], ◌∷◌, Text, text_eq, text_eq_iff,
  elem, starts_with, is_none, if◌then◌else◌, arith, Bool-cases, inl, inr, ap,
}
use mt_shards_back_test.Resolver.Snapshot.{Value}
use mt_shards_back_test.Resolver.Store.{Store, batch_value, or_else}

abbrev pub Table : Type 0
Table = List (Text × Value)

unfoldable pub find : Text → Table → Option Value
find k [] = none
find k ((j, v) ∷ t) = if text_eq j k then some v else find k t

-- The rows whose keys fail a test.
unfoldable pub spare : (Text → Bool) → Table → Table
spare p [] = []
spare p ((j, v) ∷ t) = let rest = spare p t in if p j then rest else (j, v) ∷ rest

unfoldable pub keys : Text → Table → List Text
keys p [] = []
keys p ((j, v) ∷ t) = let rest = keys p t in if starts_with j p then j ∷ rest else rest

abbrev pub insert_absent : Bool → Text → Value → Table → Table
insert_absent true k v t = (k, v) ∷ t
insert_absent false k v t = t

abbrev pub prepend : List (Text × Value) → Table → Table
prepend [] t = t
prepend ((k, v) ∷ b) t = prepend b ((k, v) ∷ t)

pub find-insert_absent :
    (k j : Text) (v : Value) (t : Table)
    → find j (insert_absent (is_none (find k t)) k v t)
      ≡ (if text_eq k j && is_none (find k t) then some v else find j t)
unfolding find
find-insert_absent k j v t = elim (Bool-cases (is_none (find k t))) [
  | inl y ↦ rw y (ground arith)
  | inr n ↦ rw n (ground arith)
]

pub find-prepend :
    (b : List (Text × Value)) (j : Text) (t : Table)
    → find j (prepend b t) ≡ or_else (batch_value b j) (find j t)
unfolding find batch_value
find-prepend [] j t = refl
find-prepend ((k, v) ∷ b) j t = ground (arith, find-prepend b j ((k, v) ∷ t))

pub find-spare :
    (p : Text → Bool) (j : Text) (t : Table) → find j (spare p t) ≡ (if p j then none else find j t)
unfolding find spare
find-spare p j [] = ground arith
find-spare p j ((k, v) ∷ t) = elim (Bool-cases (text_eq k j)) [
  | inl y ↦ ground (arith, find-spare p j t, ap p ((text_eq_iff k j).0 y))
  | inr n ↦ ground (arith, find-spare p j t)
]

pub elem-keys :
    (p k : Text) (t : Table)
    → elem k (keys p t) ≡ (starts_with k p && (if is_none (find k t) then false else true))
unfolding find keys elem
elem-keys p k [] = ground arith
elem-keys p k ((j, v) ∷ t) = elim (Bool-cases (text_eq j k)) [
  | inl y ↦ ground (arith, elem-keys p k t, ap (λ x. starts_with x p) ((text_eq_iff j k).0 y))
  | inr n ↦ ground (arith, elem-keys p k t)
]

abbrev pub table : Store
table = record {
  State = Table;
  get = find;
  set_nx = λ k v ttl t. (is_none (find k t), insert_absent (is_none (find k t)) k v t);
  set_many = λ b ttl t. prepend b t;
  delete_many = λ ks t. spare (λ j. elem j ks) t;
  delete_prefix = λ p t. spare (λ j. starts_with j p) t;
  scan = keys;
  set_nx_flag = λ k v ttl t h. refl;
  get-set_nx = λ k j v ttl t h. find-insert_absent k j v t;
  get-set_many = λ b j ttl t h. find-prepend b j t;
  get-delete_many = λ ks j t. find-spare (λ x. elem x ks) j t;
  get-delete_prefix = λ p j t. find-spare (λ x. starts_with x p) j t;
  mem-scan = elem-keys;
}

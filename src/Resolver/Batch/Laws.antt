-- ===== src/Resolver/Batch/Laws.antt =====
-- What a batch leaves in the cache, however its items fall into groups.
use mt_shards_back_test.Base.{
  ℕ, ◌≡◌, ◌≢◌, refl, ap, sym, ◌∙◌, Bool, false, not, ◌&&◌, ◌||◌, Option, none, some, [], ◌∷◌, Text,
  text_eq, text_eq_iff, text_eq_refl, if◌then◌else◌, inl, inr, Bool-cases, Option-cases, All, arith,
}
use mt_shards_back_test.Resolver.Snapshot.{dump, Value, payload}
use mt_shards_back_test.Resolver.Store.{Store, batch_value, or_else}
use mt_shards_back_test.Resolver.Cache.{Config, ttl_for, nonzero}
use mt_shards_back_test.Resolver.Batch.{
  Items, set_item, ttl_eq, Groups, add_item, Keyed, grouped, write_groups, put_many_by_ttl,
}

-- The value that the groups give a key: a later group writes over an earlier one.
unfoldable pub group_value : Groups → Text → Option Value
unfolding batch_value
group_value [] j = none
group_value (g ∷ gs) j = or_else (group_value gs j) (batch_value g.1 j)

or_none : {A : Type 0} (o p : Option A) → or_else o p ≡ none → (o ≡ none) × (p ≡ none)
or_none none p h = (refl, h)
or_none (some a) p h = absurd (ground arith)

batch_value-cons :
    (i : Text × Value) (is : Items) (j : Text)
    → batch_value (i ∷ is) j ≡ or_else (batch_value is j) (if text_eq i.0 j then some i.1 else none)
unfolding batch_value
batch_value-cons i is j = elim (Option-cases (batch_value is j)) [
  | inl e ↦ rw e refl
  | inr (v, e) ↦ rw e refl
]

batch_nil : (j : Text) → batch_value [] j ≡ none
unfolding batch_value
batch_nil j = refl

-- A key that is not in the dict is added to it.
batch_value-set_item :
    (k j : Text) (v : Value) (is : Items)
    → batch_value is k ≡ none
    → batch_value (set_item k v is) j ≡ (if text_eq k j then some v else batch_value is j)
unfolding set_item
batch_value-set_item k j v [] h = batch_value-cons (k, v) [] j ∙ rw (batch_nil j) (ground arith)
batch_value-set_item k j v (i ∷ is) h =
    let (absent, apart) = or_none (batch_value is k) _ (sym (batch_value-cons i is k) ∙ h) in
    elim (Bool-cases (text_eq k i.0)) [
      | inl e ↦
          absurd (ground (arith, (text_eq_iff k i.0).0 e, apart, text_eq_refl k, text_eq_iff i.0 k))
      | inr n ↦ rw n (
          batch_value-cons i (set_item k v is) j
          ∙ rw (batch_value-set_item k j v is absent, batch_value-cons i is j) (ground arith))
    ]

group_value-add_item :
    (ttl : Option ℕ) (k j : Text) (v : Value) (gs : Groups)
    → group_value gs k ≡ none
    → group_value (add_item ttl k v gs) j ≡ (if text_eq k j then some v else group_value gs j)
unfolding group_value add_item
group_value-add_item ttl k j v [] h = batch_value-cons (k, v) [] j
group_value-add_item ttl k j v (g ∷ gs) h =
    let (later, here) = or_none (group_value gs k) (batch_value g.1 k) h in
    elim (Bool-cases (ttl_eq ttl g.0)) [
      | inl e ↦ rw e (
          rw (batch_value-set_item k j v g.1 here) (elim (Bool-cases (text_eq k j)) [
            | inl t ↦ rw t (rw (← (text_eq_iff k j).0 t) (rw later refl))
            | inr t ↦ rw t refl
          ]))
      | inr n ↦ rw n (rw (group_value-add_item ttl k j v gs later) (ground arith))
    ]

-- What the items of a batch give a key.
unfoldable pub keyed_value : Keyed → Text → Option Value
keyed_value [] j = none
keyed_value (x ∷ xs) j =
    or_else (keyed_value xs j) (if text_eq x.0 j then some (payload (dump x.1)) else none)

-- Distinct keys.
unfoldable pub key_in : Text → Keyed → Bool
key_in k [] = false
key_in k (x ∷ xs) = text_eq k x.0 || key_in k xs

abbrev pub Distinct : Keyed → Type 0
Distinct [] = Unit {0}
Distinct (x ∷ xs) = (key_in x.0 xs ≡ false) × Distinct xs

-- No key of the list is in the groups.
abbrev pub Fresh : Groups → Keyed → Type 0
Fresh gs [] = Unit {0}
Fresh gs (x ∷ xs) = (group_value gs x.0 ≡ none) × Fresh gs xs

Fresh-add_item :
    (ttl : Option ℕ) (k : Text) (v : Value) (gs : Groups) (xs : Keyed)
    → group_value gs k ≡ none
    → key_in k xs ≡ false
    → Fresh gs xs
    → Fresh (add_item ttl k v gs) xs
unfolding key_in
Fresh-add_item ttl k v gs [] h n f = tt
Fresh-add_item ttl k v gs (x ∷ xs) h n f = (
  group_value-add_item ttl k x.0 v gs h ∙ ground (arith, n, f.0),
  Fresh-add_item ttl k v gs xs h (ground (arith, n)) f.1,
)

group_value-grouped :
    (cfg : Config) (xs : Keyed) (gs : Groups) (j : Text)
    → Distinct xs
    → Fresh gs xs
    → group_value (grouped cfg xs gs) j ≡ or_else (keyed_value xs j) (group_value gs j)
unfolding grouped keyed_value
group_value-grouped cfg [] gs j d f = refl
group_value-grouped cfg (x ∷ xs) gs j d f =
    let v = payload (dump x.1) in
    group_value-grouped cfg xs (add_item (ttl_for cfg x.1) x.0 v gs) j d.1
      (Fresh-add_item (ttl_for cfg x.1) x.0 v gs xs f.0 d.0 f.1)
    ∙ rw (group_value-add_item (ttl_for cfg x.1) x.0 j v gs f.0) (ground arith)

abbrev pub Lasting : Config → Keyed → Type 0
Lasting cfg = All (λ x. ttl_for cfg x.1 ≢ some 0)

abbrev GroupsLast : Groups → Type 0
GroupsLast = All (λ g. g.0 ≢ some 0)

add_item-GroupsLast :
    (ttl : Option ℕ) (k : Text) (v : Value) (gs : Groups)
    → ttl ≢ some 0
    → GroupsLast gs
    → GroupsLast (add_item ttl k v gs)
unfolding add_item
add_item-GroupsLast ttl k v [] h l = (h, tt)
add_item-GroupsLast ttl k v (g ∷ gs) h l = elim (Bool-cases (ttl_eq ttl g.0)) [
  | inl e ↦ rw e l
  | inr n ↦ rw n (l.0, add_item-GroupsLast ttl k v gs h l.1)
]

grouped-GroupsLast :
    (cfg : Config) (xs : Keyed) (gs : Groups)
    → Lasting cfg xs
    → GroupsLast gs
    → GroupsLast (grouped cfg xs gs)
unfolding grouped
grouped-GroupsLast cfg [] gs l g = g
grouped-GroupsLast cfg (x ∷ xs) gs l g =
    grouped-GroupsLast cfg xs _ l.1
      (add_item-GroupsLast (ttl_for cfg x.1) x.0 (payload (dump x.1)) gs l.0 g)

pub or_else-none : {A : Type 0} (o : Option A) → or_else o none ≡ o
or_else-none none = refl
or_else-none (some a) = refl

pub or_else_assoc :
    {A : Type 0} (o p q : Option A) → or_else o (or_else p q) ≡ or_else (or_else o p) q
or_else_assoc none p q = refl
or_else_assoc (some a) p q = refl

-- A key that no item has.
set_item-other :
    (k j : Text) (v : Value) (is : Items)
    → text_eq k j ≡ false
    → batch_value (set_item k v is) j ≡ batch_value is j
unfolding set_item
set_item-other k j v [] n = batch_value-cons (k, v) [] j ∙ rw (batch_nil j, n) refl
set_item-other k j v (i ∷ is) n = elim (Bool-cases (text_eq k i.0)) [
  | inl e ↦
      let apart : text_eq i.0 j ≡ false = rw (← (text_eq_iff k i.0).0 e) n in
      rw e (batch_value-cons (i.0, v) is j ∙ rw (batch_value-cons i is j, apart) refl)
  | inr m ↦ rw m (
      batch_value-cons i (set_item k v is) j
      ∙ rw (batch_value-cons i is j, set_item-other k j v is n) refl)
]

add_item-other :
    (ttl : Option ℕ) (k j : Text) (v : Value) (gs : Groups)
    → text_eq k j ≡ false
    → group_value (add_item ttl k v gs) j ≡ group_value gs j
unfolding group_value add_item
add_item-other ttl k j v [] n = batch_value-cons (k, v) [] j ∙ rw (batch_nil j, n) refl
add_item-other ttl k j v (g ∷ gs) n = elim (Bool-cases (ttl_eq ttl g.0)) [
  | inl e ↦ rw e (ap (or_else (group_value gs j)) (set_item-other k j v g.1 n))
  | inr m ↦ rw m (ap (λ o. or_else o (batch_value g.1 j)) (add_item-other ttl k j v gs n))
]

abbrev pub Apart : Text → Keyed → Type 0
Apart j = All (λ x. text_eq x.0 j ≡ false)

grouped-other :
    (cfg : Config) (xs : Keyed) (gs : Groups) (j : Text)
    → Apart j xs
    → group_value (grouped cfg xs gs) j ≡ group_value gs j
unfolding grouped
grouped-other cfg [] gs j a = refl
grouped-other cfg (x ∷ xs) gs j a =
    grouped-other cfg xs _ j a.1
    ∙ add_item-other (ttl_for cfg x.1) x.0 j (payload (dump x.1)) gs a.0

module _ (σ : Store) where
  open σ use {State, get, set_many, get-set_many}

  get-write_groups :
      (gs : Groups) (j : Text) (s : State)
      → GroupsLast gs
      → get j (write_groups σ gs s).1 ≡ or_else (group_value gs j) (get j s)
  unfolding write_groups group_value
  get-write_groups [] j s l = refl
  get-write_groups (g ∷ gs) j s l =
      get-write_groups gs j (set_many g.1 g.0 s) l.1
      ∙ rw (get-set_many g.1 j g.0 s l.0)
          (or_else_assoc (group_value gs j) (batch_value g.1 j) (get j s))

  -- A batch of distinct keys gives each of them its snapshot, and leaves every other key alone.
  pub get-put_many_by_ttl :
      (cfg : Config) (xs : Keyed) (j : Text) (s : State)
      → not cfg.warm && not (nonzero cfg.pos_ttl) ≡ false
      → Distinct xs
      → Lasting cfg xs
      → get j (put_many_by_ttl σ cfg xs s).1 ≡ or_else (keyed_value xs j) (get j s)
  unfolding put_many_by_ttl group_value
  get-put_many_by_ttl cfg xs j s on d l = rw on (
      get-write_groups (grouped cfg xs []) j s (grouped-GroupsLast cfg xs [] l tt)
      ∙ rw (group_value-grouped cfg xs [] j d (fresh xs))
          (ap (λ o. or_else o (get j s)) (or_else-none (keyed_value xs j))))
    where
      fresh : (ys : Keyed) → Fresh [] ys
      fresh [] = tt
      fresh (y ∷ ys) = (refl, fresh ys)

  pub put_many_by_ttl-other :
      (cfg : Config) (xs : Keyed) (j : Text) (s : State)
      → Apart j xs
      → Lasting cfg xs
      → get j (put_many_by_ttl σ cfg xs s).1 ≡ get j s
  unfolding put_many_by_ttl group_value
  put_many_by_ttl-other cfg xs j s a l =
      elim (Bool-cases (not cfg.warm && not (nonzero cfg.pos_ttl))) [
        | inl e ↦ rw e refl
        | inr n ↦ rw n (
            get-write_groups (grouped cfg xs []) j s (grouped-GroupsLast cfg xs [] l tt)
            ∙ rw (grouped-other cfg xs [] j a) refl)
      ]

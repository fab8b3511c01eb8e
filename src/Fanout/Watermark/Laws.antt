-- ===== src/Fanout/Watermark/Laws.antt =====
-- What load_map reads of a watermark, and what each statement of mark_ran does to one.
use mt_shards_back_test.Base.{
  ℕ, ◌≡◌, refl, sym, ap, ◌∙◌, Bool, true, false, ◌&&◌, ◌||◌, Option, none, some, Text, text_eq,
  text_eq_iff, text_eq_refl, elem, ltb, is_some, &&-eq-true, if◌then◌else◌, List, [], ◌∷◌, arith,
  Bool-cases, inl, inr,
}
use mt_shards_back_test.Fanout.Watermark.{
  Entry, TaskRun, entry_eq, is_of, watermark, bulk_create, advance, mark_ran, load_map, get,
}

abbrev pub max : ℕ → ℕ → ℕ
max a b = if ltb a b then b else a

-- A watermark where a row is put in unless there is one, and where a row is advanced.
abbrev pub put_in : Bool → ℕ → Option ℕ → Option ℕ
put_in b t (some u) = some u
put_in true t none = some t
put_in false t none = none

abbrev pub raised : Bool → ℕ → Option ℕ → Option ℕ
raised b t none = none
raised true t (some u) = some (max u t)
raised false t (some u) = some u

-- Whether a statement about some schemas of an entry touches this schema of that entry.
abbrev pub touches : Entry → List Text → Entry → Text → Bool
touches e schemas e' schema = entry_eq e' e && elem schema schemas

entry_eq→eq : (a b : Entry) → entry_eq a b ≡ true → a ≡ b
unfolding entry_eq
entry_eq→eq a b h =
    let (p, q) = &&-eq-true (text_eq a.task b.task) (text_eq a.args_sig b.args_sig) h in
    let t : a.task ≡ b.task = (text_eq_iff a.task b.task).0 p in
    let u : a.args_sig ≡ b.args_sig = (text_eq_iff a.args_sig b.args_sig).0 q in cc (t, u)

pub entry_eq_refl : (a : Entry) → entry_eq a a ≡ true
unfolding entry_eq
entry_eq_refl a = rw (text_eq_refl a.task) (text_eq_refl a.args_sig)

entry_eq_comm : (a b : Entry) → entry_eq a b ≡ entry_eq b a
entry_eq_comm a b = elim (Bool-cases (entry_eq a b)) [
  | inl p ↦ let e = entry_eq→eq a b p in cc (e, entry_eq_refl a)
  | inr p ↦ elim (Bool-cases (entry_eq b a)) [
    | inl q ↦ let e = entry_eq→eq b a q in cc (e, entry_eq_refl a)
    | inr q ↦ p ∙ sym q
  ]
]

-- The keys of a row that a watermark is read from.
is_of→eq :
    (e : Entry) (schema : Text) (r : TaskRun)
    → is_of e schema r ≡ true
    → (r.entry ≡ e) × (r.schema ≡ schema)
unfolding is_of
is_of→eq e schema r h =
    let (p, q) = &&-eq-true (entry_eq r.entry e) (text_eq r.schema schema) h in
    (entry_eq→eq r.entry e p, (text_eq_iff r.schema schema).0 q)

row-raised :
    (b c : Bool) (ts : ℕ) (r : TaskRun)
    → some (if b && c && ltb r.last_run_at ts then record r { last_run_at = ts } else r).last_run_at
      ≡ raised (b && c) ts (some r.last_run_at)
row-raised true true ts r = elim (Bool-cases (ltb r.last_run_at ts)) [
  | inl p ↦ rw p refl
  | inr p ↦ rw p refl
]
row-raised true false ts r = refl
row-raised false c ts r = refl

advance_row-is_of :
    (b : Bool) (e' : Entry) (ts : ℕ) (schema : Text) (r : TaskRun)
    → is_of e' schema (if b then record r { last_run_at = ts } else r) ≡ is_of e' schema r
unfolding is_of
advance_row-is_of true e' ts schema r = refl
advance_row-is_of false e' ts schema r = refl

pub watermark-advance :
    (e e' : Entry) (ts : ℕ) (schemas : List Text) (schema : Text) (rows : List TaskRun)
    → watermark e' schema (advance e ts schemas rows)
      ≡ raised (touches e schemas e' schema) ts (watermark e' schema rows)
unfolding watermark advance
watermark-advance e e' ts schemas schema [] = refl
watermark-advance e e' ts schemas schema (r ∷ rows) =
    let test = entry_eq r.entry e && elem r.schema schemas && ltb r.last_run_at ts in
    rw (advance_row-is_of test e' ts schema r) (elim (Bool-cases (is_of e' schema r)) [
      | inl p ↦
          let (q, w) = is_of→eq e' schema r p in
          rw p (row-raised (entry_eq r.entry e) (elem r.schema schemas) ts r ∙ (rw q (rw w refl)))
      | inr p ↦ rw p (watermark-advance e e' ts schemas schema rows)
    ])

put_in-kept : (b : Bool) (ts : ℕ) (o : Option ℕ) → (b ≡ true → is_some o ≡ true) → o ≡ put_in b ts o
put_in-kept b ts (some u) h = refl
put_in-kept true ts none h = absurd (cc (h refl))
put_in-kept false ts none h = refl

put_in-new :
    (b : Bool) (ts : ℕ) (o : Option ℕ)
    → (b ≡ true → is_some o ≡ false)
    → (if b then some ts else o) ≡ put_in b ts o
put_in-new true ts (some u) h = absurd (cc (h refl))
put_in-new true ts none h = refl
put_in-new false ts (some u) h = refl
put_in-new false ts none h = refl

same_key :
    (e e' : Entry) (s schema : Text) (rows : List TaskRun)
    → (entry_eq e' e && text_eq s schema) ≡ true
    → watermark e s rows ≡ watermark e' schema rows
same_key e e' s schema rows h =
    let (p, q) = &&-eq-true (entry_eq e' e) (text_eq s schema) h in
    cc (entry_eq→eq e' e p, (text_eq_iff s schema).0 q)

-- One row of bulk_create.
watermark-create :
    (e e' : Entry) (ts : ℕ) (s schema : Text) (rows : List TaskRun)
    → watermark e' schema (
        if is_some (watermark e s rows)
        then rows
        else (record { schema = s; entry = e; last_run_at = ts } ∷ rows))
      ≡ put_in (entry_eq e' e && text_eq s schema) ts (watermark e' schema rows)
unfolding watermark
watermark-create e e' ts s schema rows =
    let b = entry_eq e' e && text_eq s schema in
    let o = watermark e' schema rows in
    elim (Bool-cases (is_some (watermark e s rows))) [
      | inl p ↦
          rw p (put_in-kept b ts o (λ h. ap is_some (sym (same_key e e' s schema rows h)) ∙ p))
      | inr p ↦ rw p (
          rw (entry_eq_comm e e')
            (put_in-new b ts o (λ h. ap is_some (sym (same_key e e' s schema rows h)) ∙ p)))
    ]

put_in-or :
    (a b c : Bool) (ts : ℕ) (o : Option ℕ)
    → put_in (a && c) ts (put_in (a && b) ts o) ≡ put_in (a && (b || c)) ts o
put_in-or a b c ts o = ground arith

pub watermark-bulk_create :
    (e e' : Entry) (ts : ℕ) (schemas : List Text) (schema : Text) (rows : List TaskRun)
    → watermark e' schema (bulk_create e ts schemas rows)
      ≡ put_in (touches e schemas e' schema) ts (watermark e' schema rows)
unfolding bulk_create elem
watermark-bulk_create e e' ts [] schema rows = ground arith
watermark-bulk_create e e' ts (s ∷ ss) schema rows =
    let grown =
      (if is_some (watermark e s rows)
        then rows
        else (record { schema = s; entry = e; last_run_at = ts } ∷ rows)) in
    watermark-bulk_create e e' ts ss schema grown
    ∙ ap (put_in (touches e ss e' schema) ts) (watermark-create e e' ts s schema rows)
    ∙ put_in-or (entry_eq e' e) (text_eq s schema) (elem schema ss) ts (watermark e' schema rows)

-- A watermark that a wave reached or not: it is there afterwards, and never goes back.
abbrev pub latest : Bool → ℕ → Option ℕ → Option ℕ
latest true t none = some t
latest true t (some u) = some (max u t)
latest false t o = o

pub raised-put_in : (b : Bool) (t : ℕ) (o : Option ℕ) → raised b t (put_in b t o) ≡ latest b t o
raised-put_in true t none = ground arith
raised-put_in true t (some u) = refl
raised-put_in false t none = refl
raised-put_in false t (some u) = refl

-- After mark_ran the watermark of each schema that it was called with is there, for its entry, and
-- is the later of run_ts and what it was; every other watermark, of the same entry or of another,
-- is unchanged.
pub mark_ran_lem :
    (e e' : Entry) (ts : ℕ) (schemas : List Text) (schema : Text) (rows : List TaskRun)
    → watermark e' schema (mark_ran e ts schemas rows)
      ≡ latest (touches e schemas e' schema) ts (watermark e' schema rows)
unfolding mark_ran elem
mark_ran_lem e e' ts [] schema rows = ground arith
mark_ran_lem e e' ts (s ∷ ss) schema rows =
    let b = touches e (s ∷ ss) e' schema in
    watermark-advance e e' ts (s ∷ ss) schema (bulk_create e ts (s ∷ ss) rows)
    ∙ ap (raised b ts) (watermark-bulk_create e e' ts (s ∷ ss) schema rows)
    ∙ raised-put_in b ts (watermark e' schema rows)

-- The dict that a tick loads has, for every schema, the watermark of the entry.
pub get-load_map :
    (e : Entry) (schema : Text) (rows : List TaskRun)
    → get (load_map e rows) schema ≡ watermark e schema rows
unfolding get load_map watermark is_of
get-load_map e schema [] = refl
get-load_map e schema (r ∷ rows) = elim (Bool-cases (entry_eq r.entry e)) [
  | inl p ↦ rw p (
      ap (λ o. if text_eq r.schema schema then some r.last_run_at else o)
        (get-load_map e schema rows))
  | inr p ↦ rw p (get-load_map e schema rows)
]

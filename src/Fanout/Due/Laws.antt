-- ===== src/Fanout/Due/Laws.antt =====
-- When a calendar entry is due for a tenant, and what marking it does to the next tick.
use mt_shards_back_test.Base.{
  ℕ, ◌*◌, ◌≤◌, ◌≡◌, refl, ap, ◌∙◌, Bool, true, false, not, ◌&&◌, ◌||◌, Option, none, some, Text,
  text_eq, text_eq_iff, text_eq_refl, elem, is_some, if◌then◌else◌, List, [], ◌∷◌, arith,
  Bool-cases, inl, inr,
}
use mt_shards_back_test.Fanout.Watermark.{Entry, TaskRun, watermark, load_map, get, mark_ran}
use mt_shards_back_test.Fanout.Watermark.Laws.{
  get-load_map, mark_ran_lem, touches, latest, entry_eq_refl,
}
use mt_shards_back_test.Fanout.Due.{
  Calendar, Verdict, skipped, due, dropped, dispatched, within, judge, judge_in, sort_in, due_loop,
  due_by_tenant_tz,
}

-- An occurrence that is not marked and not past its grace.
abbrev pub is_due : ℕ → ℕ → ℕ → Option ℕ → Bool
is_due now grace t_fire last_run = not (dispatched t_fire last_run) && within now t_fire grace

abbrev is_due_verdict : Verdict → Bool
is_due_verdict skipped = false
is_due_verdict due = true
is_due_verdict dropped = false

judge-is_due :
    (now grace t_fire : ℕ) (l : Option ℕ)
    → is_due_verdict (judge now grace t_fire l) ≡ is_due now grace t_fire l
unfolding judge
judge-is_due now grace t_fire l =
    three (dispatched t_fire l) (within now t_fire grace)
      (is_some l && within now t_fire (2 * grace))
  where
    three :
        (d w x : Bool)
        → is_due_verdict
            (if d then skipped else (if w then due else (if x then dropped else skipped)))
          ≡ (not d && w)
    three d w x = ground arith

elem-head :
    (name : Text) (b : Bool)
    → b ≡ true
    → (names : List Text) → elem name (if b then (name ∷ names) else names) ≡ true
unfolding elem
elem-head name b p names = rw p (rw (text_eq_refl name) refl)

elem-tail :
    (name other : Text) (b : Bool) (names : List Text)
    → elem name names ≡ true
    → elem name (if b then (other ∷ names) else names) ≡ true
unfolding elem
elem-tail name other true names h = ground arith
elem-tail name other false names h = h

neither : (a b : Bool) → a ≡ false → b ≡ false → (a || b) ≡ false
neither a b p q = rw p q

module _ (κ : Calendar) where
  abbrev pub due_in : Text → ℕ → ℕ → Option ℕ → Option κ.Zone → Bool
  due_in cron now grace last_run none = false
  due_in cron now grace last_run (some tz) = is_due now grace (κ.get_prev cron tz now) last_run

  -- A tenant of the list that has this schema is due.
  abbrev pub due_among : Text → ℕ → ℕ → Option ℕ → Text → List (Text × Text) → Bool
  due_among cron now grace last_run schema [] = false
  due_among cron now grace last_run schema ((s, tzname) ∷ tenants) =
      (text_eq s schema && due_in cron now grace last_run (κ.zone tzname))
      || due_among cron now grace last_run schema tenants

  judge_in-due_in :
      (cron : Text) (now grace : ℕ) (l : Option ℕ) (z : Option κ.Zone)
      → is_due_verdict (judge_in κ cron now grace l z) ≡ due_in cron now grace l z
  judge_in-due_in cron now grace l none = refl
  judge_in-due_in cron now grace l (some tz) = judge-is_due now grace (κ.get_prev cron tz now) l

  elem-sort_in :
      (s schema : Text) (v : Verdict) (rest : List Text × List Text)
      → elem schema (sort_in κ s v rest).0
        ≡ ((text_eq s schema && is_due_verdict v) || elem schema rest.0)
  unfolding elem
  elem-sort_in s schema skipped rest = ground arith
  elem-sort_in s schema due rest = ground arith
  elem-sort_in s schema dropped rest = ground arith

  -- The watermark that counts is that of the schema.
  same_mark :
      (cron : Text) (now grace : ℕ) (m : Text → Option ℕ) (s schema : Text) (z : Option κ.Zone)
      → (text_eq s schema && due_in cron now grace (m s) z)
        ≡ (text_eq s schema && due_in cron now grace (m schema) z)
  same_mark cron now grace m s schema z = elim (Bool-cases (text_eq s schema)) [
    | inl p ↦
        ap (λ x. text_eq s schema && due_in cron now grace (m x) z) ((text_eq_iff s schema).0 p)
    | inr p ↦ rw p refl
  ]

  elem-due_loop :
      (cron : Text) (now grace : ℕ) (last : List (Text × ℕ)) (schema : Text)
      (tenants : List (Text × Text))
      → elem schema (due_loop κ cron now grace last tenants).0
        ≡ due_among cron now grace (get last schema) schema tenants
  unfolding due_loop elem
  elem-due_loop cron now grace last schema [] = refl
  elem-due_loop cron now grace last schema ((s, tzname) ∷ tenants) =
      let z = κ.zone tzname in
      let v = judge_in κ cron now grace (get last s) z in
      let rest = due_loop κ cron now grace last tenants in
      elem-sort_in s schema v rest
      ∙ ap (λ b. (text_eq s schema && b) || elem schema rest.0)
          (judge_in-due_in cron now grace (get last s) z)
      ∙ ap (λ b. b || elem schema rest.0) (same_mark cron now grace (get last) s schema z)
      ∙ ap (λ b. (text_eq s schema && due_in cron now grace (get last schema) z) || b)
          (elem-due_loop cron now grace last schema tenants)

  -- A calendar entry is due for a schema exactly when a listed tenant with this schema has a time
  -- zone that exists, in which the last occurrence of the cron line is later than the watermark of
  -- the entry and the schema, if there is one, and not longer ago than the grace.
  pub due_by_tenant_tz_iff :
      (e : Entry) (cron : Text) (now grace : ℕ) (tenants : List (Text × Text)) (rows : List TaskRun)
      (schema : Text)
      → elem schema (due_by_tenant_tz κ e cron now grace tenants rows)
        ≡ due_among cron now grace (watermark e schema rows) schema tenants
  unfolding due_by_tenant_tz
  due_by_tenant_tz_iff e cron now grace tenants rows schema =
      elem-due_loop cron now grace (load_map e rows) schema tenants
      ∙ ap (λ l. due_among cron now grace l schema tenants) (get-load_map e schema rows)

  -- The names of the time zones that are listed for a schema.
  abbrev pub zones_of : Text → List (Text × Text) → List Text
  zones_of schema [] = []
  zones_of schema ((s, tzname) ∷ tenants) =
      if text_eq s schema then (tzname ∷ zones_of schema tenants) else zones_of schema tenants

  settled-due_in :
      (cron : Text) (now now' grace : ℕ) (l : Option ℕ) (z : Option κ.Zone)
      → ((tz : κ.Zone) → z ≡ some tz → κ.get_prev cron tz now' ≤ now)
      → due_in cron now' grace (latest true now l) z ≡ false
  settled-due_in cron now now' grace l none h = refl
  settled-due_in cron now now' grace none (some tz) h = ground (arith, h tz refl)
  settled-due_in cron now now' grace (some u) (some tz) h = ground (arith, h tz refl)

  head-due_in :
      (b : Bool) (cron : Text) (now now' grace : ℕ) (l : Option ℕ) (z : Option κ.Zone)
      → (b ≡ true → (tz : κ.Zone) → z ≡ some tz → κ.get_prev cron tz now' ≤ now)
      → (b && due_in cron now' grace (latest true now l) z) ≡ false
  head-due_in true cron now now' grace l z h = settled-due_in cron now now' grace l z (h refl)
  head-due_in false cron now now' grace l z h = refl

  settled-due_among :
      (cron : Text) (now now' grace : ℕ) (l : Option ℕ) (schema : Text)
      (tenants : List (Text × Text))
      → ((name : Text) (tz : κ.Zone)
          → elem name (zones_of schema tenants) ≡ true
          → κ.zone name ≡ some tz
          → κ.get_prev cron tz now' ≤ now)
      → due_among cron now' grace (latest true now l) schema tenants ≡ false
  unfolding elem
  settled-due_among cron now now' grace l schema [] h = refl
  settled-due_among cron now now' grace l schema ((s, tzname) ∷ tenants) h =
      let b = text_eq s schema in
      let zs = zones_of schema tenants in
      let head =
        head-due_in b cron now now' grace l (κ.zone tzname)
          (λ p tz z. h tzname tz (elem-head tzname b p zs) z) in
      let rest =
        settled-due_among cron now now' grace l schema tenants
          (λ name tz m z. h name tz (elem-tail name tzname b zs m) z) in
      neither (b && due_in cron now' grace (latest true now l) (κ.zone tzname)) _ head rest

  -- Once the schemas that a tick sent are marked with the time of the tick, no later tick is due
  -- for any of them, until the last occurrence in one of the schema's time zones is later than
  -- that time.
  pub due-mark_ran :
      (e : Entry) (cron : Text) (now now' grace : ℕ) (tenants : List (Text × Text))
      (rows : List TaskRun) (sent : List Text) (schema : Text)
      → elem schema sent ≡ true
      → ((name : Text) (tz : κ.Zone)
          → elem name (zones_of schema tenants) ≡ true
          → κ.zone name ≡ some tz
          → κ.get_prev cron tz now' ≤ now)
      → elem schema (due_by_tenant_tz κ e cron now' grace tenants (mark_ran e now sent rows))
        ≡ false
  due-mark_ran e cron now now' grace tenants rows sent schema h settled =
      let hit : touches e sent e schema ≡ true = rw (entry_eq_refl e) h in
      due_by_tenant_tz_iff e cron now' grace tenants (mark_ran e now sent rows) schema
      ∙ ap (λ l. due_among cron now' grace l schema tenants)
          (mark_ran_lem e e now sent schema rows
            ∙ ap (λ b. latest b now (watermark e schema rows)) hit)
      ∙ settled-due_among cron now now' grace (watermark e schema rows) schema tenants settled

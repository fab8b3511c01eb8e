-- ===== src/Fanout/Schedule/Laws.antt =====
-- What a wrapped entry still says, in terms of the entry it was made of.
use mt_shards_back_test.Base.{
  ℕ, ◌≡◌, refl, ap, sym, ◌∙◌, Bool, true, false, not, ◌||◌, Option, none, some, List, [], ◌∷◌, ◌++◌,
  Text, text_eq, codes, if◌then◌else◌, ◌==◌, arith, all,
}
use mt_shards_back_test.Base.Exec.{Outcome, ok, raise}
use mt_shards_back_test.Fanout.Schedule.{
  Crontab, Schedule, number, timedelta, interval, crontab, unsupported, space, crontab_to_cronspec,
  BeatError, bad_scope, classify_schedule, BeatEntry, SchedEntry, plain, fanned, or_empty, disp_of,
  fan, named, classified, is_scope, scoped_schedule,
}

abbrev onto_first : ℕ → List Text → List Text
onto_first c [] = (c ∷ []) ∷ []
onto_first c (w ∷ ws) = (c ∷ w) ∷ ws

-- str.split(" ")
unfoldable pub split : Text → List Text
split [] = [] ∷ []
split (c ∷ t) = let rest = split t in if c == space then [] ∷ rest else onto_first c rest

abbrev pub no_space : Text → Bool
no_space = all (λ c. not (c == space))

split-append : (f t : Text) → no_space f ≡ true → split (f ++ (space ∷ t)) ≡ f ∷ split t
unfolding split all
split-append [] t h = refl
split-append (c ∷ f) t h =
    let apart : (c == space) ≡ false = ground (arith, h) in
    rw (apart, split-append f t (ground (arith, h))) refl

split_field : (f : Text) → no_space f ≡ true → split f ≡ f ∷ []
unfolding split all
split_field [] h = refl
split_field (c ∷ f) h =
    let apart : (c == space) ≡ false = ground (arith, h) in
    rw (apart, split_field f (ground (arith, h))) refl

abbrev pub crontab_of : List Text → Option Crontab
crontab_of (m ∷ h ∷ dom ∷ moy ∷ dow ∷ []) =
    some
      (record { minute = m; hour = h; day_of_week = dow; day_of_month = dom; month_of_year = moy })
crontab_of _ = none

abbrev pub Fields : Crontab → Type 0
Fields c =
    (no_space c.minute ≡ true)
    × (no_space c.hour ≡ true)
    × (no_space c.day_of_month ≡ true)
    × (no_space c.month_of_year ≡ true)
    × (no_space c.day_of_week ≡ true)

pub crontab_of-crontab_to_cronspec :
    (c : Crontab) → Fields c → crontab_of (split (crontab_to_cronspec c)) ≡ some c
unfolding crontab_to_cronspec
crontab_of-crontab_to_cronspec c f =
    let dow = c.day_of_week in
    let moy = c.month_of_year ++ (space ∷ dow) in
    let dom = c.day_of_month ++ (space ∷ moy) in
    rw
      (
        split-append c.minute (c.hour ++ (space ∷ dom)) f.0,
        split-append c.hour dom f.1,
        split-append c.day_of_month moy f.2,
        split-append c.month_of_year dow f.3,
        split_field dow f.4,
      )
      refl

-- What an entry asks for: the task, when it runs, and with which arguments.
pub record Asked (N V : Type 0) : Type 0 where
  pub task : Option Text
  pub schedule : Option (Schedule N)
  pub args : List V
  pub kwargs : List (Text × V)
  pub options : List (Text × V)

unfoldable pub asked : {N V : Type 0} → BeatEntry N V → Asked N V
asked e = record {
  task = e.task;
  schedule = e.schedule;
  args = or_empty e.args;
  kwargs = or_empty e.kwargs;
  options = or_empty e.options;
}

abbrev pub in_crontab : {N : Type 0} → Option Crontab → Option (Schedule N)
in_crontab none = none
in_crontab (some c) = some (crontab c)

abbrev pub scheduled : {N : Type 0} → Option Text → Schedule N → Option (Schedule N)
scheduled none s = some s
scheduled (some cron) s = in_crontab (crontab_of (split cron))

-- What a wrapped entry asks for, read back from the arguments of the dispatcher.
unfoldable pub told : {N V : Type 0} → SchedEntry N V → Asked N V
unfolding asked
told (plain e scope) = asked e
told (fanned s d) = record {
  task = some d.task_name;
  schedule = scheduled d.cron s;
  args = d.task_args;
  kwargs = d.task_kwargs;
  options = d.task_options;
}

abbrev pub FieldsOf : {N : Type 0} → Option (Schedule N) → Type 0
FieldsOf (some (crontab c)) = Fields c
FieldsOf _ = Unit {0}

abbrev value : {X A : Type 0} → A → Outcome X A → A
value a (ok b) = b
value a (raise x) = a

module _ {N V : Type 0} (float : N → N) (period_0 : N) where
  told-fan :
      (e : BeatEntry N V) (scope : Text) (period : Option N) (grace : Option ℕ) (task : Text)
      (s : Schedule N) (w : SchedEntry N V)
      → e.task ≡ some task
      → e.schedule ≡ some s
      → FieldsOf (some s)
      → named float period_0 e scope period grace (some task) (classify_schedule s) ≡ ok w
      → told w ≡ asked e
  unfolding classify_schedule fan disp_of told asked
  told-fan e scope period grace task (number n) w t a f h =
      ap (λ o. told (value w o)) (sym h) ∙ rw (t, a) refl
  told-fan e scope period grace task (timedelta n) w t a f h =
      ap (λ o. told (value w o)) (sym h) ∙ rw (t, a) refl
  told-fan e scope period grace task (interval n) w t a f h =
      ap (λ o. told (value w o)) (sym h) ∙ rw (t, a) refl
  told-fan e scope period grace task (crontab c) w t a f h =
      ap (λ o. told (value w o)) (sym h) ∙ rw (t, a, crontab_of-crontab_to_cronspec c f) refl
  told-fan e scope period grace task unsupported w t a f h = absurd (ground arith)

  named_none :
      (e : BeatEntry N V) (scope : Text) (period : Option N) (grace : Option ℕ)
      (o : Outcome BeatError (Schedule N × Option Text)) (w : SchedEntry N V)
      → named float period_0 e scope period grace none o ≡ ok w
      → told w ≡ asked e
  named_none e scope period grace (ok c) w h = absurd (ground arith)
  named_none e scope period grace (raise x) w h = absurd (ground arith)

  told-named :
      (e : BeatEntry N V) (scope : Text) (period : Option N) (grace : Option ℕ) (task : Option Text)
      (s : Option (Schedule N)) (w : SchedEntry N V)
      → e.task ≡ task
      → e.schedule ≡ s
      → FieldsOf s
      → named float period_0 e scope period grace task (classified s) ≡ ok w
      → told w ≡ asked e
  told-named e scope period grace none none w t a f h = absurd (ground arith)
  told-named e scope period grace (some task) none w t a f h = absurd (ground arith)
  told-named e scope period grace none (some s) w t a f h =
      named_none e scope period grace (classify_schedule s) w h
  told-named e scope period grace (some task) (some s) w t a f h =
      told-fan e scope period grace task s w t a f h

  told_either :
      (valid identity : Bool) (e : BeatEntry N V) (scope : Text)
      (o : Outcome BeatError (SchedEntry N V)) (w : SchedEntry N V)
      → (o ≡ ok w → told w ≡ asked e)
      → (if not valid then raise bad_scope else if identity then ok (plain e scope) else o) ≡ ok w
      → told w ≡ asked e
  unfolding told
  told_either false identity e scope o w k h = absurd (ground arith)
  told_either true true e scope o w k h = ap (λ x. told (value w x)) (sym h)
  told_either true false e scope o w k h = k h

  -- Where scoped_schedule returns an entry, in either mode and for either scope, the task, the schedule
  -- and the arguments that the given entry asks for can be read back from it: a crontab comes back
  -- from the cron spec by splitting it at its spaces, where no field of the crontab has one.
  pub told-scoped_schedule :
      (multitenant : Bool) (e : BeatEntry N V) (scope : Text) (period : Option N) (grace : Option ℕ)
      (w : SchedEntry N V)
      → FieldsOf e.schedule
      → scoped_schedule float period_0 multitenant e scope period grace ≡ ok w
      → told w ≡ asked e
  unfolding scoped_schedule
  told-scoped_schedule multitenant e scope period grace w f h =
      told_either (is_scope scope) (not multitenant || text_eq scope (codes "public")) e scope
        (named float period_0 e scope period grace e.task (classified e.schedule)) w
        (told-named e scope period grace e.task e.schedule w refl refl f) h

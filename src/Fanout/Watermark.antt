-- ===== src/Fanout/Watermark.antt =====
-- tenants/models.py, TaskRun: the table of watermarks, load_map and mark_ran. Time is in
-- microseconds; the two statements of mark_ran are separate, as no transaction joins them.
pub mod Laws
pub mod Waves
use mt_shards_back_test.Base.{
  ℕ, Bool, true, false, ◌&&◌, Option, none, some, Text, text_eq, elem, ltb, is_some, if◌then◌else◌,
  List, [], ◌∷◌, ◌++◌,
}

-- task and args_sig: one entry of the schedule
pub record Entry : Type 0 where
  pub task : Text
  pub args_sig : Text

pub record TaskRun : Type 0 where
  pub schema : Text
  pub entry : Entry
  pub last_run_at : ℕ

unfoldable pub entry_eq : Entry → Entry → Bool
entry_eq a b = text_eq a.task b.task && text_eq a.args_sig b.args_sig

unfoldable pub is_of : Entry → Text → TaskRun → Bool
unfolding entry_eq
is_of e schema r = entry_eq r.entry e && text_eq r.schema schema

-- The row of an entry and a schema; the unique constraint allows one.
unfoldable pub watermark : Entry → Text → List TaskRun → Option ℕ
unfolding is_of
watermark e schema [] = none
watermark e schema (r ∷ rs) = if is_of e schema r then some r.last_run_at else watermark e schema rs

unfoldable pub load_map : Entry → List TaskRun → List (Text × ℕ)
unfolding entry_eq
load_map e [] = []
load_map e (r ∷ rs) =
    let rest = load_map e rs in
    if entry_eq r.entry e then (r.schema, r.last_run_at) ∷ rest else rest

-- dict.get of the pairs that load_map returns
unfoldable pub get : List (Text × ℕ) → Text → Option ℕ
get [] schema = none
get ((s, t) ∷ rest) schema = if text_eq s schema then some t else get rest schema

-- bulk_create(…, ignore_conflicts=True)
unfoldable pub bulk_create : Entry → ℕ → List Text → List TaskRun → List TaskRun
unfolding watermark
bulk_create e ts [] rows = rows
bulk_create e ts (s ∷ ss) rows = bulk_create e ts ss (
    if is_some (watermark e s rows)
    then rows
    else (record { schema = s; entry = e; last_run_at = ts } ∷ rows))

abbrev pub advance_row : Entry → ℕ → List Text → TaskRun → TaskRun
advance_row e ts schemas r =
    if entry_eq r.entry e && elem r.schema schemas && ltb r.last_run_at ts
    then record r { last_run_at = ts }
    else r

-- filter(…, last_run_at__lt=run_ts).update(last_run_at=run_ts)
unfoldable pub advance : Entry → ℕ → List Text → List TaskRun → List TaskRun
unfolding entry_eq elem
advance e ts schemas [] = []
advance e ts schemas (r ∷ rs) = advance_row e ts schemas r ∷ advance e ts schemas rs

unfoldable pub mark_ran : Entry → ℕ → List Text → List TaskRun → List TaskRun
unfolding bulk_create advance
mark_ran e ts [] rows = rows
mark_ran e ts (s ∷ ss) rows = advance e ts (s ∷ ss) (bulk_create e ts (s ∷ ss) rows)

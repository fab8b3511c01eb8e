-- ===== src/Fanout/Watermark/Waves.antt =====
-- Two waves that mark the same table, their statements in any order: no transaction joins the two
-- statements of one mark_ran.
use mt_shards_back_test.Base.{
  ℕ, ◌≡◌, refl, sym, ap, ◌∙◌, Bool, true, false, Option, Text, elem, List, [], ◌∷◌, ◌++◌, arith,
}
use mt_shards_back_test.Fanout.Watermark.{Entry, TaskRun, watermark, bulk_create, advance, mark_ran}
use mt_shards_back_test.Fanout.Watermark.Laws.{
  put_in, raised, touches, latest, watermark-advance, watermark-bulk_create, raised-put_in,
  mark_ran_lem,
}

pub record Wave : Type 0 where
  pub entry : Entry
  pub run_ts : ℕ
  pub schemas : List Text

pub data Statement : Type 0 where
  creates updates : Wave → Statement

abbrev pub step : Statement → List TaskRun → List TaskRun
step (creates w) rows = bulk_create w.entry w.run_ts w.schemas rows
step (updates w) rows = advance w.entry w.run_ts w.schemas rows

abbrev pub run : List Statement → List TaskRun → List TaskRun
run [] rows = rows
run (x ∷ xs) rows = run xs (step x rows)

-- The order in which two sequences are merged, `true` for the first; the rest follows in order.
abbrev pub merge : List Bool → List Statement → List Statement → List Statement
merge bs [] ys = ys
merge bs (x ∷ xs) [] = x ∷ xs
merge [] (x ∷ xs) (y ∷ ys) = x ∷ xs ++ (y ∷ ys)
merge (true ∷ bs) (x ∷ xs) (y ∷ ys) = x ∷ merge bs xs (y ∷ ys)
merge (false ∷ bs) (x ∷ xs) (y ∷ ys) = y ∷ merge bs (x ∷ xs) ys

-- The statements of a mark_ran: none where no schema was sent.
abbrev pub of_wave : Wave → List Text → List Statement
of_wave v [] = []
of_wave v (s ∷ ss) = creates v ∷ updates v ∷ []

abbrev pub statements : Wave → List Statement
statements w = of_wave w w.schemas

module _ (e : Entry) (schema : Text) where
  abbrev hits : Wave → Bool
  hits w = touches w.entry w.schemas e schema

  abbrev effect : Statement → Option ℕ → Option ℕ
  effect (creates w) o = put_in (hits w) w.run_ts o
  effect (updates w) o = raised (hits w) w.run_ts o

  abbrev effects : List Statement → Option ℕ → Option ℕ
  effects [] o = o
  effects (x ∷ xs) o = effects xs (effect x o)

  watermark-step :
      (x : Statement) (rows : List TaskRun)
      → watermark e schema (step x rows) ≡ effect x (watermark e schema rows)
  watermark-step (creates w) rows = watermark-bulk_create w.entry e w.run_ts w.schemas schema rows
  watermark-step (updates w) rows = watermark-advance w.entry e w.run_ts w.schemas schema rows

  watermark-run :
      (xs : List Statement) (rows : List TaskRun)
      → watermark e schema (run xs rows) ≡ effects xs (watermark e schema rows)
  watermark-run [] rows = refl
  watermark-run (x ∷ xs) rows =
      watermark-run xs (step x rows) ∙ ap (effects xs) (watermark-step x rows)

  hits-empty : (w : Wave) → w.schemas ≡ [] → hits w ≡ false
  unfolding elem
  hits-empty w h = rw h (ground arith)

  -- The last watermark, with the waves one after the other.
  abbrev pub settled : Wave → Wave → Option ℕ → Option ℕ
  settled v w o = latest (hits w) w.run_ts (latest (hits v) v.run_ts o)

  alone :
      (w : Wave) (ws : List Text) (o : Option ℕ)
      → w.schemas ≡ ws
      → effects (of_wave w ws) o ≡ latest (hits w) w.run_ts o
  alone w [] o h = rw (hits-empty w h) refl
  alone w (s ∷ ws) o h = raised-put_in (hits w) w.run_ts o

  both :
      (bs : List Bool) (v w : Wave) (o : Option ℕ)
      → effects (merge bs (creates v ∷ updates v ∷ []) (creates w ∷ updates w ∷ [])) o
        ≡ settled v w o
  both [] v w o = ground arith
  both (true ∷ []) v w o = ground arith
  both (true ∷ true ∷ bs) v w o = ground arith
  both (true ∷ false ∷ []) v w o = ground arith
  both (true ∷ false ∷ true ∷ bs) v w o = ground arith
  both (true ∷ false ∷ false ∷ bs) v w o = ground arith
  both (false ∷ []) v w o = ground arith
  both (false ∷ false ∷ bs) v w o = ground arith
  both (false ∷ true ∷ []) v w o = ground arith
  both (false ∷ true ∷ true ∷ bs) v w o = ground arith
  both (false ∷ true ∷ false ∷ bs) v w o = ground arith

  converge :
      (bs : List Bool) (v w : Wave) (vs ws : List Text) (o : Option ℕ)
      → v.schemas ≡ vs
      → w.schemas ≡ ws
      → effects (merge bs (of_wave v vs) (of_wave w ws)) o ≡ settled v w o
  converge bs v w [] ws o p q = rw (hits-empty v p) (alone w ws o q)
  converge bs v w (s ∷ vs) [] o p q = rw (hits-empty w q) (alone v (s ∷ vs) o p)
  converge bs v w (s ∷ vs) (t ∷ ws) o p q = both bs v w o

  -- However the statements of two waves interleave, every watermark ends where it would end with
  -- one mark_ran after the other: on the latest of what it was and the times of the waves, of the
  -- same or of different entries, that reach it.
  pub mark_ran-converges :
      (bs : List Bool) (v w : Wave) (rows : List TaskRun)
      → watermark e schema (run (merge bs (statements v) (statements w)) rows)
        ≡ watermark e schema
            (mark_ran w.entry w.run_ts w.schemas (mark_ran v.entry v.run_ts v.schemas rows))
  mark_ran-converges bs v w rows =
      watermark-run (merge bs (statements v) (statements w)) rows
      ∙ converge bs v w v.schemas w.schemas (watermark e schema rows) refl refl
      ∙ sym (
          mark_ran_lem w.entry e w.run_ts w.schemas schema
            (mark_ran v.entry v.run_ts v.schemas rows)
          ∙ ap (latest (hits w) w.run_ts) (mark_ran_lem v.entry e v.run_ts v.schemas schema rows))

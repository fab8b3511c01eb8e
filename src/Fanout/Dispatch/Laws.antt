-- ===== src/Fanout/Dispatch/Laws.antt =====
-- The lock of a wave, and the watermarks that a batch moves.
use mt_shards_back_test.Base.{
  ℕ, ◌≤◌, ◌≡◌, refl, ap, ◌∙◌, Bool, true, false, Option, none, some, Text, text_eq, text_eq_refl,
  elem, if◌then◌else◌, List, [], ◌∷◌, Bool-cases, inl, inr,
}
use mathlib.Core.Path.{subst}
use mt_shards_back_test.Base.Exec.{
  Outcome, ok, raise, Exec, pure, throw, lift, handled, modify, ◌>>=◌, ◌>>◌,
}
use mt_shards_back_test.Base.Exec.Finally.{finally-returned}
use mt_shards_back_test.Base.Exec.Keeps.{Keeps, Keeps-bind, Keeps-pure, Keeps-throw, Keeps-modify}
use mt_shards_back_test.Fanout.Watermark.{Entry, TaskRun, mark_ran}
use mt_shards_back_test.Fanout.Due.{Calendar, due_by_tenant_tz}
use mt_shards_back_test.Fanout.Due.Laws.{due-mark_ran, zones_of}
use mt_shards_back_test.Fanout.Dispatch.{
  Batch, BeatConf, Request, Tick, fan_out, release_quietly, fanout_dispatch, Headers, with_header,
  header, Sending, accepted, operational_error, fatal, World, SendError, not_retryable,
  schema_header, headers_or_empty, collect_sent, on_sending, put_broker, send_task, send_loop, mark,
  sub_dispatch,
}

-- Whatever headers the schedule entry has, the message carries the schema under its key.
pub header-with_header :
    (key value : Text) (hs : Headers) → header key (with_header key value hs) ≡ some value
unfolding header with_header
header-with_header key value [] = rw (text_eq_refl key) refl
header-with_header key value ((k, v) ∷ hs) = elim (Bool-cases (text_eq k key)) [
  | inl p ↦ rw p (rw (text_eq_refl key) refl)
  | inr p ↦ rw p (rw p (header-with_header key value hs))
]

module _ {X S : Type 0} (κ : Calendar) (conf : BeatConf) (tick : S → Tick)
    (delay : Batch → Exec X S (Unit {0})) (acquire : Exec X S Bool) (release : Exec X S (Unit {0}))
    (swallowed : X → Bool) where
  abbrev pub fanned : Request → Exec X S (Option ℕ)
  fanned r = fan_out κ conf tick delay acquire release swallowed r >>= λ n. pure (some n)

  quiet :
      (o : Outcome X (Unit {0})) (s : S)
      → ((x : X) → o ≡ raise x → swallowed x ≡ true)
      → (handled (λ x. if swallowed x then pure tt else throw x) o s).0 ≡ ok tt
  unfolding pure
  quiet (ok _) s h = refl
  quiet (raise x) s h = rw (h x refl) refl

  release_quietly-ok :
      (s : S)
      → ((x : X) (t : S) → (release t).0 ≡ raise x → swallowed x ≡ true)
      → (release_quietly κ conf tick delay acquire release swallowed s).0 ≡ ok tt
  unfolding release_quietly
  release_quietly-ok s h = let (o, t) = release s in quiet o t (λ x e. h x s e)

  -- Where the lock is got and its release raises nothing but LockError and RedisError,
  -- fanout_dispatch returns or raises what the wave did, and where the lock is not got it returns
  -- the skip.
  pub fanout_dispatch_lem :
      (r : Request) (s s' : S) (got : Bool)
      → acquire s ≡ (ok got, s')
      → ((x : X) (t : S) → (release t).0 ≡ raise x → swallowed x ≡ true)
      → (fanout_dispatch κ conf tick delay acquire release swallowed r s).0
        ≡ ((if got then fanned r else pure none) s').0
  unfolding fanout_dispatch ◌>>=◌
  fanout_dispatch_lem r s s' true e h =
      let (same, _) =
        finally-returned (fanned r)
          (λ _. release_quietly κ conf tick delay acquire release swallowed) s'
          (release_quietly-ok (fanned r s').1 h) in
      rw e same
  fanout_dispatch_lem r s s' false e h = rw e refl

module _ {B : Type 0} (send : Headers → B → Sending × B) where
  -- A table that stays as it is.
  abbrev Still : List TaskRun → World B → Type 0
  Still rows w = w.rows ≡ rows

  sending-Still : (o : Sending) (rows : List TaskRun) → Keeps (Still rows) (on_sending send o)
  sending-Still accepted rows = Keeps-pure true
  sending-Still operational_error rows = Keeps-pure false
  sending-Still fatal rows = Keeps-throw not_retryable

  send_task-Still :
      (caller : Option Headers) (s : Text) (rows : List TaskRun)
      → Keeps (Still rows) (send_task send caller s)
  unfolding send_task
  send_task-Still caller s rows =
      Keeps-bind (modify (put_broker send (with_header schema_header s (headers_or_empty caller))))
        _
        (Keeps-modify (put_broker send (with_header schema_header s (headers_or_empty caller)))
          (λ w h. h))
        (λ o. sending-Still o rows)

  send_loop-Still :
      (caller : Option Headers) (ss : List Text) (rows : List TaskRun)
      → Keeps (Still rows) (send_loop send caller ss)
  unfolding send_loop
  send_loop-Still caller [] rows = Keeps-pure []
  send_loop-Still caller (s ∷ ss) rows =
      Keeps-bind (send_task send caller s) _ (send_task-Still caller s rows) (λ a.
        Keeps-bind (send_loop send caller ss) _ (send_loop-Still caller ss rows)
          (λ sent. Keeps-pure (collect_sent send s a sent)))

  -- What sub_dispatch did to the table of watermarks.
  abbrev pub Marks :
      Entry → Option ℕ → List TaskRun → Outcome SendError (List Text) × World B → Type 0
  Marks e run_ts rows (raise x, w) = w.rows ≡ rows
  Marks e none rows (ok sent, w) = w.rows ≡ rows
  Marks e (some ts) rows (ok sent, w) = w.rows ≡ mark_ran e ts sent rows

  marked :
      (e : Entry) (run_ts : Option ℕ) (o : Outcome SendError (List Text)) (w : World B)
      (rows : List TaskRun)
      → w.rows ≡ rows
      → Marks e run_ts rows ((lift o >>= λ sent. mark send e run_ts sent >> pure sent) w)
  unfolding lift modify pure ◌>>=◌
  marked e run_ts (raise x) w rows h = h
  marked e none (ok sent) w rows h = h
  marked e (some ts) (ok sent) w rows h = ap (mark_ran e ts sent) h

  -- sub_dispatch marks the schemas that the broker accepted, with the time of the wave, when it
  -- returns and the wave is that of a calendar entry, and else leaves the table as it is.
  pub sub_dispatch_lem :
      (e : Entry) (caller : Option Headers) (b : Batch) (w : World B)
      → Marks e b.run_ts w.rows (sub_dispatch send e caller b w)
  unfolding sub_dispatch
  sub_dispatch_lem e caller b w =
      let (o, w') = send_loop send caller b.schemas w in
      marked e b.run_ts o w' w.rows ((send_loop-Still caller b.schemas w.rows).at w refl)

  ok-Marks :
      (e : Entry) (ts : ℕ) (rows : List TaskRun) (sent : List Text)
      (r : Outcome SendError (List Text) × World B)
      → r.0 ≡ ok sent
      → Marks e (some ts) rows r
      → r.1.rows ≡ mark_ran e ts sent rows
  ok-Marks e ts rows sent (ok xs, w) h m =
      let same : xs ≡ sent = cc (h) in m ∙ ap (λ ys. mark_ran e ts ys rows) same
  ok-Marks e ts rows sent (raise x, w) h m = absurd (cc)

  -- A calendar occurrence that was sent is not due again: once sub_dispatch returns with the
  -- schemas that the broker accepted, no later tick finds the entry due for one of them, until an
  -- occurrence later than the tick that sent it, in one of the time zones listed for the schema.
  pub sub_dispatch-not_due :
      (κ : Calendar) (e : Entry) (cron : Text) (caller : Option Headers) (b : Batch) (w : World B)
      (now now' grace : ℕ) (tenants : List (Text × Text)) (sent : List Text) (schema : Text)
      → b.run_ts ≡ some now
      → (sub_dispatch send e caller b w).0 ≡ ok sent
      → elem schema sent ≡ true
      → ((name : Text) (tz : κ.Zone)
          → elem name (zones_of κ schema tenants) ≡ true
          → κ.zone name ≡ some tz
          → κ.get_prev cron tz now' ≤ now)
      → elem schema
          (due_by_tenant_tz κ e cron now' grace tenants (sub_dispatch send e caller b w).1.rows)
        ≡ false
  sub_dispatch-not_due κ e cron caller b w now now' grace tenants sent schema ts h m settled =
      let r = sub_dispatch send e caller b w in
      let marks : Marks e (some now) w.rows r =
        subst (λ t. Marks e t w.rows r) ts (sub_dispatch_lem e caller b w) in
      rw (ok-Marks e now w.rows sent r h marks)
        (due-mark_ran κ e cron now now' grace tenants w.rows sent schema m settled)

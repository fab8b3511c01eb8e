-- ===== src/Fanout/Dispatch.antt =====
-- tenants/celery/dispatch.py: fanout_dispatch with its lock, _fan_out, and sub_dispatch. The broker
-- and the lock of redis-py are parameters; args_sig is the one that argsig gave.
pub mod Laws
pub mod Batches
use mt_shards_back_test.Base.{
  ℕ, zero, suc, Bool, true, false, ◌==◌, Option, none, some, Text, codes, text_eq, length,
  if◌then◌else◌, List, [], ◌∷◌, ◌++◌,
}
use mt_shards_back_test.Base.Exec.{Exec, pure, throw, gets, modify, finally, catch, ◌>>=◌, ◌>>◌}
use mt_shards_back_test.Fanout.Watermark.{Entry, TaskRun, mark_ran}
use mt_shards_back_test.Fanout.Due.{Calendar, due_by_tenant_tz}

abbrev pub take : {A : Type 0} → ℕ → List A → List A
take zero xs = []
take (suc n) [] = []
take (suc n) (x ∷ xs) = x ∷ take n xs

abbrev pub drop : {A : Type 0} → ℕ → List A → List A
drop zero xs = xs
drop (suc n) [] = []
drop (suc n) (x ∷ xs) = drop n xs

-- due[i:i + batch_size] for i in range(0, len(due), batch_size), on fuel. A batch size of 0, for which
-- range raises, is not represented.
unfoldable pub slices : ℕ → ℕ → List Text → List (List Text)
slices fuel size [] = []
slices zero size (x ∷ xs) = []
slices (suc fuel) size (x ∷ xs) =
    let rest = slices fuel size (drop size (x ∷ xs)) in take size (x ∷ xs) ∷ rest

unfoldable pub batches : ℕ → List Text → List (List Text)
unfolding slices
batches size xs = slices (length xs) size xs

-- `batch_size or beat_conf("BATCH_SIZE")`
abbrev pub or_number : Option ℕ → ℕ → ℕ
or_number none d = d
or_number (some n) d = if n == 0 then d else n

abbrev pub or_given : Option ℕ → ℕ → ℕ
or_given none d = d
or_given (some n) d = n

-- The arguments of a sub_dispatch that differ between batches and waves.
pub record Batch : Type 0 where
  pub schemas : List Text
  pub run_ts : Option ℕ

-- TENANT_BEAT
pub record BeatConf : Type 0 where
  pub batch_size : ℕ
  pub tz_grace : ℕ

pub record Request : Type 0 where
  pub entry : Entry
  pub cron : Option Text
  pub grace : Option ℕ
  pub batch_size : Option ℕ

-- What a tick reads: the clock, the two lists of tenants, the table.
pub record Tick : Type 0 where
  pub now : ℕ
  pub active : List Text
  pub with_tz : List (Text × Text)
  pub rows : List TaskRun

module _ (κ : Calendar) (conf : BeatConf) where
  abbrev pub due_for : Request → Option Text → Tick → List Text
  due_for r none t = t.active
  due_for r (some cron) t =
      due_by_tenant_tz κ r.entry cron t.now (or_given r.grace conf.tz_grace) t.with_tz t.rows

  abbrev pub run_ts_of : Option Text → Tick → Option ℕ
  run_ts_of none t = none
  run_ts_of (some cron) t = some t.now

  abbrev pub truthy : Option Text → Option Text
  truthy none = none
  truthy (some []) = none
  truthy (some (c ∷ cron)) = some (c ∷ cron)

  abbrev pub as_batches : Option ℕ → List (List Text) → List Batch
  as_batches ts [] = []
  as_batches ts (b ∷ bs) = record { schemas = b; run_ts = ts } ∷ as_batches ts bs

  -- The sub_dispatch calls of a wave.
  unfoldable pub wave : Request → Tick → List Batch
  unfolding batches due_by_tenant_tz
  wave r t =
      as_batches (run_ts_of (truthy r.cron) t)
        (batches (or_number r.batch_size conf.batch_size) (due_for r (truthy r.cron) t))

-- `tick` reads, `delay` enqueues a batch, `swallowed` tells LockError and RedisError.
module _ {X S : Type 0} (κ : Calendar) (conf : BeatConf) (tick : S → Tick)
    (delay : Batch → Exec X S (Unit {0})) (acquire : Exec X S Bool) (release : Exec X S (Unit {0}))
    (swallowed : X → Bool) where
  unfoldable pub delay_all : List Batch → Exec X S (Unit {0})
  unfolding pure ◌>>=◌
  delay_all [] = pure tt
  delay_all (b ∷ bs) = delay b >> delay_all bs

  -- The number of tenants fanned out to.
  unfoldable pub fan_out : Request → Exec X S ℕ
  unfolding delay_all wave ◌>>=◌
  fan_out r = gets tick >>= λ t.
      delay_all (wave κ conf r t) >> pure (length (due_for κ conf r (truthy κ conf r.cron) t))

  unfoldable pub release_quietly : Exec X S (Unit {0})
  unfolding catch throw pure
  release_quietly = catch release (λ x. if swallowed x then pure tt else throw x)

  abbrev pub with_lock : Request → Bool → Exec X S (Option ℕ)
  with_lock r false = pure none
  with_lock r true = finally (fan_out r >>= λ n. pure (some n)) (λ _. release_quietly)

  -- `none` is the skip of an overlapping wave.
  unfoldable pub fanout_dispatch : Request → Exec X S (Option ℕ)
  unfolding fan_out release_quietly finally ◌>>=◌
  fanout_dispatch r = acquire >>= with_lock r

abbrev pub Headers : Type 0
Headers = List (Text × Text)

-- {**headers, key: value}
unfoldable pub with_header : Text → Text → Headers → Headers
with_header key value [] = (key, value) ∷ []
with_header key value ((k, v) ∷ rest) =
    let others = with_header key value rest in
    if text_eq k key then ((key, value) ∷ rest) else ((k, v) ∷ others)

unfoldable pub header : Text → Headers → Option Text
header key [] = none
header key ((k, v) ∷ rest) = if text_eq k key then some v else header key rest

abbrev pub schema_header : Text
schema_header = codes "_schema_name"

abbrev pub headers_or_empty : Option Headers → Headers
headers_or_empty none = []
headers_or_empty (some hs) = hs

-- What send_task did: it returned, raised OperationalError, or anything else.
pub data Sending : Type 0 where
  accepted operational_error fatal : Sending

-- The broker and the table of watermarks.
pub record World (B : Type 0) : Type 0 where
  pub broker : B
  pub rows : List TaskRun

pub data SendError : Type 0 where
  not_retryable : SendError

module _ {B : Type 0} (send : Headers → B → Sending × B) where
  abbrev pub on_sending : Sending → Exec SendError (World B) Bool
  on_sending accepted = pure true
  on_sending operational_error = pure false
  on_sending fatal = throw not_retryable

  abbrev pub put_broker : Headers → World B → Sending × World B
  put_broker hs w = let (o, b) = send hs w.broker in (o, record w { broker = b })

  unfoldable pub send_task : Option Headers → Text → Exec SendError (World B) Bool
  unfolding with_header pure throw modify ◌>>=◌
  send_task caller schema =
      modify (put_broker (with_header schema_header schema (headers_or_empty caller)))
      >>= on_sending

  abbrev pub collect_sent : Text → Bool → List Text → List Text
  collect_sent schema true sent = schema ∷ sent
  collect_sent schema false sent = sent

  -- The loop: the schemas that the broker accepted.
  unfoldable pub send_loop : Option Headers → List Text → Exec SendError (World B) (List Text)
  unfolding send_task pure ◌>>=◌
  send_loop caller [] = pure []
  send_loop caller (s ∷ ss) = send_task caller s >>= λ accepted.
      send_loop caller ss >>= λ sent. pure (collect_sent s accepted sent)

  abbrev pub mark : Entry → Option ℕ → List Text → Exec SendError (World B) (Unit {0})
  mark e none sent = pure tt
  mark e (some ts) sent = modify (λ w. (tt, record w { rows = mark_ran e ts sent w.rows }))

  -- The schemas sent; the source returns their number and that of the schemas requested.
  unfoldable pub sub_dispatch :
      Entry → Option Headers → Batch → Exec SendError (World B) (List Text)
  unfolding send_loop mark_ran modify pure ◌>>=◌
  sub_dispatch e caller b = send_loop caller b.schemas >>= λ sent. mark e b.run_ts sent >> pure sent

-- ===== src/Migrator/Env/Steps.antt =====
-- tenants/migrator.py: the helpers that the migration algorithms call.
use mt_shards_back_test.Base.{
  ℕ, Bool, true, false, not, ◌&&◌, ◌||◌, Option, none, some, List, [], ◌∷◌, Text, text_eq, elem,
  if◌then◌else◌, ltb, any,
}
use mt_shards_back_test.Base.Exec.{pure, throw, gets, modify, catch, finally, ◌>>=◌, ◌>>◌}
use mt_shards_back_test.Migrator.Db.{Db, TenantRow, Status, new, pending, active, deactivated}
use mt_shards_back_test.Migrator.Lease.{
  LeaseHolder, lease_holder, upsert, lease_release, Fields, fenced_cas,
}
use mt_shards_back_test.Migrator.Errors.{
  Exn, exc, interrupt, Chain, Kind, shard_unavailable, tenant_missing, is_conn_error, Link,
}
use mt_shards_back_test.Migrator.Env.{Env, Act, PlanStep, Applied, RunOptions}

-- PROVISIONABLE and UPGRADABLE
abbrev pub provisionable : List Status
provisionable = new ∷ pending ∷ []

abbrev pub upgradable_statuses : List Status
upgradable_statuses = active ∷ deactivated ∷ []

abbrev pub truthy_text : Option Text → Bool
truthy_text none = false
truthy_text (some []) = false
truthy_text (some (c ∷ t)) = true

-- RunOptions.targeted
unfoldable pub targeted : RunOptions → Bool
targeted o =
    o.fake
    || (o.fake_initial
        || (o.prune || (o.run_syncdb || (truthy_text o.app_label || truthy_text o.migration_name))))

-- `except Exception as e`: an interrupt passes.
unfoldable pub except_exception : {A : Type 0} → (Kind → Chain → Act A) → Exn → Act A
except_exception h (exc k e) = h k e
except_exception h interrupt = throw interrupt

-- The refusals of lease_acquire: locked by a live owner; a backend still active while the lease is
-- free or expired; the lease changed hands.
pub data Refusal : Type 0 where
  locked_by : LeaseHolder → Refusal
  backend_active : Bool → Refusal
  changed_hands : Refusal

abbrev pub locked_msg : Option LeaseHolder → Refusal
locked_msg none = changed_hands
locked_msg (some h) = locked_by h

abbrev pub busy_msg : Option LeaseHolder → Refusal
busy_msg none = backend_active false
busy_msg (some h) = if h.expired then backend_active true else locked_by h

unfoldable pub lease_holder_now : Env → ℕ → Act (Option LeaseHolder)
lease_holder_now e key = do e.link; gets (lease_holder key)

-- ShardUnavailable raised from a connection error
abbrev pub bare : Link
bare = record { sqlstate = none; pgcode = none; driver = false }

unfoldable pub probe_failed : Kind → Chain → Act Bool
probe_failed k c =
    if is_conn_error c then throw (exc shard_unavailable (bare ∷ c)) else throw (exc k c)

unfoldable pub claim : Env → ℕ → Act (Option Refusal)
unfolding lease_holder_now
claim e key = do
  e.link
  won ← modify (upsert e.me key)
  if won then pure none else (do h ← lease_holder_now e key; pure (some (locked_msg h)))

unfoldable pub refuse_busy : Env → ℕ → Act (Option Refusal)
unfolding lease_holder_now
refuse_busy e key = do h ← lease_holder_now e key; pure (some (busy_msg h))

-- M1 first, for every acquisition: is a backend labelled tm:<key> still working on the shard?
unfoldable pub lease_acquire : Env → ℕ → Text → Act (Option Refusal)
unfolding probe_failed claim refuse_busy except_exception
lease_acquire e key alias = do
  e.link
  busy ← catch (e.session_active alias key) (except_exception probe_failed)
  if busy then refuse_busy e key else claim e key

unfoldable pub release : Env → ℕ → Act Bool
release e key = do e.link; modify (lease_release e.me key)

unfoldable pub cas : Env → ℕ → List Status → Fields → Act Bool
cas e pk expected f = do e.link; modify (fenced_cas e.me pk expected f)

abbrev pub note_forgotten : ℕ → Db → Unit {0} × Db
note_forgotten pk db = (tt, record db { forgotten = pk ∷ db.forgotten })

unfoldable pub forget : Env → ℕ → Act (Unit {0})
forget e pk = do e.link; e.forget_tenant pk; modify (note_forgotten pk)

unfoldable pub found : Option TenantRow → Act TenantRow
found none = throw (exc tenant_missing [])
found (some t) = pure t

unfoldable pub load : Env → ℕ → Act TenantRow
unfolding found
load e pk = do e.link; row ← gets (λ db. db.tenants pk); found row

-- [(app_label, name) for m, backwards in plan if not backwards]
unfoldable pub forward : List PlanStep → List (Text × Text)
forward [] = []
forward (m ∷ ms) = let rest = forward ms in if m.backwards then rest else (m.app, m.name) ∷ rest

-- none is MISSING.
unfoldable pub pending_plan : Env → TenantRow → Act (Option (List (Text × Text)))
pending_plan e t = do
  there ← e.schema_exists t.schema_name t.alias
  if not there
      then pure none
      else finally (do ms ← e.migration_plan t.alias t.schema_name; pure (some (forward ms)))
          (λ _. e.close_shard t.alias)

abbrev pub pair_eq : Text × Text → Text × Text → Bool
pair_eq (a, n) (b, m) = text_eq a b && text_eq n m

unfoldable pub is_known : List (Text × Text) → Applied → Bool
is_known known r = any (pair_eq (r.app, r.name)) known

unfoldable pub relevant : List Text → List Applied → List Applied
relevant apps [] = []
relevant apps (r ∷ rs) = let rest = relevant apps rs in if elem r.app apps then r ∷ rest else rest

abbrev pub later : ℕ → Option ℕ → Option ℕ
later n none = some n
later n (some m) = some (if ltb m n then n else m)

unfoldable pub latest_known : List (Text × Text) → List Applied → Option ℕ
latest_known known [] = none
latest_known known (r ∷ rs) =
    let rest = latest_known known rs in if is_known known r then later r.applied rest else rest

abbrev pub after : Option ℕ → ℕ → Bool
after none n = true
after (some m) n = ltb m n

-- Whether an unknown migration was applied after the newest known one.
unfoldable pub older : List (Text × Text) → List Text → List Applied → Bool
older known apps rs =
    let rel = relevant apps rs in
    any (λ r. not (is_known known r) && after (latest_known known rel) r.applied) rel

unfoldable pub code_older_than_db : Env → Act Bool
code_older_than_db e = do e.link; rs ← e.applied_migrations; pure (older e.known e.migrated_apps rs)

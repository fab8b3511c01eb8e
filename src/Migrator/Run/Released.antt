-- ===== src/Migrator/Run/Released.antt =====
-- The lease after a run of _migrate_tenant (tenants/migrator.py).
use mt_shards_back_test.Base.{
  [], ◌∷◌, ℕ, ◌≡◌, Bool, true, false, Option, none, some, Text, if◌then◌else◌, Bool-cases, inl, inr,
  List, ◌∷◌, ◌&&◌, not,
}
use mt_shards_back_test.Base.Exec.{ok, pure, ◌>>=◌, Outcome, raise}
use mt_shards_back_test.Base.Exec.Keeps.{Keeps, keeps_rules, Keeps-catch, Keeps-bind, Keeps-gets}
use mt_shards_back_test.Base.Exec.Ensures.{
  Ensures, Any, Ensures-pure, Ensures-gets, Ensures-modify, Ensures-if, Ensures-any, Ensures-Keeps,
  Ensures-bind, Ensures-finally, Ensures-throw, Ensures-weaken, Ends,
}
use mt_shards_back_test.Migrator.Db.{Db, TenantRow, holder, owned_by}
use mt_shards_back_test.Migrator.Errors.{Exn, exc, interrupt, Kind, Chain, is_conn_error}
use mt_shards_back_test.Migrator.Lease.{upsert, takes}
use mt_shards_back_test.Migrator.Lease.Laws.{release-free}
use mt_shards_back_test.Migrator.Env.{Env, Act, RunOptions}
use mt_shards_back_test.Migrator.Env.Steps.{
  release, except_exception, Refusal, claim, refuse_busy, lease_acquire, lease_holder_now,
  locked_msg, probe_failed, pending_plan, load, found, targeted,
}
use mt_shards_back_test.Migrator.Run.Result.{
  Result, try_then, gate, upgradable, failure, rethrow, lost_conn, r,
}
use mt_shards_back_test.Migrator.Run.Tenant.{
  release_quietly, leave, under_lease, acquired, with_lease, loaded, migrate_tenant, acquire_failed,
  shortcut, shortcut_failed, load_failed,
}
use mt_shards_back_test.Migrator.Run.Fence.{Around}
use mt_shards_back_test.Migrator.Run.Result.{Side, ResultKind, Reason}
use mt_shards_back_test.Migrator.Run.Try.{Ensures-try}

-- `pk` is not leased to `me`.
abbrev pub Free : Text → ℕ → Db → Type 0
Free me pk db = owned_by me (holder db pk) ≡ false

module _ (e : Env) (up : (db : Db) → (e.link db).0 ≡ ok tt) (pk : ℕ) (opts : RunOptions) where
  -- `default` answers, so the release is reached and done.
  release_quietly-Free : Ensures Any (release_quietly e pk opts) (λ _. Free e.me pk) Any
  unfolding release_quietly release except_exception ◌>>=◌
  release_quietly-Free = record { at = λ db _. rw (up db) (release-free e.me pk (e.link db).1) }

  leave-Free :
      (t : TenantRow) (res : Result)
      → Ensures Any (leave e pk opts t (ok res)) (λ _. Free e.me pk) Any
  unfolding leave
  leave-Free t res =
      Ensures-bind (λ _. Any) _ _ (Ensures-any _)
        (λ idle. Ensures-bind (λ _. Any) _ _ (Ensures-any _) (λ _. release_quietly-Free))

  under_lease-Free : (t : TenantRow) → Ensures Any (under_lease e pk opts t) (λ _. Free e.me pk) Any
  unfolding under_lease
  under_lease-Free t = Ensures-finally _ _ (leave-Free t)

-- The lease was refused, and `pk` is not leased to `me`.
abbrev Left : Text → ℕ → Option Refusal → Db → Type 0
Left me pk none db = Unit {0}
Left me pk (some refused) db = Free me pk db

-- What the upsert leaves, by whether it won.
abbrev Won : Text → ℕ → Bool → Db → Type 0
Won me pk true db = Unit {0}
Won me pk false db = Free me pk db

upsert-Won :
    (me : Text) (pk : ℕ) (db : Db)
    → Free me pk db
    → Won me pk (upsert me pk db).0 (upsert me pk db).1
unfolding upsert
upsert-Won me pk db h = elim (Bool-cases (takes db.now (holder db pk))) [
  | inl y ↦ rw (y, upsert) tt
  | inr n ↦ rw (n, upsert) h
]

module _ (e : Env) (pk : ℕ) (a : Around e (Free e.me pk)) where
  holder_now-Free :
      Ensures (Free e.me pk) (lease_holder_now e pk) (λ _. Free e.me pk) (Free e.me pk)
  unfolding lease_holder_now
  holder_now-Free =
      Ensures-bind (λ _. Free e.me pk) _ _ (Ensures-Keeps _ a.link) (λ _. Ensures-gets _ (λ _ h. h))

  upserted-Won :
      (db : Db) → Free e.me pk db → Won e.me pk (upsert e.me pk db).0 (upsert e.me pk db).1
  upserted-Won db h = upsert-Won e.me pk db h

  after_upsert :
      (won : Bool)
      → Ensures
          (Won e.me pk won)
          (if won then pure none else (lease_holder_now e pk >>= λ h. pure (some (locked_msg h))))
          (Left e.me pk)
          (Free e.me pk)
  after_upsert true = Ensures-pure _ (λ _ _. tt)
  after_upsert false =
      Ensures-bind (λ _. Free e.me pk) _ _ holder_now-Free (λ h. Ensures-pure _ (λ _ k. k))

  claim-Left : Ensures (Free e.me pk) (claim e pk) (Left e.me pk) (Free e.me pk)
  unfolding claim
  claim-Left =
      Ensures-bind (λ _. Free e.me pk) _ _ (Ensures-Keeps _ a.link)
        (λ _. Ensures-bind (Won e.me pk) _ _ (Ensures-modify _ upserted-Won) after_upsert)

  refuse_busy-Left : Ensures (Free e.me pk) (refuse_busy e pk) (Left e.me pk) (Free e.me pk)
  unfolding refuse_busy
  refuse_busy-Left =
      Ensures-bind (λ _. Free e.me pk) _ _ holder_now-Free (λ h. Ensures-pure _ (λ _ k. k))

  probe-Keeps : (k : Kind) (c : Chain) → Keeps (Free e.me pk) (probe_failed k c)
  unfolding probe_failed
  probe-Keeps k c = search keeps_rules

  probed-Keeps : (x : Exn) → Keeps (Free e.me pk) (except_exception probe_failed x)
  unfolding except_exception
  probed-Keeps (exc k c) = probe-Keeps k c
  probed-Keeps interrupt = search keeps_rules

  lease_acquire-Left :
      (alias : Text)
      → Ensures (Free e.me pk) (lease_acquire e pk alias) (Left e.me pk) (Free e.me pk)
  unfolding lease_acquire
  lease_acquire-Left alias =
      Ensures-bind (λ _. Free e.me pk) _ _ (Ensures-Keeps _ a.link)
        (λ _.
          Ensures-bind (λ _. Free e.me pk) _ _
            (Ensures-Keeps _ (Keeps-catch _ _ (a.session_active alias pk) probed-Keeps))
            (λ busy. Ensures-if busy _ _ (λ _. refuse_busy-Left) (λ _. claim-Left)))

  pending-Keeps : (t : TenantRow) → Keeps (Free e.me pk) (pending_plan e t)
  unfolding pending_plan
  pending-Keeps t = search (keeps_rules, a.schema_exists, a.migration_plan, a.close_shard)

  failed-Keeps : (t : TenantRow) (k : Kind) (c : Chain) → Keeps (Free e.me pk) (failure e t k c)
  unfolding failure
  failed-Keeps t k c = search (keeps_rules, a.close_shard, a.invalid_indexes)

  found_row-Keeps : (o : Option TenantRow) → Keeps (Free e.me pk) (found o)
  unfolding found
  found_row-Keeps none = search keeps_rules
  found_row-Keeps (some t) = search keeps_rules

  load_row-Keeps : Keeps (Free e.me pk) (load e pk)
  unfolding load
  load_row-Keeps = Keeps-bind _ _ a.link (λ _. Keeps-bind _ _ (Keeps-gets _) found_row-Keeps)

  module _ (up : (db : Db) → (e.link db).0 ≡ ok tt) (opts : RunOptions) where
    acquired-Free :
        (t : TenantRow) (o : Option Refusal)
        → Ensures (Left e.me pk o) (acquired e pk opts t o) (λ _. Free e.me pk) Any
    unfolding acquired
    acquired-Free t none = under_lease-Free e up pk opts t
    acquired-Free t (some held) = Ensures-pure _ (λ _ h. h)

    lost_or_raised :
        (b : Bool) (res : Result) (k : Kind) (c : Chain)
        → Ensures (Free e.me pk) (if b then pure res else rethrow k c) (λ _. Free e.me pk) Any
    unfolding rethrow
    lost_or_raised true res k c = Ensures-pure _ (λ _ h. h)
    lost_or_raised false res k c = Ensures-throw _ (λ _ _. tt)

    acquire_failed-Free :
        (k : Kind) (c : Chain)
        → Ensures (Free e.me pk) (acquire_failed e pk opts k c) (λ _. Free e.me pk) Any
    unfolding acquire_failed rethrow
    acquire_failed-Free Kind.shard_unavailable c = Ensures-pure _ (λ _ h. h)
    acquire_failed-Free _ c = lost_or_raised (is_conn_error c) (lost_conn Side.default) _ c

    with_lease-Free :
        (t : TenantRow) → Ensures (Free e.me pk) (with_lease e pk opts t) (λ _. Free e.me pk) Any
    unfolding with_lease
    with_lease-Free t =
        Ensures-try (Left e.me pk) _ _ _ (lease_acquire-Left t.alias) acquire_failed-Free
          (acquired-Free t) (λ _ _. tt)

    returned :
        {A : Type 0} (m : Act A)
        → Keeps (Free e.me pk) m
        → Ensures (Free e.me pk) m (λ _. Free e.me pk) Any
    returned m k = Ensures-weaken m (λ _ h. h) (λ _ _ h. h) (λ _ _. tt) (Ensures-Keeps m k)

    shortcut_failed-Free :
        (t : TenantRow) (k : Kind) (c : Chain)
        → Ensures (Free e.me pk) (shortcut_failed e pk opts t k c) (λ _. Free e.me pk) Any
    unfolding shortcut_failed
    shortcut_failed-Free t k c =
        Ensures-if (is_conn_error c) (pure (lost_conn Side.shard)) (failure e t k c)
          (λ _. Ensures-pure _ (λ _ h. h)) (λ _. returned _ (failed-Keeps t k c))

    shortcut-Free :
        (t : TenantRow) (o : Option (List (Text × Text)))
        → Ensures (Free e.me pk) (shortcut e pk opts t o) (λ _. Free e.me pk) Any
    unfolding shortcut
    shortcut-Free t none = with_lease-Free t
    shortcut-Free t (some []) = Ensures-pure _ (λ _ h. h)
    shortcut-Free t (some (m ∷ ms)) = with_lease-Free t

    gated-Free :
        (o : Option Result) (m : Act Result)
        → Ensures (Free e.me pk) m (λ _. Free e.me pk) Any
        → Ensures
            (Free e.me pk)
            (elim o [ some gated ↦ pure gated | none ↦ m ])
            (λ _. Free e.me pk)
            Any
    gated-Free none m k = k
    gated-Free (some res) m k = Ensures-pure res (λ _ h. h)

    loaded-Free :
        (t : TenantRow) → Ensures (Free e.me pk) (loaded e pk opts t) (λ _. Free e.me pk) Any
    unfolding loaded
    loaded-Free t =
        Ensures-if t.shard_is_default (pure (r ResultKind.failed Reason.default_shard_anomaly)) _
          (λ _. Ensures-pure _ (λ _ h. h))
          (λ _. gated-Free (gate opts t) _ (
            Ensures-if (upgradable opts t && not (targeted opts))
              (try_then (pending_plan e t) (shortcut_failed e pk opts t) (shortcut e pk opts t))
              (with_lease e pk opts t)
              (λ _.
                Ensures-try (λ _. Free e.me pk) _ _ _ (Ensures-Keeps _ (pending-Keeps t))
                  (shortcut_failed-Free t) (shortcut-Free t) (λ _ _. tt))
              (λ _. with_lease-Free t)))

    load_failed-Free :
        (k : Kind) (c : Chain)
        → Ensures (Free e.me pk) (load_failed e pk opts k c) (λ _. Free e.me pk) Any
    unfolding load_failed rethrow
    load_failed-Free Kind.tenant_missing c = Ensures-pure _ (λ _ h. h)
    load_failed-Free _ c = lost_or_raised (is_conn_error c) (lost_conn Side.default) _ c

    run-Free : Ensures (Free e.me pk) (migrate_tenant e pk opts) (λ _. Free e.me pk) Any
    unfolding migrate_tenant
    run-Free =
        Ensures-try (λ _. Free e.me pk) _ _ _ (Ensures-Keeps _ load_row-Keeps) load_failed-Free
          loaded-Free (λ _ _. tt)

returned-Free :
    (me : Text) (pk : ℕ) (o : Outcome Exn Result) (db : Db) (res : Result)
    → o ≡ ok res
    → Ends (λ _. Free me pk) Any o db
    → Free me pk db
returned-Free me pk (ok a) db res h k = k
returned-Free me pk (raise x) db res h k = absurd (cc)

-- A run that starts without the lease and returns a result ends without it, whatever the result is:
-- if `default` answers at each access, and nothing around the run hands the lease to this process.
pub migrate_tenant-released :
    (e : Env) (pk : ℕ) (opts : RunOptions) (db : Db) (res : Result)
    → ((d : Db) → (e.link d).0 ≡ ok tt)
    → Around e (Free e.me pk)
    → owned_by e.me (holder db pk) ≡ false
    → (migrate_tenant e pk opts db).0 ≡ ok res
    → owned_by e.me (holder (migrate_tenant e pk opts db).1 pk) ≡ false
migrate_tenant-released e pk opts db res up a h k =
    let (o, db') = migrate_tenant e pk opts db in
    returned-Free e.me pk o db' res k ((run-Free e pk a up opts).at db h)

-- ===== src/Migrator/Run/Safety.antt =====
-- What a whole run of `migrate_tenant` may do to the rows of the tenants.
use mt_shards_back_test.Base.{
  ℕ, ◌≡◌, ◌≢◌, refl, sym, Bool, true, false, inl, inr, Option, none, some, List, Text, arith,
  ==_iff, &&-eq-true, Bool-cases, ◌&&◌,
}
use mt_shards_back_test.Base.Exec.Keeps.{Keeps}
use mathlib.Core.Path.{subst}
use mt_shards_back_test.Migrator.Db.{
  Db, TenantRow, Status, status_in, status_eq, holder, owned_by, put_at,
}
use mt_shards_back_test.Migrator.Lease.{
  Fields, fenced_cas, upsert, lease_release, write_status, in_group, map_row,
}
use mt_shards_back_test.Migrator.Env.{Env, Act, RunOptions}
use mt_shards_back_test.Migrator.Run.Tenant.{migrate_tenant}
use mt_shards_back_test.Migrator.Run.Fence.{Write, Around}
use mt_shards_back_test.Migrator.Run.Fence.Tenant.{migrate_tenant-Keeps}

abbrev pub Rows : Type 0
Rows = ℕ → Option TenantRow

-- No surrounding action writes a tenant's row; leases and the clock may change in any way.
pub record Undisturbed (e : Env) : Type 0 where
  pub at : (rows : Rows) → Around e (λ db. db.tenants ≡ rows)

pub keeps_rows :
    {A : Type 0} (Q : Rows → Type 0) (m : Act A)
    → ((rows : Rows) → Keeps (λ db. db.tenants ≡ rows) m)
    → Keeps (λ db. Q db.tenants) m
keeps_rows Q m k = record { at = λ s q. subst Q (sym ((k s.tenants).at s refl)) q }

pub around_rows : (e : Env) (Q : Rows → Type 0) → Undisturbed e → Around e (λ db. Q db.tenants)
around_rows e Q u = record {
  link = keeps_rows Q _ (λ rows. (u.at rows).link);
  session_active = λ a k. keeps_rows Q _ (λ rows. (u.at rows).session_active a k);
  schema_exists = λ a s. keeps_rows Q _ (λ rows. (u.at rows).schema_exists a s);
  migration_plan = λ a s. keeps_rows Q _ (λ rows. (u.at rows).migration_plan a s);
  has_relations = λ a s. keeps_rows Q _ (λ rows. (u.at rows).has_relations a s);
  shard_cursor = λ a. keeps_rows Q _ (λ rows. (u.at rows).shard_cursor a);
  create_schema = λ a s. keeps_rows Q _ (λ rows. (u.at rows).create_schema a s);
  open_shard = λ a k. keeps_rows Q _ (λ rows. (u.at rows).open_shard a k);
  close_shard = λ a. keeps_rows Q _ (λ rows. (u.at rows).close_shard a);
  run_migrations = λ a s o. keeps_rows Q _ (λ rows. (u.at rows).run_migrations a s o);
  invalid_indexes = λ a s. keeps_rows Q _ (λ rows. (u.at rows).invalid_indexes a s);
  forget_tenant = λ k. keeps_rows Q _ (λ rows. (u.at rows).forget_tenant k);
  applied_migrations = keeps_rows Q _ (λ rows. (u.at rows).applied_migrations);
}

-- The rows that a row can become by the migrator's status writes.
pub data Moves (o : Option TenantRow) : Option TenantRow → Type 0 where
  stay : Moves o o
  move :
      {u : TenantRow} {expected : List Status} {f : Fields}
      → Moves o (some u)
      → Write expected f
      → status_in u.status expected ≡ true
      → (now : ℕ) → Moves o (some (write_status now f u))

pub record Moved (pk : ℕ) (before after : Rows) : Type 0 where
  pub others : (j : ℕ) → pk ≢ j → after j ≡ before j
  pub own : Moves (before pk) (after pk)

own-Moves :
    {o : Option TenantRow} {expected : List Status} {f : Fields} (row : Option TenantRow) (now : ℕ)
    → Write expected f
    → in_group expected row ≡ true
    → Moves o row
    → Moves o (map_row (write_status now f) row)
own-Moves none now w h m = absurd (ground arith)
own-Moves (some t) now w h m = move m w h now

pub put_at_self : {A : Type 0} (k : ℕ) (f : ℕ → A) (v : A) → put_at f k v k ≡ v
put_at_self k f v = ground (arith, ==_iff k k)

pub put_at_ne : {A : Type 0} (k j : ℕ) (f : ℕ → A) (v : A) → k ≢ j → put_at f k v j ≡ f j
put_at_ne k j f v ne = ground (arith, ==_iff k j)

cas-Moved :
    (me : Text) (pk : ℕ) (before : Rows) (expected : List Status) (f : Fields)
    → Write expected f
    → (db : Db) → Moved pk before db.tenants
    → Moved pk before (fenced_cas me pk expected f db).1.tenants
unfolding fenced_cas
cas-Moved me pk before expected f w db m =
    elim (Bool-cases (in_group expected (db.tenants pk) && owned_by me (holder db pk))) [
      | inl y ↦
          let (g, o) =
            &&-eq-true (in_group expected (db.tenants pk)) (owned_by me (holder db pk)) y in
          rw (y, fenced_cas)
            (record {
              others = λ j ne. rw (put_at_ne pk j db.tenants _ ne) (m.others j ne);
              own = rw (put_at_self pk db.tenants _) (own-Moves (db.tenants pk) db.now w g m.own);
            })
      | inr n ↦ rw (n, fenced_cas) m
    ]

upsert-tenants : (me : Text) (pk : ℕ) (db : Db) → (upsert me pk db).1.tenants ≡ db.tenants
unfolding upsert
upsert-tenants me pk db = ground arith

release-tenants : (me : Text) (pk : ℕ) (db : Db) → (lease_release me pk db).1.tenants ≡ db.tenants
unfolding lease_release
release-tenants me pk db = ground arith

upsert-Moved :
    (me : Text) (pk : ℕ) (before : Rows) (db : Db)
    → Moved pk before db.tenants
    → Moved pk before (upsert me pk db).1.tenants
upsert-Moved me pk before db m = rw (upsert-tenants me pk db) m

release-Moved :
    (me : Text) (pk : ℕ) (before : Rows) (db : Db)
    → Moved pk before db.tenants
    → Moved pk before (lease_release me pk db).1.tenants
release-Moved me pk before db m = rw (release-tenants me pk db) m

-- In surroundings that write no tenant's row, whatever they raise and whatever happens to the
-- leases, a run changes no other tenant's row, and its own only by the status writes of `Write`,
-- each from a status that it expects: on every path, exceptions and interrupts included.
pub migrate_tenant-Moved :
    (e : Env) (pk : ℕ) (opts : RunOptions) (db : Db)
    → Undisturbed e
    → Moved pk db.tenants (migrate_tenant e pk opts db).1.tenants
migrate_tenant-Moved e pk opts db u =
    (migrate_tenant-Keeps {P = λ db'. Moved pk db.tenants db'.tenants}
        (record {
          around = around_rows e (Moved pk db.tenants) u;
          takes = λ d m. upsert-Moved e.me pk db.tenants d m;
          gives = λ d m. release-Moved e.me pk db.tenants d m;
          notes = λ d m. m;
          writes = cas-Moved e.me pk db.tenants;
        })
        opts).at
      db (record { others = λ j ne. refl; own = Moves.stay })

-- Where a run may leave a tenant, by where it found it.
abbrev pub may_end : Status → Status → Bool
may_end Status.new Status.new = true
may_end Status.new Status.pending = true
may_end Status.new Status.active = true
may_end Status.new Status.failed = true
may_end Status.pending Status.pending = true
may_end Status.pending Status.active = true
may_end Status.pending Status.failed = true
may_end Status.active Status.active = true
may_end Status.active Status.failed = true
may_end Status.deactivated Status.deactivated = true
may_end Status.deactivated Status.failed = true
may_end Status.failed Status.failed = true
may_end Status.maintenance Status.maintenance = true
may_end _ _ = false

may_end_refl : (s : Status) → may_end s s ≡ true
may_end_refl Status.new = refl
may_end_refl Status.pending = refl
may_end_refl Status.active = refl
may_end_refl Status.deactivated = refl
may_end_refl Status.failed = refl
may_end_refl Status.maintenance = refl

may_end-write :
    {expected : List Status} {f : Fields} (s u : Status)
    → Write expected f
    → status_in u expected ≡ true
    → may_end s u ≡ true
    → may_end s f.status ≡ true
unfolding status_in status_eq
may_end-write s u Write.claimed h k = ground arith
may_end-write s u Write.activated h k = ground arith
may_end-write s u Write.foreign h k = ground arith
may_end-write s u Write.broken h k = ground arith
may_end-write s u (Write.gone g i) h k = ground arith

-- The rest of the row: what no status write touches.
abbrev pub SameSite : TenantRow → TenantRow → Type 0
SameSite t u =
    (u.schema_name ≡ t.schema_name)
    × (u.alias ≡ t.alias)
    × (u.shard_is_default ≡ t.shard_is_default)

Moves-may_end :
    (t : TenantRow) {r : Option TenantRow}
    → Moves (some t) r
    → (u : TenantRow) × (r ≡ some u) × (may_end t.status u.status ≡ true) × SameSite t u
Moves-may_end t stay = (t, refl, may_end_refl t.status, (refl, refl, refl))
Moves-may_end t (move {u} {expected} {f} m w h now) =
    let (v, e, a, b) = Moves-may_end t m in
    let same : u ≡ v = cc in
    (write_status now f u, refl, may_end-write t.status u.status w h (rw same a), rw same b)

-- A run leaves the tenant that it finds, on the same shard and schema, in a status that the table
-- `may_end` allows: provisioning goes from NEW or PENDING to ACTIVE or FAILED, an upgrade can only
-- turn ACTIVE or DEACTIVATED into FAILED, and FAILED and MAINTENANCE stay.
pub migrate_tenant_end :
    (e : Env) (pk : ℕ) (opts : RunOptions) (db : Db) (t : TenantRow)
    → Undisturbed e
    → db.tenants pk ≡ some t
    → (u : TenantRow) × ((migrate_tenant e pk opts db).1.tenants pk ≡ some u)
      × (may_end t.status u.status ≡ true)
      × SameSite t u
migrate_tenant_end e pk opts db t q h = Moves-may_end t (
    subst (λ o. Moves o ((migrate_tenant e pk opts db).1.tenants pk)) h
      (migrate_tenant-Moved e pk opts db q).own)

-- ===== src/Migrator/Run/Locked.antt =====
-- A run of `migrate_tenant` on a tenant whose lease another process holds.
use mt_shards_back_test.Base.{ℕ, ◌≤◌, ◌≡◌, ◌≢◌, false, some, List, Text, arith, text_eq_iff, ◌&&◌}
use mt_shards_back_test.Migrator.Db.{Db, Holder, Status, holder, owned_by}
use mt_shards_back_test.Migrator.Lease.{Fields, fenced_cas, upsert, lease_release, takes, in_group}
use mt_shards_back_test.Migrator.Env.{Env, RunOptions}
use mt_shards_back_test.Migrator.Run.Tenant.{migrate_tenant}
use mt_shards_back_test.Migrator.Run.Fence.{Around}
use mt_shards_back_test.Migrator.Run.Fence.Tenant.{migrate_tenant-Keeps}
use mt_shards_back_test.Migrator.Run.Safety.{Rows}

-- Another process holds the lease of `pk` and its time is not over.
pub record HeldByOther (me : Text) (pk : ℕ) (h : Holder) (rows : Rows) (db : Db) : Type 0 where
  pub held : holder db pk ≡ some h
  pub lives : db.now ≤ h.until
  pub rows_stand : db.tenants ≡ rows

module _ (me : Text) (pk : ℕ) (h : Holder) (rows : Rows) (ne : h.owner ≢ me) where
  claim-HeldByOther :
      (db : Db) → HeldByOther me pk h rows db → HeldByOther me pk h rows (upsert me pk db).1
  unfolding upsert
  claim-HeldByOther db o =
      let held = o.held in
      let lives = o.lives in
      let no : takes db.now (holder db pk) ≡ false = rw held (unfold takes in ground arith) in
      rw (no, upsert) o

  release-HeldByOther :
      (db : Db) → HeldByOther me pk h rows db → HeldByOther me pk h rows (lease_release me pk db).1
  unfolding lease_release
  release-HeldByOther db o =
      let held = o.held in
      let no : owned_by me (holder db pk) ≡ false =
        rw held (ground (arith, text_eq_iff h.owner me)) in
      rw (no, lease_release) o

  cas-HeldByOther :
      (expected : List Status) (f : Fields) (db : Db)
      → HeldByOther me pk h rows db
      → HeldByOther me pk h rows (fenced_cas me pk expected f db).1
  unfolding fenced_cas
  cas-HeldByOther expected f db o =
      let held = o.held in
      let no : (in_group expected (db.tenants pk) && owned_by me (holder db pk)) ≡ false =
        rw held (ground (arith, text_eq_iff h.owner me)) in
      rw (no, fenced_cas) o

-- While another process keeps a live lease on the tenant, a run leaves every tenant's row and that
-- lease as they are, whatever its surroundings raise.
pub migrate_tenant-locked :
    (e : Env) (pk : ℕ) (opts : RunOptions) (db : Db) (h : Holder) (rows : Rows)
    → h.owner ≢ e.me
    → Around e (HeldByOther e.me pk h rows)
    → HeldByOther e.me pk h rows db
    → HeldByOther e.me pk h rows (migrate_tenant e pk opts db).1
migrate_tenant-locked e pk opts db h rows ne a =
    (migrate_tenant-Keeps
        (record {
          around = a;
          takes = claim-HeldByOther e.me pk h rows ne;
          gives = release-HeldByOther e.me pk h rows ne;
          notes = λ d o. record { held = o.held; lives = o.lives; rows_stand = o.rows_stand };
          writes = λ expected f w. cas-HeldByOther e.me pk h rows ne expected f;
        })
        opts).at
      db

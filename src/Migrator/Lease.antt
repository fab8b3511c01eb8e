-- ===== src/Migrator/Lease.antt =====
-- tenants/migrator.py, "MigrationLease": the SQL statements of the lease as atomic steps on the
-- tables of `default`, and the status compare-and-set that the lease fences.
pub mod Laws
pub mod Exclusion
use mt_shards_back_test.Base.{
  ℕ, ◌+◌, Bool, true, false, ◌&&◌, Option, none, some, List, ltb, Text, if◌then◌else◌,
}
use mt_shards_back_test.Migrator.Db.{
  Db, TenantRow, Holder, Status, LastError, holder, owned_by, put_at, status_in,
}

-- LEASE_TTL = timedelta(hours=1)
abbrev pub lease_ttl : ℕ
lease_ttl = 3600

pub record LeaseHolder : Type 0 where
  pub row : Holder
  pub expired : Bool

-- SELECT owner, since, until, until < now() … WHERE key = … AND owner IS NOT NULL
abbrev pub with_expiry : ℕ → Option Holder → Option LeaseHolder
with_expiry now none = none
with_expiry now (some h) = some (record { row = h; expired = ltb h.until now })

unfoldable pub lease_holder : ℕ → Db → Option LeaseHolder
lease_holder key db = with_expiry db.now (holder db key)

-- INSERT … ON CONFLICT DO NOTHING of a free row.
abbrev pub insert_free : Option (Option Holder) → Option (Option Holder)
insert_free none = some none
insert_free (some r) = some r

abbrev pub live : Option LeaseHolder → Option LeaseHolder
live none = none
live (some h) = if h.expired then none else some h

-- lease_lock_for_transition inside the caller's transaction: the row is created free if it is
-- absent, and its live holder is returned.
unfoldable pub lease_lock_for_transition : ℕ → Db → Option LeaseHolder × Db
unfolding lease_holder
lease_lock_for_transition key db =
    let db' : Db = record db { leases = put_at db.leases key (insert_free (db.leases key)) } in
    (live (lease_holder key db'), db')

-- WHERE owner IS NULL OR until < now(); an absent row is inserted.
unfoldable pub takes : ℕ → Option Holder → Bool
takes now none = true
takes now (some h) = ltb h.until now

-- The upsert of lease_acquire, RETURNING 1.
unfoldable pub upsert : Text → ℕ → Db → Bool × Db
unfolding takes
upsert me key db =
    if takes db.now (holder db key)
    then (
      true,
      record db {
        leases =
            put_at db.leases key
              (some (some (record { owner = me; since = db.now; until = db.now + lease_ttl })));
      },
    )
    else (false, db)

-- UPDATE … SET owner = NULL … WHERE key = … AND owner = …, as lease_release and
-- lease_force_release run it.
unfoldable pub lease_release : Text → ℕ → Db → Bool × Db
lease_release who key db =
    if owned_by who (holder db key)
    then (true, record db { leases = put_at db.leases key (some none) })
    else (false, db)

-- The fields that a status compare-and-set writes.
pub record Fields : Type 0 where
  pub status : Status
  pub previous_status : Status
  pub last_error : LastError

abbrev pub write_status : ℕ → Fields → TenantRow → TenantRow
write_status now f t = record t {
  status = f.status;
  previous_status = f.previous_status;
  last_error = f.last_error;
  status_changed_at = now;
}

abbrev pub in_group : List Status → Option TenantRow → Bool
in_group expected none = false
in_group expected (some t) = status_in t.status expected

abbrev pub map_row : (TenantRow → TenantRow) → Option TenantRow → Option TenantRow
map_row f none = none
map_row f (some t) = some (f t)

-- filter(pk, status__in=expected).filter(Exists(lease of pk owned by me)).update(…): whether a
-- row was updated.
unfoldable pub fenced_cas : Text → ℕ → List Status → Fields → Db → Bool × Db
fenced_cas me pk expected f db =
    if in_group expected (db.tenants pk) && owned_by me (holder db pk)
    then (
      true,
      record db {
        tenants = put_at db.tenants pk (map_row (write_status db.now f) (db.tenants pk));
      },
    )
    else (false, db)

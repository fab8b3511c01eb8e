-- ===== src/Migrator/Lease/Laws.antt =====
-- What single statements of the lease guarantee.
use mt_shards_back_test.Base.{
  ℕ, ◌+◌, ◌≡◌, ◌≢◌, ◌↔◌, true, false, none, some, List, arith, ==_iff, Text,
}
use mt_shards_back_test.Migrator.Db.{Db, Status, holder, owned_by}
use mt_shards_back_test.Migrator.Lease.{
  lease_ttl, lease_lock_for_transition, upsert, lease_release, Fields, fenced_cas, in_group,
  map_row, write_status,
}

-- A won upsert leaves the lease with its winner for a whole TTL, whatever stood there.
pub upsert-won :
    (me : Text) (key : ℕ) (db : Db)
    → (upsert me key db).0 ≡ true
    → holder (upsert me key db).1 key
      ≡ some (record { owner = me; since = db.now; until = db.now + lease_ttl })
unfolding upsert
upsert-won me key db h = ground (arith, ==_iff key key)

pub upsert-lost :
    (me : Text) (key : ℕ) (db : Db) → (upsert me key db).0 ≡ false → (upsert me key db).1 ≡ db
unfolding upsert
upsert-lost me key db h = ground arith

pub upsert-other :
    (me : Text) (key j : ℕ) (db : Db) → key ≢ j → holder (upsert me key db).1 j ≡ holder db j
unfolding upsert
upsert-other me key j db h = ground (arith, ==_iff key j)

-- The admin's row lock reports no live holder exactly when a migrator's upsert would win, before
-- the lock and after it.
pub lock-iff-takes :
    (me : Text) (key : ℕ) (db : Db)
    → (((lease_lock_for_transition key db).0 ≡ none) ↔ ((upsert me key db).0 ≡ true))
      × ((upsert me key (lease_lock_for_transition key db).1).0 ≡ (upsert me key db).0)
unfolding lease_lock_for_transition upsert
lock-iff-takes me key db = (
  (λ h. ground (arith, ==_iff key key), λ h. ground (arith, ==_iff key key)),
  ground (arith, ==_iff key key),
)

-- After its own release a process holds the lease no more, and no other lease has changed.
pub release-free :
    (me : Text) (key : ℕ) (db : Db) → owned_by me (holder (lease_release me key db).1 key) ≡ false
unfolding lease_release
release-free me key db = ground (arith, ==_iff key key)

pub release-other :
    (who : Text) (key j : ℕ) (db : Db)
    → key ≢ j
    → holder (lease_release who key db).1 j ≡ holder db j
unfolding lease_release
release-other who key j db h = ground (arith, ==_iff key j)

-- A release in another's name changes nothing: the operator's `--release` with a stale owner, or
-- a migrator whose lease was taken over.
pub release-stale :
    (who : Text) (key : ℕ) (db : Db)
    → owned_by who (holder db key) ≡ false
    → (lease_release who key db) ≡ (false, db)
unfolding lease_release
release-stale who key db h = ground arith

-- The fence: the compare-and-set reports true exactly when the row is there in an expected status
-- and the lease is its caller's; it then writes the given status, and otherwise nothing.
pub fenced_cas_lem :
    (me : Text) (pk : ℕ) (expected : List Status) (f : Fields) (db : Db)
    → (((fenced_cas me pk expected f db).0 ≡ true)
        ↔ ((in_group expected (db.tenants pk) ≡ true) × (owned_by me (holder db pk) ≡ true)))
      × ((fenced_cas me pk expected f db).0 ≡ true
          → (fenced_cas me pk expected f db).1.tenants pk
            ≡ map_row (write_status db.now f) (db.tenants pk))
      × ((fenced_cas me pk expected f db).0 ≡ false → (fenced_cas me pk expected f db).1 ≡ db)
unfolding fenced_cas
fenced_cas_lem me pk expected f db =
    ((λ h. ground arith, λ h. ground arith), λ h. ground (arith, ==_iff pk pk), λ h. ground arith)

-- ===== src/Tests/Lease.antt =====
-- The lease and the classification of exceptions at concrete tables.
use mt_shards_back_test.Base.{
  ◌+◌, ◌≡◌, ◌↔◌, refl, true, false, none, some, [], ◌∷◌, Text, codes, arith,
}
use mt_shards_back_test.Migrator.Db.{Db, Holder, Status, LastError, holder}
use mt_shards_back_test.Migrator.Lease.{lease_lock_for_transition, upsert, Fields, fenced_cas}
use mt_shards_back_test.Migrator.Lease.Exclusion.{claim, tick, here, next, lease_exclusive}
use mt_shards_back_test.Migrator.Lease.Laws.{lock-iff-takes}
use mt_shards_back_test.Migrator.Errors.{Link}

abbrev me : Text
me = codes "app-1"

abbrev rival : Text
rival = codes "app-2"

abbrev held : Holder
held = record { owner = me; since = 100; until = 3700 }

abbrev db : Db
db = record { leases = λ k. some (some held); tenants = λ k. none; now = 100; forgotten = [] }

abbrev to_failed : Fields
to_failed = record {
  status = Status.failed;
  previous_status = Status.active;
  last_error = LastError.traceback_text;
}

-- A rival's claim and a minute later.
abbrev later : Db
later = record (upsert rival 7 db).1 { now = (upsert rival 7 db).1.now + 60 }

lease_exclusive_example :
    (holder later 7 ≡ some held)
    × ((upsert me 7 later).0 ≡ false)
    × ((fenced_cas rival 7 (Status.active ∷ []) to_failed later).0 ≡ false)
unfolding upsert
lease_exclusive_example =
    lease_exclusive held me rival (Status.active ∷ []) to_failed refl refl
      (next (next here (claim db rival 7)) (tick (upsert rival 7 db).1 60)) (omega arith)
      (λ h. ground arith)

lock-iff-takes_example :
    (((lease_lock_for_transition 7 db).0 ≡ none) ↔ ((upsert me 7 db).0 ≡ true))
    × ((upsert me 7 (lease_lock_for_transition 7 db).1).0 ≡ (upsert me 7 db).0)
lock-iff-takes_example = lock-iff-takes me 7 db

abbrev wrapper : Link
wrapper = record { sqlstate = none; pgcode = none; driver = true }

abbrev lock_timeout : Link
lock_timeout = record { sqlstate = some (codes "55P03"); pgcode = none; driver = true }

-- ===== src/Migrator/Lease/Exclusion.antt =====
-- Many processes on the lease table of tenants/migrator.py.
use mt_shards_back_test.Base.{
  ℕ, ◌+◌, ◌≤◌, ◌≡◌, ◌≢◌, false, Option, some, List, arith, ==_iff, Text, text_eq_iff, inl, inr, ◌⊎◌,
}
use mt_shards_back_test.Migrator.Db.{Db, Holder, TenantRow, Status, holder}
use mt_shards_back_test.Migrator.Lease.{
  lease_lock_for_transition, upsert, lease_release, Fields, fenced_cas,
}

-- What any process may do to the tables while nobody releases lease `key` in the name of `me`: time
-- passes, a claim, a release (by an owner, or by the operator in that owner's name), the admin's row
-- lock, a fenced status write, and a write of the console or the admin to the tenants' rows, which
-- no lease fences.
pub data Step (me : Text) (key : ℕ) : Db → Db → Type 0 where
  tick : (db : Db) (n : ℕ) → Step me key db (record db { now = db.now + n })
  claim : (db : Db) (who : Text) (k : ℕ) → Step me key db (upsert who k db).1
  give_up :
      (db : Db) (who : Text) (k : ℕ)
      → (who ≢ me) ⊎ (k ≢ key)
      → Step me key db (lease_release who k db).1
  lock : (db : Db) (k : ℕ) → Step me key db (lease_lock_for_transition k db).1
  cas :
      (db : Db) (who : Text) (pk : ℕ) (expected : List Status) (f : Fields)
      → Step me key db (fenced_cas who pk expected f db).1
  unfenced : (db : Db) (rows : ℕ → Option TenantRow) → Step me key db (record db { tenants = rows })

pub data Steps (me : Text) (key : ℕ) (db : Db) : Db → Type 0 where
  here : Steps me key db db
  next : {u v : Db} → Steps me key db u → Step me key u v → Steps me key db v

-- The row of `key` stands as it was taken, unless its time is over.
abbrev Stands : ℕ → Holder → Db → Type 0
Stands key h db = db.now ≤ h.until → holder db key ≡ some h

claim-Stands :
    (key k : ℕ) (h : Holder) (who : Text) (db : Db)
    → Stands key h db
    → Stands key h (upsert who k db).1
unfolding upsert
claim-Stands key k h who db s t = ground (arith, ==_iff k key, s)

lock-Stands :
    (key k : ℕ) (h : Holder) (db : Db)
    → Stands key h db
    → Stands key h (lease_lock_for_transition k db).1
unfolding lease_lock_for_transition
lock-Stands key k h db s t = ground (arith, ==_iff k key, s)

cas-Stands :
    (key : ℕ) (h : Holder) (who : Text) (pk : ℕ) (expected : List Status) (f : Fields) (db : Db)
    → Stands key h db
    → Stands key h (fenced_cas who pk expected f db).1
unfolding fenced_cas
cas-Stands key h who pk expected f db s t = ground (arith, s)

release-Stands :
    (me : Text) (key k : ℕ) (h : Holder) (who : Text) (db : Db)
    → h.owner ≡ me
    → (who ≢ me) ⊎ (k ≢ key)
    → Stands key h db
    → Stands key h (lease_release who k db).1
unfolding lease_release
release-Stands me key k h who db e (inl ne) s t =
    ground (arith, ==_iff k key, s, text_eq_iff h.owner who)
release-Stands me key k h who db e (inr ne) s t = ground (arith, ==_iff k key, s)

Step-Stands :
    {me : Text} {key : ℕ} {db db' : Db} (h : Holder)
    → h.owner ≡ me
    → Step me key db db'
    → Stands key h db
    → Stands key h db'
Step-Stands h e (tick db n) s = λ t. s (omega arith)
Step-Stands {key = key} h e (claim db who k) s = claim-Stands key k h who db s
Step-Stands {me} {key} h e (give_up db who k ne) s = release-Stands me key k h who db e ne s
Step-Stands {key = key} h e (lock db k) s = lock-Stands key k h db s
Step-Stands {key = key} h e (cas db who pk expected f) s = cas-Stands key h who pk expected f db s
Step-Stands h e (unfenced db rows) s = s

Steps-Stands :
    {me : Text} {key : ℕ} {db db' : Db} (h : Holder)
    → h.owner ≡ me
    → Stands key h db
    → Steps me key db db'
    → Stands key h db'
Steps-Stands h e s here = s
Steps-Stands h e s (next r st) = Step-Stands h e st (Steps-Stands h e s r)

refused :
    (me who : Text) (key : ℕ) (h : Holder) (expected : List Status) (f : Fields) (db : Db)
    → h.owner ≡ me
    → db.now ≤ h.until
    → holder db key ≡ some h
    → ((upsert who key db).0 ≡ false) × (who ≢ me → (fenced_cas who key expected f db).0 ≡ false)
unfolding upsert fenced_cas
refused me who key h expected f db e t s =
    (ground arith, λ ne. ground (arith, text_eq_iff h.owner who))

-- Once `me` holds a lease, then after any sequence of claims, releases, row locks, fenced status
-- writes and unfenced writes to the tenants' rows, for as long as nobody releases the lease in the
-- name of `me` (neither `me` nor an operator who forces it) and its time is not over: the lease's
-- row is unchanged, every claim on it is refused, and so is every fenced status write of another
-- process on that tenant.
pub lease_exclusive :
    {me : Text} {key : ℕ} {db db' : Db} (h : Holder) (claimant writer : Text)
    (expected : List Status) (f : Fields)
    → holder db key ≡ some h
    → h.owner ≡ me
    → Steps me key db db'
    → db'.now ≤ h.until
    → writer ≢ me
    → (holder db' key ≡ some h)
      × ((upsert claimant key db').0 ≡ false)
      × ((fenced_cas writer key expected f db').0 ≡ false)
lease_exclusive {me} {key} {db' = db'} h claimant writer expected f held e r t ne =
    let s : holder db' key ≡ some h = Steps-Stands h e (λ _. held) r t in
    (
      s,
      (refused me claimant key h expected f db' e t s).0,
      (refused me writer key h expected f db' e t s).1 ne,
    )

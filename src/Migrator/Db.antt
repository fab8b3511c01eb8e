-- ===== src/Migrator/Db.antt =====
-- tenants/models.py, Tenant.Status and MigrationLease, and the rows of the `default` database that
-- tenants/migrator.py reads and writes. Time is in seconds.
use mt_shards_back_test.Base.{
  ℕ, Bool, true, false, Option, none, some, List, ◌==◌, Text, text_eq, if◌then◌else◌,
}

pub data Status : Type 0 where
  new pending active deactivated failed maintenance : Status

unfoldable pub status_eq : Status → Status → Bool
status_eq new new = true
status_eq pending pending = true
status_eq active active = true
status_eq deactivated deactivated = true
status_eq failed failed = true
status_eq maintenance maintenance = true
status_eq _ _ = false

-- `status in group`
unfoldable pub status_in : Status → List Status → Bool
status_in s List.[] = false
status_in s (List.◌∷◌ x xs) = if status_eq s x then true else status_in s xs

-- Tenant.last_error: empty, or which text was written.
pub data LastError : Type 0 where
  blank schema_exists_text schema_missing_text traceback_text : LastError

-- The row of a tenant with the two fields of its shard that the migrator reads.
pub record TenantRow : Type 0 where
  pub schema_name : Text
  pub alias : Text
  pub shard_is_default : Bool
  pub status : Status
  pub previous_status : Status
  pub last_error : LastError
  pub status_changed_at : ℕ

-- The non-key columns of a lease row that is held; they are NULL together when it is free.
pub record Holder : Type 0 where
  pub owner : Text
  pub since : ℕ
  pub until : ℕ

-- `leases key` is none where no row exists, and `some none` where the row is free. `forgotten`
-- lists the tenants whose resolve-cache entries were invalidated, latest first.
pub record Db : Type 0 where
  pub leases : ℕ → Option (Option Holder)
  pub tenants : ℕ → Option TenantRow
  pub now : ℕ
  pub forgotten : List ℕ

module _ {A : Type 0} where
  abbrev pub put_at : (ℕ → A) → ℕ → A → ℕ → A
  put_at f k v j = if k == j then v else f j

-- owner IS NOT NULL AND key = …
abbrev pub join {ℓ} : {A : Type ℓ} → Option (Option A) → Option A
join none = none
join (some o) = o

abbrev pub holder : Db → ℕ → Option Holder
holder db key = join (db.leases key)

abbrev pub owned_by : Text → Option Holder → Bool
owned_by me none = false
owned_by me (some h) = text_eq h.owner me

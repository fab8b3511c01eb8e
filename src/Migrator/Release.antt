-- ===== src/Migrator/Release.antt =====
-- tenants/management/commands/migration_lease.py, `--release`: the operator's way to free a lease.
-- The texts of the refusals are left out; what int() reads of a text, and the two queries that find
-- a tenant by its schema and the shards, are parameters.
pub mod Laws
use mt_shards_back_test.Base.{
  ℕ, Bool, true, false, not, ◌==◌, Option, none, some, Text, codes, text_eq, starts_with,
  if◌then◌else◌, List, [], ◌∷◌,
}
use mt_shards_back_test.Base.Exec.{Outcome, ok, raise, Exec, pure, throw, gets, modify, ◌>>=◌, ◌>>◌}
use mt_shards_back_test.Migrator.Db.{Db, TenantRow}
use mt_shards_back_test.Migrator.Errors.{Exn, exc, interrupt, is_conn_error}
use mt_shards_back_test.Migrator.Env.{Env}
use mt_shards_back_test.Migrator.Env.Steps.{lease_holder_now}
use mt_shards_back_test.Migrator.Lease.{LeaseHolder, lease_release}

pub data CommandError : Type 0 where
  bad_key ambiguous not_found unchecked still_running live_lease hands_changed : CommandError

pub data Failure : Type 0 where
  command_error : CommandError → Failure
  escaped : Exn → Failure

abbrev pub Cmd : Type 0 → Type 0
Cmd A = Exec Failure Db A

pub data Answer : Type 0 where
  not_held released : Answer

-- (key, …, shard aliases); the label only serves the texts.
pub record Target : Type 0 where
  pub key : ℕ
  pub aliases : List Text

abbrev pub shared : Text
shared = codes "shared"

abbrev pub shared_target : Target
shared_target = record { key = 0; aliases = codes "default" ∷ [] }

-- target[4:]
abbrev pub after_key : Text → Text
after_key (a ∷ b ∷ c ∷ d ∷ rest) = rest
after_key _ = []

abbrev pub relabel : {A : Type 0} → (Exn → Failure) → Outcome Exn A × Db → Outcome Failure A × Db
relabel f (ok a, db) = (ok a, db)
relabel f (raise x, db) = (raise (f x), db)

-- An action of the migrator, whose exceptions escape or are translated.
unfoldable pub running : {A : Type 0} → (Exn → Failure) → Exec Exn Db A → Cmd A
running f m db = relabel f (m db)

-- `except Exception` of _release: a lost connection is a refusal.
unfoldable pub cannot_check : Exn → Failure
cannot_check (exc k c) = if is_conn_error c then command_error unchecked else escaped (exc k c)
cannot_check interrupt = escaped interrupt

module _ (e : Env) (parse_int : Text → Option ℕ) (by_schema : Text → Db → Option (ℕ × TenantRow))
    (all_shards : Db → List Text) where
  abbrev pub target_of : ℕ → Option TenantRow → Db → Target
  target_of key none db = record { key = key; aliases = all_shards db }
  target_of key (some t) db = record { key = key; aliases = t.alias ∷ [] }

  abbrev pub of_key : Option ℕ → Cmd Target
  of_key none = throw (command_error bad_key)
  of_key (some n) =
      if n == 0
      then pure shared_target
      else (running escaped e.link >> gets (λ db. target_of n (db.tenants n) db))

  abbrev pub of_schema : Bool → Option (ℕ × TenantRow) → Cmd Target
  of_schema true none = pure shared_target
  of_schema true (some _) = throw (command_error ambiguous)
  of_schema false none = throw (command_error not_found)
  of_schema false (some (pk, t)) = pure (record { key = pk; aliases = t.alias ∷ [] })

  -- _resolve
  unfoldable pub resolve : Text → Cmd Target
  unfolding running ◌>>=◌
  resolve target =
      if starts_with target (codes "key=")
      then of_key (parse_int (after_key target))
      else (running escaped e.link >> gets (by_schema target) >>= of_schema (text_eq target shared))

  -- _session: whether a backend is active on one of the shards.
  unfoldable pub session : ℕ → List Text → Exec Exn Db Bool
  unfolding pure ◌>>=◌
  session key [] = pure false
  session key (alias ∷ aliases) =
      e.session_active alias key >>= λ found. if found then pure true else session key aliases

  abbrev pub judged : LeaseHolder → Bool → Cmd (Unit {0})
  judged h true = throw (command_error still_running)
  judged h false = if h.expired then pure tt else throw (command_error live_lease)

  unfoldable pub checked : Bool → Target → LeaseHolder → Cmd (Unit {0})
  unfolding running session cannot_check ◌>>=◌
  checked force t h =
      if force then pure tt else (running cannot_check (session t.key t.aliases) >>= judged h)

  abbrev pub finish : Target → Bool → Cmd Answer
  finish t true = pure released
  finish t false = running escaped (lease_holder_now e t.key) >> throw (command_error hands_changed)

  -- lease_force_release
  unfoldable pub lease_force_release : ℕ → Text → Cmd Bool
  unfolding running lease_release modify ◌>>=◌
  lease_force_release key expected_owner =
      running escaped e.link >> modify (lease_release expected_owner key)

  abbrev pub release_held : Bool → Target → Option LeaseHolder → Cmd Answer
  release_held force t none = pure not_held
  release_held force t (some h) =
      checked force t h >> lease_force_release t.key h.row.owner >>= finish t

  -- _release
  unfoldable pub release_command : Bool → Text → Cmd Answer
  unfolding resolve checked lease_force_release lease_holder_now ◌>>=◌
  release_command force target =
      resolve target >>= λ t. running escaped (lease_holder_now e t.key) >>= release_held force t

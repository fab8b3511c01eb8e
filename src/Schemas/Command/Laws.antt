-- ===== src/Schemas/Command/Laws.antt =====
-- What the command reports of a run that was cut off.
use mt_shards_back_test.Base.{
  ℕ, zero, suc, ◌≡◌, refl, Bool, true, false, not, ◌&&◌, List, [], ◌∷◌, arith, all,
}
use mt_shards_back_test.Base.Exec.{Outcome, pure, throw, catch, ◌>>=◌, continue, handled}
use mt_shards_back_test.Migrator.Db.{Db}
use mt_shards_back_test.Migrator.Env.{Env, Act}
use mt_shards_back_test.Migrator.Errors.{Exn, Kind, Chain}
use mt_shards_back_test.Migrator.Env.Steps.{except_exception, load, pending_plan, lease_holder_now}
use mt_shards_back_test.Migrator.Run.Result.{try_then, attempt, on_caught, Caught}
use mt_shards_back_test.Schemas.Entries.{Entry, EntryKind, EntryReason, is_running, is_not_run}
use mt_shards_back_test.Schemas.Command.{
  Snapshot, Seen, blank_snapshot, owner_of, snapshot, tenant_seen, plan_seen, load_seen, settle,
  settle_entry, is_blank,
}

abbrev pub is_quiet : {A : Type 0} → Outcome Exn A → Bool
is_quiet (Outcome.ok a) = true
is_quiet (Outcome.raise (Exn.exc k c)) = false
is_quiet (Outcome.raise Exn.interrupt) = true

-- Actions that let no Exception through.
abbrev pub IsQuiet : {A : Type 0} → Act A → Type 0
IsQuiet m = (db : Db) → is_quiet (m db).0 ≡ true

continue-quiet :
    {A B : Type 0} (o : Outcome Exn A) (f : A → Act B) (db : Db)
    → is_quiet o ≡ true
    → ((a : A) → IsQuiet (f a))
    → is_quiet (continue o f db).0 ≡ true
continue-quiet (Outcome.ok a) f db h kf = kf a db
continue-quiet (Outcome.raise (Exn.exc k c)) f db h kf = absurd (ground arith)
continue-quiet (Outcome.raise Exn.interrupt) f db h kf = refl

handled-quiet :
    {A : Type 0} (o : Outcome Exn A) (h : Kind → Chain → Act A) (db : Db)
    → ((k : Kind) (c : Chain) → IsQuiet (h k c))
    → is_quiet (handled (except_exception h) o db).0 ≡ true
unfolding except_exception throw
handled-quiet (Outcome.ok a) h db kh = refl
handled-quiet (Outcome.raise (Exn.exc k c)) h db kh = kh k c db
handled-quiet (Outcome.raise Exn.interrupt) h db kh = refl

attempt-IsQuiet : {A : Type 0} (m : Act A) → IsQuiet (attempt m)
unfolding attempt catch pure
attempt-IsQuiet m db = handled-quiet _ (λ k c. pure (Caught.caught k c)) _ (λ k c db'. refl)

pub try_then-IsQuiet :
    {A B : Type 0} (m : Act A) (h : Kind → Chain → Act B) (f : A → Act B)
    → ((k : Kind) (c : Chain) → IsQuiet (h k c))
    → ((a : A) → IsQuiet (f a))
    → IsQuiet (try_then m h f)
unfolding try_then ◌>>=◌
try_then-IsQuiet m h f kh kf db =
    continue-quiet (attempt m db).0 (on_caught h f) (attempt m db).1 (attempt-IsQuiet m db) on_each
  where
    on_each : (x : Caught _) → IsQuiet (on_caught h f x)
    on_each (Caught.fine a) = kf a
    on_each (Caught.caught k c) = kh k c

load_seen-IsQuiet : (snap : Snapshot) (k : Kind) (c : Chain) → IsQuiet (load_seen snap k c)
unfolding load_seen pure
load_seen-IsQuiet snap k c db = refl

-- `snapshot` lets no Exception through, whatever its reads raise.
pub snapshot-quiet : (env : Env) (key : ℕ) (db : Db) → is_quiet (snapshot env key db).0 ≡ true
unfolding snapshot tenant_seen plan_seen pure
snapshot-quiet env zero =
    try_then-IsQuiet (lease_holder_now env zero) _ _ (load_seen-IsQuiet blank_snapshot)
      (λ h db. refl)
snapshot-quiet env (suc n) =
    try_then-IsQuiet (lease_holder_now env (suc n)) _ _ (load_seen-IsQuiet blank_snapshot) (λ h.
      let owned = record blank_snapshot { lease_owner = owner_of h } in
      try_then-IsQuiet (load env (suc n)) _ _ (load_seen-IsQuiet owned) (λ t.
        try_then-IsQuiet (pending_plan env t) _ _
          (load_seen-IsQuiet (record owned { seen = Seen.status t.status })) (λ plan db. refl)))

abbrev pub is_settled : Entry → Bool
is_settled e = not (is_running e.kind) && not (is_not_run e.kind && is_blank e.reason)

-- After _settle with a reported kind and a reason every entry is one that the summary can report.
pub settle-settled :
    (k : EntryKind) (why : EntryReason) (es : List Entry)
    → is_running k ≡ false
    → is_blank why ≡ false
    → all is_settled (settle k why es) ≡ true
unfolding settle settle_entry all
settle-settled k why [] h w = refl
settle-settled k why (e ∷ es) h w = ground (arith, settle-settled k why es h w)

-- ===== src/Migrator/Reactivation/Laws.antt =====
-- What a tenant that check_reactivation lets pass has shown.
use mt_shards_back_test.Base.{
  ◌≡◌, refl, ap, ◌∙◌, Bool, true, false, Option, none, some, Text, List, [], ◌∷◌,
}
use mt_shards_back_test.Base.Exec.{Outcome, ok, raise, throw}
use mt_shards_back_test.Base.Exec.Finally.{bind-ok}
use mt_shards_back_test.Migrator.Db.{Db, TenantRow}
use mt_shards_back_test.Migrator.Errors.{Exn}
use mt_shards_back_test.Migrator.Env.{Env}
use mt_shards_back_test.Migrator.Env.Steps.{code_older_than_db, pending_plan}
use mt_shards_back_test.Migrator.Reactivation.{
  Stop, default_unavailable, shard_unavailable, lost_as, translate, asking, plan_stop,
  check_plan_of, check_reactivation,
}

translate-ok :
    {A : Type 0} (f : Exn → Stop) (r : Outcome Exn A × Db) (a : A)
    → (translate f r).0 ≡ ok a
    → r.0 ≡ ok a
translate-ok f (ok b, db) a h = cc (h)
translate-ok f (raise x, db) a h = absurd (cc)

plan_stop-empty :
    (o : Option (List (Text × Text))) (db : Db) → (plan_stop o db).0 ≡ ok tt → o ≡ some []
unfolding throw
plan_stop-empty none db h = absurd (cc (h))
plan_stop-empty (some []) db h = refl
plan_stop-empty (some (m ∷ ms)) db h = absurd (cc (h))

-- The tables at some time of the check.
abbrev pub Current : Env → TenantRow → Type 0
Current e t =
    ((db : Db) × ((code_older_than_db e db).0 ≡ ok false))
    × ((db : Db) × ((pending_plan e t db).0 ≡ ok (some [])))

planned :
    (e : Env) (t : TenantRow) (b : Bool) (db : Db)
    → (check_plan_of e t b db).0 ≡ ok tt
    → (b ≡ false) × ((d : Db) × ((pending_plan e t d).0 ≡ ok (some [])))
unfolding throw asking
planned e t true db h = absurd (cc (h))
planned e t false db h =
    let m = pending_plan e t in
    let (o, a, k) = bind-ok (asking shard_unavailable m) plan_stop tt db h in
    let empty = plan_stop-empty o (asking shard_unavailable m db).1 k in
    (
      refl,
      (db, translate-ok (lost_as shard_unavailable) (m db) (some []) (a ∙ ap (λ x. ok x) empty)),
    )

-- Where check_reactivation passes, it was answered that this code is not older than the database,
-- and that the tenant's schema is there with no migration that this code knows left to run.
pub check_reactivation_lem :
    (e : Env) (t : TenantRow) (db : Db) → (check_reactivation e t db).0 ≡ ok tt → Current e t
unfolding check_reactivation asking
check_reactivation_lem e t db h =
    let m = code_older_than_db e in
    let (b, a, k) = bind-ok (asking default_unavailable m) (check_plan_of e t) tt db h in
    let (current, plan) = planned e t b (asking default_unavailable m db).1 k in
    (
      (db, translate-ok (lost_as default_unavailable) (m db) false (a ∙ ap (λ x. ok x) current)),
      plan,
    )

-- ===== src/Schemas/Sequential.antt =====
-- migrate_schemas.py: `_run_sequential`. `work` is migrate_tenant, which may raise, and `signalled`
-- whether a signal has been seen. The dict of futures of the model holds the one entry that runs.
pub mod Laws
use mt_shards_back_test.Base.{
  ℕ, zero, suc, Bool, true, false, Option, none, some, List, [], ◌∷◌, if◌then◌else◌,
}
use mt_shards_back_test.Base.Exec.{Exec, Outcome}
use mt_shards_back_test.Migrator.Run.Result.{Result}
use mt_shards_back_test.Schemas.Entries.{Entry, Stop, entry_at}
use mt_shards_back_test.Schemas.Pool.{Pool, Completion, submit, stopped, finish}

abbrev pub id_in : Option Entry → Option ℕ
id_in none = none
id_in (some e) = e.target.tenant_id

-- How the loop ends: returned, or with what the work raised, and in which states.
abbrev pub End : Type 0 → Type 0 → Type 0
End X S = Outcome X (Unit {0}) × Pool × S

abbrev pub drained_by : Bool → Pool → Pool
drained_by drain p = if drain then stopped Stop.signal false p else p

module _ {X S : Type 0} (work : Option ℕ → Exec X S Result) (signalled : S → Bool) where
  abbrev pub after_work :
      (Pool → S → Option (End X S)) → ℕ → Pool → Outcome X Result × S → Option (End X S)
  after_work rest i p (Outcome.ok res, s) = rest (finish i (Completion.returned res) p) s
  after_work rest i p (Outcome.raise x, s) = some (Outcome.raise x, p, s)

  abbrev pub work_on : (Pool → S → Option (End X S)) → List ℕ → Pool → S → Option (End X S)
  work_on rest [] p s = none
  work_on rest (i ∷ is) p s = after_work rest i p (work (id_in (entry_at i p.entries)) s)

  -- The loop: none where the fuel runs out before it ends.
  unfoldable pub run_sequential : ℕ → Pool → S → Option (End X S)
  unfolding submit stopped entry_at finish
  run_sequential zero p s = none
  run_sequential (suc fuel) p s = elim (submit 1 1 (drained_by (signalled s) p)) [
    | none ↦ some (Outcome.ok tt, drained_by (signalled s) p, s)
    | some q ↦ work_on (run_sequential fuel) q.running q s
  ]

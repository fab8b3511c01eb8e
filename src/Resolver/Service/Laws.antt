-- ===== src/Resolver/Service/Laws.antt =====
-- resolve of tenants/resolver/service.py beside the database's answer.
use mt_shards_back_test.Base.{
  ◌≡◌, refl, sym, ◌∙◌, Bool, true, not, ◌&&◌, some, Text, ◌⊎◌, inl, inr, Bool-cases, Option-cases,
  arith,
}
use mt_shards_back_test.Base.Exec.{Outcome, ok, raise, pure, throw, ◌>>=◌, handled}
use mt_shards_back_test.Resolver.Snapshot.{TenantSnapshot}
use mt_shards_back_test.Resolver.Store.{Store}
use mt_shards_back_test.Resolver.Cache.{
  Reading, hit, read_neg, read_hold, read_miss, get_snapshot, enabled,
}
use mt_shards_back_test.Resolver.Throttle.{Flight, single_flight, Limiter}
use mt_shards_back_test.Resolver.Registry.{
  mark_and_publish, Exn, not_found, deferred, operational, redis_error, unexpected, Point,
  read_snapshot, read_registry, Front, Fault, Settings, gate_enabled, Verdict, member, nonmember,
  unknown, call, check, trigger_warm, verdict_of,
}
use mt_shards_back_test.Resolver.Service.{
  Act, fill_cap, fill, within_budget, judged, missed, read_as, via_cache, fail_open, resolve,
}
use mt_shards_back_test.Resolver.Service.Fill.{
  Answer, is_infra, Agrees, Reads, Rejects, Fine, right, infra, shed, Given, flight-Fine,
}

module _ (σ : Store) (settings : Settings) (fault : Fault σ.State)
    (limiter : Front σ.State → Limiter)
    (faulty : (p : Point) (s : Front σ.State) (x : Exn) → fault p s ≡ some x → is_infra x ≡ true)
    (gated : Bool) (o : Answer) where
  open σ use {State}

  silent : (r : Outcome Exn (Unit {0})) (s : Front State) → (handled (λ x. pure tt) r s).0 ≡ ok tt
  unfolding pure
  silent (ok _) s = refl
  silent (raise x) s = refl

  trigger_warm-ok : (s : Front State) → (trigger_warm fault settings s).0 ≡ ok tt
  unfolding trigger_warm ◌>>=◌
  trigger_warm-ok s = elim (Bool-cases settings.config.warm) [
    | inl e ↦ rw e (silent (mark_and_publish fault s).0 (mark_and_publish fault s).1)
    | inr e ↦ rw e refl
  ]

  judged-Fine :
      (m : Act σ settings fault limiter TenantSnapshot) (v : Verdict) (s : Front State)
      → gated ≡ true
      → ((s : Front State) → Fine gated o (m s).0)
      → Rejects o v
      → Fine gated o (judged σ settings fault limiter m v s).0
  unfolding judged ◌>>=◌ within_budget
  judged-Fine m member s g fine r = fine s
  judged-Fine m nonmember s g fine r = right r
  judged-Fine m unknown s g fine r = rw (trigger_warm-ok s) (
      let s' = (trigger_warm fault settings s).1 in
      elim (Bool-cases (fill_cap σ settings fault limiter s').0) [
        | inl e ↦ rw e (fine (fill_cap σ settings fault limiter s').1)
        | inr e ↦ rw e (shed g)
      ])

  module _ (h : Text) (f : Flight Exn TenantSnapshot)
      (db : Act σ settings fault limiter TenantSnapshot)
      (answers : (s : Front State) → (db s).0 ≡ o) (agrees : Agrees o f)
      (gate : gate_enabled settings ≡ gated) where
    checked :
        (x : Exn) (s : Front State) (m : Act σ settings fault limiter TenantSnapshot)
        → is_infra x ≡ true
        → gated ≡ true
        → ((s : Front State) → Fine gated o (m s).0)
        → fault read_registry s ≡ some x
        → Fine gated o ((check fault h >>= judged σ settings fault limiter m) s).0
    unfolding check call ◌>>=◌
    checked redis_error s m i g fine e = rw e (judged-Fine m unknown s g fine tt)
    checked unexpected s m i g fine e = rw e (infra unexpected refl)
    checked not_found s m i g fine e = ground arith
    checked deferred s m i g fine e = ground arith
    checked operational s m i g fine e = ground arith

    judged-check :
        (s : Front State) (m : Act σ settings fault limiter TenantSnapshot)
        → gated ≡ true
        → ((s : Front State) → Fine gated o (m s).0)
        → Rejects o (verdict_of fault h s.hosts)
        → Fine gated o ((check fault h >>= judged σ settings fault limiter m) s).0
    unfolding check call ◌>>=◌
    judged-check s m g fine rejects = elim (Option-cases (fault read_registry s)) [
      | inl n ↦ rw n (judged-Fine m (verdict_of fault h s.hosts) s g fine rejects)
      | inr (x, n) ↦ checked x s m (faulty read_registry s x n) g fine n
    ]

    missed-Fine :
        (s : Front State)
        → (gated ≡ true → Rejects o (verdict_of fault h s.hosts))
        → Fine gated o (missed σ settings fault limiter h f db s).0
    unfolding missed
    missed-Fine s rejects =
        let m = single_flight f (fill σ settings fault limiter h db) in
        let fine : (s : Front State) → Fine gated o (m s).0 =
          λ s. flight-Fine σ settings fault limiter faulty gated o h db answers f s agrees in
        elim (Bool-cases (gate_enabled settings)) [
          | inl g ↦
              let g' : gated ≡ true = sym gate ∙ g in rw g (judged-check s m g' fine (rejects g'))
          | inr g ↦ rw g (fine s)
        ]

    read-Fine :
        (r : Reading) (s : Front State)
        → Reads o r
        → (gated ≡ true → Rejects o (verdict_of fault h s.hosts))
        → Fine gated o (read_as σ settings fault limiter h f db r s).0
    unfolding read_as
    read-Fine (hit t) s e rejects = right e
    read-Fine read_neg s e rejects = right e
    read-Fine read_hold s e rejects = missed-Fine s rejects
    read-Fine read_miss s e rejects = missed-Fine s rejects

    via-Fine :
        (s : Front State)
        → Reads o (get_snapshot σ h s.cache)
        → (gated ≡ true → Rejects o (verdict_of fault h s.hosts))
        → Fine gated o (via_cache σ settings fault limiter h f db s).0
    unfolding via_cache call ◌>>=◌
    via-Fine s reads rejects = elim (Option-cases (fault read_snapshot s)) [
      | inl n ↦ rw n (read-Fine (get_snapshot σ h s.cache) s reads rejects)
      | inr (x, n) ↦ rw n (infra x (faulty read_snapshot s x n))
    ]

    -- Failing open turns the infrastructure errors into the database's answer.
    opened :
        (r : Answer) (s : Front State)
        → Fine gated o r
        → Given gated o (handled (fail_open σ settings fault limiter db) r s).0
    unfolding throw
    opened (ok t) s (right e) = inl e
    opened (raise not_found) s (right e) = inl e
    opened (raise not_found) s (infra x i) = ground arith
    opened (raise deferred) s (infra x i) = ground arith
    opened (raise operational) s (infra x i) = ground arith
    opened (raise deferred) s (right e) = inl e
    opened (raise deferred) s (shed g) = inr (g, refl)
    opened (raise operational) s (right e) = inl e
    opened (raise redis_error) s fine = inl (answers s)
    opened (raise unexpected) s fine = inl (answers s)

-- Where the database gives one answer, the backends raise only RedisError or unexpected errors,
-- another caller's flight ends with the database's answer, what the cache says of the host agrees
-- with the database, and, under the gate, a registry that is there rejects only hosts that the
-- database does not find: `resolve` gives the database's answer, or, under the gate only, defers.
pub resolve_lem :
    (σ : Store) (settings : Settings) (fault : Fault σ.State) (limiter : Front σ.State → Limiter)
    (o : Answer) (h : Text) (f : Flight Exn TenantSnapshot)
    (db : Act σ settings fault limiter TenantSnapshot) (s : Front σ.State)
    → ((p : Point) (s : Front σ.State) (x : Exn) → fault p s ≡ some x → is_infra x ≡ true)
    → ((s : Front σ.State) → (db s).0 ≡ o)
    → Agrees o f
    → Reads o (get_snapshot σ h s.cache)
    → (gate_enabled settings ≡ true → Rejects o (verdict_of fault h s.hosts))
    → (((resolve σ settings fault limiter h f db) s).0 ≡ o)
      ⊎ ((gate_enabled settings ≡ true)
          × (((resolve σ settings fault limiter h f db) s).0 ≡ raise deferred))
unfolding resolve ◌>>=◌
resolve_lem σ settings fault limiter o h f db s faulty answers agrees reads rejects =
    let gated = gate_enabled settings in
    let r = via_cache σ settings fault limiter h f db s in
    elim (Bool-cases (not (enabled settings.config) && not gated)) [
      | inl off ↦ rw off (inl (answers s))
      | inr on ↦ rw on (
          opened σ settings fault limiter faulty gated o h f db answers agrees refl r.0 r.1 (
            via-Fine σ settings fault limiter faulty gated o h f db answers agrees refl s reads
              rejects))
    ]

-- ===== src/Resolver/Service/Fill.antt =====
-- Answers that agree with the database's, and a fill of the cache, alone or in another's flight.
use mt_shards_back_test.Base.{
  ◌≡◌, Bool, true, false, not, ◌&&◌, some, Text, ◌⊎◌, inl, inr, Bool-cases, Option-cases,
}
use mt_shards_back_test.Base.Exec.{
  Outcome, ok, raise, pure, modify, ◌>>=◌, ◌>>◌, continue, handled, lift,
}
use mt_shards_back_test.Resolver.Snapshot.{TenantSnapshot}
use mt_shards_back_test.Resolver.Store.{Store}
use mt_shards_back_test.Resolver.Cache.{Reading, hit, read_neg, read_hold, read_miss, nonzero}
use mt_shards_back_test.Resolver.Throttle.{
  Flight, leads, slow, aborted, failed, gave, single_flight, Limiter,
}
use mt_shards_back_test.Resolver.Registry.{
  Exn, not_found, deferred, operational, redis_error, unexpected, Point, write_fill, write_miss,
  Front, Fault, Settings, Verdict, member, nonmember, unknown, call,
}
use mt_shards_back_test.Resolver.Service.{Act, fill, unresolved, write_positive, note_hit}

abbrev pub Answer : Type 0
Answer = Outcome Exn TenantSnapshot

-- RedisError, and a bug of the cache path.
abbrev pub is_infra : Exn → Bool
is_infra redis_error = true
is_infra unexpected = true
is_infra not_found = false
is_infra deferred = false
is_infra operational = false

-- Another caller's outcome is the database's.
abbrev pub Agrees : Answer → Flight Exn TenantSnapshot → Type 0
Agrees o leads = Unit {0}
Agrees o slow = Unit {0}
Agrees o aborted = Unit {0}
Agrees o (failed x) = raise x ≡ o
Agrees o (gave t) = ok t ≡ o

-- What the cache says of a host is what the database says.
abbrev pub Reads : Answer → Reading → Type 0
Reads o (hit t) = ok t ≡ o
Reads o read_neg = raise not_found ≡ o
Reads o read_hold = Unit {0}
Reads o read_miss = Unit {0}

-- A host that a present SET does not hold is none of the database's.
abbrev pub Rejects : Answer → Verdict → Type 0
Rejects o member = Unit {0}
Rejects o nonmember = raise not_found ≡ o
Rejects o unknown = Unit {0}

pub data Fine (gated : Bool) (o : Answer) : Answer → Type 0 where
  right : {r : Answer} → r ≡ o → Fine gated o r
  infra : (x : Exn) → is_infra x ≡ true → Fine gated o (raise x)
  shed : gated ≡ true → Fine gated o (raise deferred)

-- The database's answer, or a shed request, which only the gate does.
abbrev pub Given : Bool → Answer → Answer → Type 0
Given gated o r = (r ≡ o) ⊎ ((gated ≡ true) × (r ≡ raise deferred))

module _ (σ : Store) (settings : Settings) (fault : Fault σ.State)
    (limiter : Front σ.State → Limiter)
    (faulty : (p : Point) (s : Front σ.State) (x : Exn) → fault p s ≡ some x → is_infra x ≡ true)
    (gated : Bool) (o : Answer) where
  open σ use {State}

  -- A step that writes the cache raises infrastructure errors only.
  written :
      (k : Point) (w : Front State → Unit {0} × Front State) (r : Answer) (s : Front State)
      → r ≡ o
      → Fine gated o ((call fault k >> modify w >> lift r) s).0
  unfolding call ◌>>=◌
  written k w r s e = elim (Option-cases (fault k s)) [
    | inl n ↦ rw n (right e)
    | inr (x, n) ↦ rw n (infra x (faulty k s x n))
  ]

  noted_hit :
      (h : Text) (t : TenantSnapshot) (s : Front State)
      → ok t ≡ o
      → Fine gated o ((note_hit σ settings fault limiter h t >> pure t) s).0
  unfolding note_hit ◌>>=◌
  noted_hit h t s e =
      elim (Bool-cases (not settings.config.warm && not (nonzero settings.config.pos_ttl))) [
        | inl off ↦ rw off (right e)
        | inr on ↦
            rw on (written write_fill (write_positive σ settings fault limiter h t) (ok t) s e)
      ]

  fill_after :
      (h : Text) (r : Answer) (s : Front State)
      → r ≡ o
      → let t = handled (unresolved σ settings fault limiter h) r s in
        Fine gated o (continue t.0 (λ t. note_hit σ settings fault limiter h t >> pure t) t.1).0
  unfolding unresolved ◌>>=◌
  fill_after h (ok t) s e = noted_hit h t s e
  fill_after h (raise not_found) s e = elim (Bool-cases (nonzero settings.config.neg_ttl)) [
    | inl on ↦ elim (Option-cases (fault write_miss s)) [
      | inl n ↦ rw on (rw n (right e))
      | inr (x, n) ↦ rw on (rw n (infra x (faulty write_miss s x n)))
    ]
    | inr off ↦ rw off (right e)
  ]
  fill_after h (raise deferred) s e = right e
  fill_after h (raise operational) s e = right e
  fill_after h (raise redis_error) s e = right e
  fill_after h (raise unexpected) s e = right e

  module _ (h : Text) (db : Act σ settings fault limiter TenantSnapshot)
      (answers : (s : Front State) → (db s).0 ≡ o) where
    fill-Fine : (s : Front State) → Fine gated o (fill σ settings fault limiter h db s).0
    unfolding fill ◌>>=◌
    fill-Fine s = let (r, s') = db s in fill_after h r s' (answers s)

    pub flight-Fine :
        (f : Flight Exn TenantSnapshot) (s : Front State)
        → Agrees o f
        → Fine gated o (single_flight f (fill σ settings fault limiter h db) s).0
    unfolding single_flight
    flight-Fine leads s a = fill-Fine s
    flight-Fine slow s a = fill-Fine s
    flight-Fine aborted s a = fill-Fine s
    flight-Fine (failed x) s a = right a
    flight-Fine (gave t) s a = right a

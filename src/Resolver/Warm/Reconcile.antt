-- ===== src/Resolver/Warm/Reconcile.antt =====
-- tenants/resolver/registry.py: what a reconcile leaves that nothing interferes with.
use mt_shards_back_test.Base.{
  ℕ, ◌≡◌, refl, ap, ◌∙◌, true, false, not, ◌&&◌, Option, none, some, List, [], ◌∷◌, Text, text_eq,
  text_eq_iff, text_eq_refl, if◌then◌else◌, inl, inr, Bool-cases, Option-cases, suc, elem, arith,
  ==_iff,
}
use mt_shards_back_test.Resolver.Snapshot.{row, dump, Value, payload}
use mt_shards_back_test.Resolver.Store.{Store, or_else}
use mt_shards_back_test.Resolver.Cache.{Config, nonzero, snap_key, get_snapshot, reading}
use mt_shards_back_test.Resolver.Cache.Sweep.Laws.{swept, sweep_orphans_lem}
use mt_shards_back_test.Resolver.Cache.Sweep.{sweep_orphans}
use mt_shards_back_test.Resolver.Registry.{Front, Fault, verdict_of}
use mt_shards_back_test.Resolver.Warm.{
  Build, Domain, rebuild_once, attempts, domains_in, sweep_after, reconcile,
}
use mt_shards_back_test.Resolver.Warm.Laws.{listed, Sound, snapshot_for}
use mt_shards_back_test.Resolver.Warm.Rebuild.{gate_of, verdict_of-build, get-build}

elem-domains_in : (h : Text) (ds : List Domain) → elem h (domains_in ds) ≡ listed h ds
unfolding elem listed
elem-domains_in h [] = refl
elem-domains_in h (d ∷ ds) = ground (
  arith,
  elem-domains_in h ds,
  text_eq_iff h d.domain,
  text_eq_iff d.domain h,
  text_eq_refl h,
  text_eq_refl d.domain,
)

listed-snapshot_for :
    (h : Text) (ds : List Domain) → listed h ds ≡ true → (v : Value) × (snapshot_for h ds ≡ some v)
unfolding listed snapshot_for
listed-snapshot_for h [] l = absurd (ground arith)
listed-snapshot_for h (d ∷ ds) l = elim (Option-cases (snapshot_for h ds)) [
  | inl n ↦ elim (Bool-cases (listed h ds)) [
    | inl m ↦ let (v, e) = listed-snapshot_for h ds m in (v, rw e refl)
    | inr m ↦
        let here : text_eq d.domain h ≡ true = ground (arith, l, m) in
        (payload (dump (row d.tenant)), rw (n, here) refl)
  ]
  | inr (v, e) ↦ (v, rw e refl)
]

unlisted-snapshot_for :
    (h : Text) (ds : List Domain) → listed h ds ≡ false → snapshot_for h ds ≡ none
unfolding listed snapshot_for
unlisted-snapshot_for h [] l = refl
unlisted-snapshot_for h (d ∷ ds) l =
    let here : text_eq d.domain h ≡ false = ground (arith, l) in
    rw (unlisted-snapshot_for h ds (ground (arith, l)), here) refl

-- The sweep drops the positive that no row wrote.
swept-snapshot_for :
    (h : Text) (ds : List Domain) (old : Option Value)
    → swept (not (listed h ds)) (or_else (snapshot_for h ds) old)
      ≡ or_else (snapshot_for h ds) (swept true old)
swept-snapshot_for h ds old = elim (Bool-cases (listed h ds)) [
  | inl l ↦ let (v, e) = listed-snapshot_for h ds l in rw (l, e) refl
  | inr l ↦ rw (l, unlisted-snapshot_for h ds l) refl
]

module _ (σ : Store) (cfg : Config) (chunk : ℕ) (rows : ℕ → List Domain) where
  open σ use {State, get}

  module _ (meanwhile : ℕ → Front State → Front State) where
    attempts_quiet :
        (left : ℕ) (front : Front State)
        → meanwhile 0 (rebuild_once σ cfg chunk (rows 0) front).1
          ≡ (rebuild_once σ cfg chunk (rows 0) front).1
        → attempts σ cfg chunk rows meanwhile (suc left) 0 ([], 0, front) ≡ (
          rows 0,
          (rebuild_once σ cfg chunk (rows 0) front).0,
          (rebuild_once σ cfg chunk (rows 0) front).1,
        )
    unfolding attempts rebuild_once
    attempts_quiet left front q = rw (q, (==_iff front.dirty front.dirty).1 refl) refl

    reconcile_quiet :
        (size : ℕ) (schemas : List Text) (front : Front State)
        → cfg.warm ≡ true
        → meanwhile 0 (rebuild_once σ cfg chunk (rows 0) front).1
          ≡ (rebuild_once σ cfg chunk (rows 0) front).1
        → (reconcile σ cfg chunk rows meanwhile size schemas front).1
          ≡ record (rebuild_once σ cfg chunk (rows 0) front).1 {
            cache =
                (sweep_orphans σ size
                  (domains_in (rows 0))
                  schemas
                  (rebuild_once σ cfg chunk (rows 0) front).1.cache).1;
          }
    unfolding reconcile sweep_after
    reconcile_quiet size schemas front w q =
        let swept_of = sweep_after σ cfg chunk size schemas in
        let runs = attempts σ cfg chunk rows meanwhile 3 0 ([], 0, front) in
        ap (λ warm. (if not warm then (0, front) else swept_of runs).1) w
        ∙ ap (λ a. (swept_of a).1) (attempts_quiet 2 front q)

    -- A reconcile whose first attempt nothing interferes with leaves what the rows of the database say,
    -- whatever the sizes of the chunks and of the sweep's batches: the gate's verdict on any host is
    -- the rows' (unknown when there is no row, else member or nonmember), and a read of any host finds
    -- the snapshot of its row's tenant; for a host without a row it finds what was cached before, but
    -- for a positive, which is gone. The registry is warm, each host has one row, and the time to live
    -- of no tenant's status is zero.
    pub reconcile_lem :
        (fault : Fault State) (size : ℕ) (schemas : List Text) (front : Front State) (h : Text)
        → cfg.warm ≡ true
        → Sound cfg (rows 0)
        → meanwhile 0 (rebuild_once σ cfg chunk (rows 0) front).1
          ≡ (rebuild_once σ cfg chunk (rows 0) front).1
        → (verdict_of fault h (reconcile σ cfg chunk rows meanwhile size schemas front).1.hosts
            ≡ gate_of h (rows 0))
          × (get_snapshot σ h (reconcile σ cfg chunk rows meanwhile size schemas front).1.cache
              ≡ reading false
                  (or_else (snapshot_for h (rows 0)) (swept true (get (snap_key h) front.cache))))
    unfolding rebuild_once get_snapshot
    reconcile_lem fault size schemas front h w s q =
        let b : Build State = record { new = none; cache = front.cache; written = 0 } in
        let cache = (rebuild_once σ cfg chunk (rows 0) front).1.cache in
        let old = get (snap_key h) front.cache in
        let on : not cfg.warm && not (nonzero cfg.pos_ttl) ≡ false = rw w refl in
        rw (reconcile_quiet size schemas front w q) (
          verdict_of-build σ cfg chunk fault h (rows 0) b refl,
          ap (reading false) (
              (sweep_orphans_lem σ size (domains_in (rows 0)) schemas h cache).0
              ∙ rw (elem-domains_in h (rows 0), get-build σ cfg chunk on h (rows 0) [] b s)
                  (swept-snapshot_for h (rows 0) old)),
        )

-- ===== src/Resolver/Warm/Rebuild.antt =====
-- tenants/resolver/registry.py: what _rebuild_once leaves of the SET and of the cache, in terms of
-- the rows it read.
use mt_shards_back_test.Base.{
  ℕ, ◌≡◌, refl, ap, sym, ◌∙◌, true, false, not, ◌&&◌, ◌||◌, Option, none, some, List, [], ◌∷◌, ◌++◌,
  Text, text_eq_refl, if◌then◌else◌, length, inl, inr, Bool-cases, arith, leb,
}
use mt_shards_back_test.Resolver.Store.{Store, or_else}
use mt_shards_back_test.Resolver.Cache.{Config, nonzero, snap_key, get_snapshot, reading}
use mt_shards_back_test.Resolver.Batch.{by_host, by_schema, put_many, put_schema_many}
use mt_shards_back_test.Resolver.Batch.Laws.{
  or_else_assoc, get-put_many_by_ttl, put_many_by_ttl-other,
}
use mt_shards_back_test.Resolver.Registry.{
  Front, Fault, Verdict, member, nonmember, unknown, verdict_of,
}
use mt_shards_back_test.Resolver.Warm.{
  Domain, hosts_of, tenants_of, sources, Build, flush, build, rebuild_once,
}
use mt_shards_back_test.Resolver.Warm.Laws.{
  listed, in_set, in_set-add_all, listed-append, append_assoc, Sound, Sound-prefix, Sound-suffix,
  snapshot_for, snapshot_for-append, keyed_value-hosts_of, hosts_of-Distinct, hosts_of-Lasting,
  by_schema-Apart, tenants_of-TenantsLast, by_schema-Lasting,
}

-- The verdict that the rows give a host: without a row the gate is open.
unfoldable pub gate_of : Text → List Domain → Verdict
gate_of h [] = unknown
gate_of h (d ∷ ds) = if listed h (d ∷ ds) then member else nonmember

verdict_of-in_set :
    {C : Type 0} (fault : Fault C) (g h : Text) (set : Option (List Text))
    → in_set g set ≡ true
    → verdict_of fault h set ≡ (if in_set h set then member else nonmember)
verdict_of-in_set fault g h none i = absurd (ground arith)
verdict_of-in_set fault g h (some hosts) i = refl

module _ (σ : Store) (cfg : Config) (chunk : ℕ) where
  open σ use {State, get}

  build-full :
      (d : Domain) (ds batch : List Domain) (b : Build State)
      → leb chunk (length (batch ++ (d ∷ []))) ≡ true
      → build σ cfg chunk (d ∷ ds) batch b
        ≡ build σ cfg chunk ds [] (flush σ cfg chunk (batch ++ (d ∷ [])) b)
  unfolding build
  build-full d ds batch b e = rw e refl

  build-more :
      (d : Domain) (ds batch : List Domain) (b : Build State)
      → leb chunk (length (batch ++ (d ∷ []))) ≡ false
      → build σ cfg chunk (d ∷ ds) batch b ≡ build σ cfg chunk ds (batch ++ (d ∷ [])) b
  unfolding build
  build-more d ds batch b e = rw e refl

  in_set-flush :
      (h : Text) (ds : List Domain) (b : Build State)
      → in_set h (flush σ cfg chunk ds b).new ≡ (in_set h b.new || listed h ds)
  unfolding flush listed
  in_set-flush h [] b = ground arith
  in_set-flush h (d ∷ ds) b = in_set-add_all h (d ∷ ds) b.new

  in_set-build :
      (h : Text) (ds batch : List Domain) (b : Build State)
      → in_set h (build σ cfg chunk ds batch b).new ≡ (in_set h b.new || listed h (batch ++ ds))
  unfolding build listed
  in_set-build h [] batch b = in_set-flush h batch b ∙ ground (arith, listed-append h batch [])
  in_set-build h (d ∷ ds) batch b =
      let more = batch ++ (d ∷ []) in
      rw (← append_assoc batch d ds) (elim (Bool-cases (leb chunk (length more))) [
        | inl e ↦ rw (build-full d ds batch b e) (
            in_set-build h ds [] (flush σ cfg chunk more b)
            ∙ ground (arith, in_set-flush h more b, listed-append h more ds))
        | inr n ↦ rw (build-more d ds batch b n) (in_set-build h ds more b)
      ])

  pub verdict_of-build :
      (fault : Fault State) (h : Text) (rows : List Domain) (b : Build State)
      → b.new ≡ none
      → verdict_of fault h (build σ cfg chunk rows [] b).new ≡ gate_of h rows
  unfolding build flush gate_of listed
  verdict_of-build fault h [] b e = rw e refl
  verdict_of-build fault h (d ∷ ds) b e =
      let none_in : (g : Text) → in_set g b.new ≡ false = λ g. rw e refl in
      let here = in_set-build d.domain (d ∷ ds) [] b in
      verdict_of-in_set fault d.domain h (build σ cfg chunk (d ∷ ds) [] b).new
        (here ∙ rw (none_in d.domain, text_eq_refl d.domain) refl)
      ∙ rw (in_set-build h (d ∷ ds) [] b, none_in h) refl

  module _ (on : not cfg.warm && not (nonzero cfg.pos_ttl) ≡ false) where
    get-flush :
        (h : Text) (ds : List Domain) (b : Build State)
        → Sound cfg ds
        → get (snap_key h) (flush σ cfg chunk ds b).cache
          ≡ or_else (snapshot_for h ds) (get (snap_key h) b.cache)
    unfolding flush snapshot_for put_many put_schema_many
    get-flush h [] b s = refl
    get-flush h (d ∷ ds) b s =
        let ts = tenants_of (d ∷ ds) [] in
        put_many_by_ttl-other σ cfg (by_schema (sources ts)) (snap_key h)
          (put_many σ cfg (hosts_of (d ∷ ds)) b.cache).1 (by_schema-Apart h (sources ts))
          (by_schema-Lasting cfg ts (tenants_of-TenantsLast cfg (d ∷ ds) [] s tt))
        ∙ get-put_many_by_ttl σ cfg (by_host (hosts_of (d ∷ ds))) (snap_key h) b.cache on
            (hosts_of-Distinct cfg (d ∷ ds) s) (hosts_of-Lasting cfg (d ∷ ds) s)
        ∙ ap (λ o. or_else o (get (snap_key h) b.cache)) (keyed_value-hosts_of h (d ∷ ds))

    pub get-build :
        (h : Text) (ds batch : List Domain) (b : Build State)
        → Sound cfg (batch ++ ds)
        → get (snap_key h) (build σ cfg chunk ds batch b).cache
          ≡ or_else (snapshot_for h (batch ++ ds)) (get (snap_key h) b.cache)
    unfolding build snapshot_for
    get-build h [] batch b s =
        get-flush h batch b (Sound-prefix cfg batch [] s)
        ∙ ap (λ o. or_else o (get (snap_key h) b.cache)) (sym (snapshot_for-append h batch []))
    get-build h (d ∷ ds) batch b s =
        let more = batch ++ (d ∷ []) in
        let old = get (snap_key h) b.cache in
        let same = append_assoc batch d ds in
        let sound : Sound cfg (more ++ ds) = rw same s in
        rw (← same) (elim (Bool-cases (leb chunk (length more))) [
          | inl e ↦ rw (build-full d ds batch b e) (
              get-build h ds [] (flush σ cfg chunk more b) (Sound-suffix cfg more ds sound)
              ∙ rw
                  (
                    get-flush h more b (Sound-prefix cfg more ds sound),
                    snapshot_for-append h more ds,
                  )
                  (or_else_assoc (snapshot_for h ds) (snapshot_for h more) old))
          | inr n ↦ rw (build-more d ds batch b n) (get-build h ds more b sound)
        ])

    -- A rebuild leaves what its rows say, whatever the size of its chunks: the gate's verdict on any
    -- host is the rows' (unknown when there is no row, else member or nonmember), and a read of any
    -- host finds the snapshot of its row's tenant, or what was cached before for a host without a
    -- row. Each host has one row, the time to live of no tenant's status is zero, and positives are
    -- cached.
    pub rebuild_once_lem :
        (fault : Fault State) (rows : List Domain) (front : Front State) (h : Text)
        → Sound cfg rows
        → (verdict_of fault h (rebuild_once σ cfg chunk rows front).1.hosts ≡ gate_of h rows)
          × (get_snapshot σ h (rebuild_once σ cfg chunk rows front).1.cache
              ≡ reading false (or_else (snapshot_for h rows) (get (snap_key h) front.cache)))
    unfolding rebuild_once get_snapshot
    rebuild_once_lem fault rows front h s =
        let b : Build State = record { new = none; cache = front.cache; written = 0 } in
        (verdict_of-build fault h rows b refl, ap (reading false) (get-build h rows [] b s))

-- ===== src/Routing/Router/Migrations.antt =====
-- Where a migration may run: TenantDatabaseRouter.allow_migrate.
use mt_shards_back_test.Base.{
  ◌≡◌, refl, ap, Bool, true, false, not, ◌&&◌, Option, some, is_none, Text, text_eq, elem,
  if◌then◌else◌, List, inl, inr,
}
use mt_shards_back_test.Base.Exec.{ok, pure, lift, gets, ◌>>=◌}
use mt_shards_back_test.Base.Exec.Finally.{bind-ok, if-answers}
use mt_shards_back_test.Routing.Context.{Fault, Backend, Axes, Act, default}
use mt_shards_back_test.Routing.Router.{
  Settings, strict_route_labels, on_public, installed_apps, fits, migrate_installed, migrate_data,
  allow_migrate_on, allow_migrate,
}

module _ (β : Backend) (st : Settings) (app_in_list : Text → List Text → Bool)
    (tenant_type : β.Conn → Text) where
  open β use {Conn}

  -- The connection is on the public schema exactly where the database is `default`.
  abbrev pub Placed : Text → Conn → Type 0
  Placed db c = on_public β st app_in_list tenant_type (some c) ≡ text_eq db default

  place :
      (p d : Bool) (s : Axes Conn)
      → ((if p then (pure {X = Fault} d) else pure (not d)) s).0 ≡ ok true
      → p ≡ d
  unfolding pure
  place true true s h = refl
  place true false s h = cc
  place false true s h = cc
  place false false s h = refl

  fits-Placed :
      (db label : Text) (c : Conn) (apps : List Text) (s : Axes Conn)
      → (fits β st app_in_list tenant_type db label c apps s).0 ≡ ok true
      → Placed db c
  unfolding pure
  fits-Placed db label c apps s h =
      elim (if-answers (not (app_in_list label apps)) (pure false) _ s (ok true) h) [
        | inl (p, k) ↦ absurd (cc)
        | inr (p, k) ↦
            place (on_public β st app_in_list tenant_type (some c)) (text_eq db default) s k
      ]

  migrate_installed-Placed :
      (db label : Text) (c : Conn) (s : Axes Conn)
      → (migrate_installed β st app_in_list tenant_type db label c s).0 ≡ ok true
      → Placed db c
  migrate_installed-Placed db label c s h =
      let m = installed_apps β st app_in_list tenant_type c st.tenant_types in
      let (apps, _, k) = bind-ok m (fits β st app_in_list tenant_type db label c) true s h in
      fits-Placed db label c apps (m s).1 k

  -- The test of a data migration of a strict app on the public schema.
  abbrev pub seeds_public : Text → Option Text → Conn → List Text → Bool
  seeds_public label name c labels =
      (is_none name && on_public β st app_in_list tenant_type (some c)) && elem label labels

  migrate_data-Placed :
      (db label : Text) (c : Conn) (labels : List Text) (s : Axes Conn)
      → (migrate_data β st app_in_list tenant_type db label c labels s).0 ≡ ok true
      → (elem label labels ≡ false) × Placed db c
  unfolding pure
  migrate_data-Placed db label c labels s h =
      elim (if-answers (elem label labels) (pure false) _ s (ok true) h) [
        | inl (p, k) ↦ absurd (cc)
        | inr (p, k) ↦ (p, migrate_installed-Placed db label c s k)
      ]

  allowed :
      (db label : Text) (name : Option Text) (c : Conn) (labels : List Text) (s : Axes Conn)
      → strict_route_labels st ≡ ok labels
      → (allow_migrate_on β st app_in_list tenant_type db label name (some c) s).0 ≡ ok true
      → Placed db c × (seeds_public label name c labels ≡ false)
  unfolding lift
  allowed db label name c labels s strict h =
      let seeds = is_none name && on_public β st app_in_list tenant_type (some c) in
      let m : Act β (List Text) = lift (strict_route_labels st) in
      let f = migrate_data β st app_in_list tenant_type db label c in
      elim (if-answers seeds (m >>= f) (migrate_installed β st app_in_list tenant_type db label c) s
        (ok true) h) [
          | inl (p, k) ↦
              let (ls, e, k') = bind-ok m f true s k in
              let (q, placed) = migrate_data-Placed db label c ls s k' in
              let same : ls ≡ labels = cc (e, strict) in (placed, rw p (rw⁻¹ same q))
          | inr (p, k) ↦ (migrate_installed-Placed db label c s k, rw p refl)
        ]

  -- Where allow_migrate says yes for an alias that has a connection, the connection is on the public
  -- schema exactly when the alias is `default`, and it is no data migration of a strict app on the
  -- public schema; with one type of tenants or with several.
  pub allow_migrate_lem :
      (db label : Text) (name : Option Text) (c : Conn) (labels : List Text) (s : Axes Conn)
      → s.connections db ≡ some c
      → strict_route_labels st ≡ ok labels
      → (allow_migrate β st app_in_list tenant_type db label name s).0 ≡ ok true
      → Placed db c × (seeds_public label name c labels ≡ false)
  unfolding allow_migrate gets ◌>>=◌
  allow_migrate_lem db label name c labels s e strict h =
      allowed db label name c labels s strict
        (rw⁻¹ (ap (λ o. allow_migrate_on β st app_in_list tenant_type db label name o s) e) h)

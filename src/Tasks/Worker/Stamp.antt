-- ===== src/Tasks/Worker/Stamp.antt =====
-- What the sender of a task stamps into its headers.
use mt_shards_back_test.Base.{
  ◌≡◌, refl, ap, ◌∙◌, false, Option, some, is_some, Text, codes, text_eq,
}
use mt_shards_back_test.Base.Exec.{ok, pure, gets, ◌>>=◌}
use mt_shards_back_test.Base.Exec.Finally.{bind-runs}
use mt_shards_back_test.Resolver.Store.{Store}
use mt_shards_back_test.Resolver.Cache.{Config}
use mt_shards_back_test.Routing.Context.{
  Backend, Axes, schema_at, bound_alias, current_schema_name, named,
}
use mt_shards_back_test.Routing.Context.Laws.{Inside, on_connection-some}
use mt_shards_back_test.Fanout.Dispatch.{
  Headers, header, with_header, schema_header, headers_or_empty,
}
use mt_shards_back_test.Fanout.Dispatch.Laws.{header-with_header}
use mt_shards_back_test.Tasks.Worker.{headers_with_schema}

module _ (β : Backend) (σ : Store) (cfg : Config) where
  open β use {Conn, public, schema_name}

  schema_at-Inside :
      (alias schema : Text) (s : Axes Conn)
      → text_eq schema (codes "") ≡ false
      → Inside β alias schema s
      → (schema_at β (some alias) s).0 ≡ ok schema
  unfolding schema_at gets
  schema_at-Inside alias schema s full (current, (c, e, n)) =
      ap (λ r. r.0) (on_connection-some β alias (gets (λ d. named β public (schema_name d))) c s e)
      ∙ rw n (rw full refl)

  current_schema_name-Inside :
      (alias schema : Text) (s : Axes Conn)
      → text_eq schema (codes "") ≡ false
      → Inside β alias schema s
      → (current_schema_name β s).0 ≡ ok schema
  unfolding current_schema_name bound_alias gets ◌>>=◌
  current_schema_name-Inside alias schema s full (current, at) =
      ap (λ o. (schema_at β o s).0) current ∙ schema_at-Inside alias schema s full (current, at)

  -- The caller's headers have no schema.
  abbrev pub Unstamped : Option Headers → Type 0
  Unstamped headers = is_some (header schema_header (headers_or_empty headers)) ≡ false

  -- A task that is sent inside a tenant's context, by a caller that gives no schema, carries the
  -- schema of the context, whatever other headers it has.
  pub headers_with_schema_lem :
      (headers : Option Headers) (alias schema : Text) (s : Axes Conn)
      → Unstamped headers
      → text_eq schema (codes "") ≡ false
      → Inside β alias schema s
      → (h : Headers) × ((headers_with_schema β σ cfg headers s).0 ≡ ok h)
        × (header schema_header h ≡ some schema)
  unfolding headers_with_schema pure
  headers_with_schema_lem headers alias schema s unstamped full inside =
      let hs = headers_or_empty headers in
      let f : Text → _ = λ n. pure (with_header schema_header n hs) in
      (
        with_header schema_header schema hs,
        rw unstamped (
            ap (λ r. r.0)
              (bind-runs (current_schema_name β) f schema s
                (current_schema_name-Inside alias schema s full inside))),
        header-with_header schema_header schema hs,
      )

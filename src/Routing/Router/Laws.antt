-- ===== src/Routing/Router/Laws.antt =====
-- Where queries and migrations may go.
use mt_shards_back_test.Base.{
  ◌≡◌, refl, sym, ap, ◌∙◌, Bool, true, false, Option, none, some, is_some, Text, codes, text_eq,
  elem, if◌then◌else◌, List, inl, inr, Bool-cases,
}
use mt_shards_back_test.Base.Exec.{Outcome, ok, raise, pure, throw, lift, gets, ◌>>=◌, ◌>>◌, Exec}
use mt_shards_back_test.Base.Exec.Keeps.{
  Keeps, Keeps-if, Keeps-bind, Keeps-pure, Keeps-lift, Keeps-gets, keeps_rules,
}
use mt_shards_back_test.Resolver.Snapshot.{TenantSnapshot}
use mt_shards_back_test.Routing.Context.{
  no_context, public_denied, Backend, Axes, Act, default, or_text, bound_alias, restore,
}
use mt_shards_back_test.Routing.Context.Laws.{Inside}
use mt_shards_back_test.Routing.Middleware.{call}
use mt_shards_back_test.Routing.Middleware.Laws.{call_served}
use mt_shards_back_test.Routing.Router.{
  Model, Settings, strict_route_labels, on_public, shared_only, deny, guard_at, guard_public,
  target, db_for_read,
}

or_text-some : (a b : Text) → text_eq a (codes "") ≡ false → or_text (some a) b ≡ a
or_text-some a b h = rw h refl

-- Both branches of a test do the same.
if-both :
    {X S A : Type 0} (b : Bool) (m n : Exec X S A) (s : S) (r : Outcome X A × S)
    → m s ≡ r
    → n s ≡ r
    → (if b then m else n) s ≡ r
if-both true m n s r h k = h
if-both false m n s r h k = k

module _ (β : Backend) (st : Settings) (app_in_list : Text → List Text → Bool)
    (tenant_type : β.Conn → Text) where
  open β use {Conn, bound, public, schema_name, of_tenant, set_tenant, set_schema_to_public}

  abbrev read : Model → Act β Text
  read = db_for_read β st app_in_list tenant_type

  guard_off_public :
      (model : Model) (alias : Text) (s : Axes Conn)
      → on_public β st app_in_list tenant_type (s.connections alias) ≡ false
      → guard_public β st app_in_list tenant_type model alias s ≡ (ok tt, s)
  unfolding guard_public pure ◌>>=◌
  guard_off_public model alias s h =
      if-both (text_eq st.public_model_guard (codes "off")) (pure tt) _ s (ok tt, s) refl
        (rw h refl)

  -- What a query of a model does that is not shared-only, by the alias that is bound.
  abbrev next : Model → Option Text → Act β Text
  next model alias =
      guard_public β st app_in_list tenant_type model (or_text alias default)
      >> target β st app_in_list tenant_type model alias

  db_for_read-next :
      (model : Model) (s : Axes Conn)
      → shared_only β st app_in_list tenant_type model.app_label ≡ false
      → read model s ≡ next model s.current s
  unfolding db_for_read ◌>>=◌
  db_for_read-next model s shared = rw shared refl

  next-bound :
      (model : Model) (alias : Text) (s : Axes Conn)
      → guard_public β st app_in_list tenant_type model (or_text (some alias) default) s
        ≡ (ok tt, s)
      → next model (some alias) s ≡ (ok alias, s)
  unfolding ◌>>=◌
  next-bound model alias s h = rw h refl

  -- Inside a context on a schema that is not public, a query of a model that is not shared-only
  -- goes to the alias of the context.
  db_for_read-Inside :
      (model : Model) (alias schema : Text) (s : Axes Conn)
      → shared_only β st app_in_list tenant_type model.app_label ≡ false
      → text_eq alias (codes "") ≡ false
      → text_eq schema public ≡ false
      → Inside β alias schema s
      → read model s ≡ (ok alias, s)
  db_for_read-Inside model alias schema s shared full off (current, (c, e, n)) =
      let here : on_public β st app_in_list tenant_type (s.connections alias) ≡ false =
        rw e (rw n off) in
      db_for_read-next model s shared
      ∙ ap (λ o. next model o s) current
      ∙ next-bound model alias s
          (rw (or_text-some alias default full) (guard_off_public model alias s here))

  deny-Keeps :
      (model : Model) (labels : List Text) (P : Axes Conn → Type 0)
      → Keeps P (deny β st app_in_list tenant_type model labels)
  deny-Keeps model labels P = search keeps_rules

  guard_at-Keeps :
      (model : Model) (b : Bool) (P : Axes Conn → Type 0)
      → Keeps P (guard_at β st app_in_list tenant_type model b)
  guard_at-Keeps model false P = Keeps-pure tt
  guard_at-Keeps model true P = search (keeps_rules, Keeps-lift, deny-Keeps)

  guard_public-Keeps :
      (model : Model) (alias : Text) (P : Axes Conn → Type 0)
      → Keeps P (guard_public β st app_in_list tenant_type model alias)
  unfolding guard_public
  guard_public-Keeps model alias P = search (keeps_rules, guard_at-Keeps)

  target-Keeps :
      (model : Model) (alias : Option Text) (P : Axes Conn → Type 0)
      → Keeps P (target β st app_in_list tenant_type model alias)
  target-Keeps model none P = search (keeps_rules, Keeps-lift)
  target-Keeps model (some alias) P = Keeps-pure alias

  db_for_read-Keeps : (model : Model) (P : Axes Conn → Type 0) → Keeps P (read model)
  unfolding db_for_read
  db_for_read-Keeps model P =
      Keeps-if (shared_only β st app_in_list tenant_type model.app_label) _ _ (Keeps-pure default) (
        Keeps-bind (gets bound_alias) _ (Keeps-gets bound_alias) (λ alias.
          Keeps-bind (guard_public β st app_in_list tenant_type model (or_text alias default)) _
            (guard_public-Keeps model (or_text alias default) P) (λ _. target-Keeps model alias P)))

  -- A request of a tenant that is on another shard than `default`, whose schema is not the public
  -- one, and for which the shard's connection is there and can be set to the tenant's schema, back
  -- and to public: a query of a model that is not shared-only goes to the tenant's shard.
  pub request_query :
      (t : TenantSnapshot) (model : Model) (c : Conn) (s : Axes Conn)
      → text_eq t.shard.alias default ≡ false
      → text_eq t.shard.alias (codes "") ≡ false
      → text_eq t.schema_name public ≡ false
      → s.connections t.shard.alias ≡ some c
      → (set_tenant (of_tenant t) c).0 ≡ ok tt
      → ((d : Conn) → (restore β (bound c) d).0 ≡ ok tt)
      → ((d : Conn) → (set_schema_to_public d).0 ≡ ok tt)
      → shared_only β st app_in_list tenant_type model.app_label ≡ false
      → (call β (some t) (read model) s).0 ≡ ok t.shard.alias
  request_query t model c s other full off e a restores resets shared =
      let holds = db_for_read-Keeps model (λ s'. is_some (s'.connections t.shard.alias) ≡ true) in
      let (start, inside, outcome, _, _) =
        call_served β t (read model) c s other e a restores resets holds in
      outcome
      ∙ ap (λ r. r.0)
          (db_for_read-Inside model t.shard.alias t.schema_name start shared full off inside)

  -- The model is refused on the public schema: of a strict app, on no allowlist, in a mode that is
  -- neither "off" nor "warn".
  abbrev pub Refused : Model → List Text → Type 0
  Refused model labels =
      (strict_route_labels st ≡ ok labels)
      × (elem model.app_label labels ≡ true)
      × (elem model.label_lower st.public_model_allowlist ≡ false)
      × (text_eq st.public_model_guard (codes "off") ≡ false)
      × (text_eq st.public_model_guard (codes "warn") ≡ false)

  guard_on_public :
      (model : Model) (labels : List Text) (alias : Text) (s : Axes Conn)
      → Refused model labels
      → on_public β st app_in_list tenant_type (s.connections alias) ≡ true
      → guard_public β st app_in_list tenant_type model alias s ≡ (raise public_denied, s)
  unfolding guard_public throw lift ◌>>=◌
  guard_on_public model labels alias s (strict, of_app, listed, off, warn) h =
      rw off (rw h (rw strict (rw of_app (rw listed (rw warn refl)))))

  next-denied :
      (model : Model) (alias : Option Text) (s : Axes Conn)
      → guard_public β st app_in_list tenant_type model (or_text alias default) s
        ≡ (raise public_denied, s)
      → next model alias s ≡ (raise public_denied, s)
  unfolding ◌>>=◌
  next-denied model alias s h = rw h refl

  next-unbound :
      (model : Model) (labels : List Text) (s : Axes Conn)
      → Refused model labels
      → guard_public β st app_in_list tenant_type model default s ≡ (ok tt, s)
      → next model none s ≡ (raise no_context, s)
  unfolding lift throw ◌>>=◌
  next-unbound model labels s (strict, of_app, _, _, _) h = rw h (rw strict (rw of_app refl))

  -- Where `next` answers, it was off public, with an alias bound.
  next-answers :
      (model : Model) (labels : List Text) (alias : Option Text) (a : Text) (s : Axes Conn)
      → Refused model labels
      → (next model alias s).0 ≡ ok a
      → (alias ≡ some a)
        × (on_public β st app_in_list tenant_type (s.connections (or_text alias default)) ≡ false)
  next-answers model labels alias a s refused h =
      elim (Bool-cases
        (on_public β st app_in_list tenant_type (s.connections (or_text alias default)))) [
          | inl p ↦ absurd (
              cc (
                h,
                next-denied model alias s
                    (guard_on_public model labels (or_text alias default) s refused p),
              ))
          | inr p ↦ (bound_to alias p h, p)
        ]
    where
      bound_to :
          (o : Option Text)
          → on_public β st app_in_list tenant_type (s.connections (or_text o default)) ≡ false
          → (next model o s).0 ≡ ok a
          → o ≡ some a
      bound_to none p h =
          absurd (cc (h, next-unbound model labels s refused (guard_off_public model default s p)))
      bound_to (some b) p h =
          cc (h, next-bound model b s (guard_off_public model (or_text (some b) default) s p))

  -- A query of a model of a strict app, not shared-only and on no allowlist, that is not refused
  -- under a guard that raises, goes to the alias of a routing context that is bound, and the
  -- connection that it meets is not on the public schema.
  pub db_for_read-strict :
      (model : Model) (labels : List Text) (a : Text) (s : Axes Conn)
      → shared_only β st app_in_list tenant_type model.app_label ≡ false
      → Refused model labels
      → (read model s).0 ≡ ok a
      → (s.current ≡ some a)
        × (on_public β st app_in_list tenant_type (s.connections (or_text s.current default))
            ≡ false)
  db_for_read-strict model labels a s shared refused h =
      next-answers model labels s.current a s refused
        (ap (λ r. r.0) (sym (db_for_read-next model s shared)) ∙ h)

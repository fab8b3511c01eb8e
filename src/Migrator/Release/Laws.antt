-- ===== src/Migrator/Release/Laws.antt =====
-- What a release by the operator went through.
use mt_shards_back_test.Base.{
  ℕ, ◌≡◌, refl, ap, sym, ◌∙◌, if◌then◌else◌, [], ◌∷◌, Bool, true, false, Option, none, some, Text,
  List, inl, inr, arith,
}
use mt_shards_back_test.Base.Exec.{Outcome, ok, raise, Exec, pure, throw, gets, modify, ◌>>=◌, ◌>>◌}
use mt_shards_back_test.Base.Exec.Finally.{bind-ok, bind-runs, if-answers}
use mt_shards_back_test.Migrator.Db.{Db, TenantRow, holder, owned_by}
use mt_shards_back_test.Migrator.Errors.{Exn}
use mt_shards_back_test.Migrator.Env.{Env}
use mt_shards_back_test.Migrator.Env.Steps.{lease_holder_now}
use mt_shards_back_test.Migrator.Lease.{LeaseHolder, lease_release, lease_holder}
use mt_shards_back_test.Migrator.Release.{
  Failure, Answer, released, Target, running, relabel, cannot_check, escaped, command_error,
  live_lease, hands_changed, resolve, session, judged, checked, finish, lease_force_release,
  release_held, release_command,
}

relabel-ok :
    {A : Type 0} (f : Exn → Failure) (r : Outcome Exn A × Db) (a : A)
    → (relabel f r).0 ≡ ok a
    → r ≡ (ok a, (relabel f r).1)
relabel-ok f (ok b, db) a h = cc (h)
relabel-ok f (raise x, db) a h = absurd (cc)

release-owned :
    (who : Text) (key : ℕ) (db : Db)
    → (lease_release who key db).0 ≡ true
    → owned_by who (holder db key) ≡ true
unfolding lease_release
release-owned who key db h = ground arith

module _ (e : Env) (parse_int : Text → Option ℕ) (by_schema : Text → Db → Option (ℕ × TenantRow))
    (all_shards : Db → List Text) where
  abbrev command : Bool → Text → Exec Failure Db Answer
  command = release_command e parse_int by_schema all_shards

  -- The shards were asked one after the other, and each answered that it has no backend.
  pub data Quiet (key : ℕ) : List Text → Db → Db → Type 0 where
    all_asked : {d : Db} → Quiet key [] d d
    no_backend :
        {alias : Text} {aliases : List Text} {d u v : Db}
        → e.session_active alias key d ≡ (ok false, u)
        → Quiet key aliases u v
        → Quiet key (alias ∷ aliases) d v

  -- What the command went through from a state to a state: the target that the text resolved to, the
  -- holder that was then read of its lease, with its time over, the shards of the target without a
  -- backend of its migration, and the last statement, on a lease that is still that owner's.
  pub record Released (target : Text) (db after : Db) : Type 0 where
    pub t : Target
    pub h : LeaseHolder
    pub found : Db
    pub read : Db
    pub asked : Db
    pub at : Db
    pub resolved : resolve e parse_int by_schema all_shards target db ≡ (ok t, found)
    pub link_1 : e.link found ≡ (ok tt, read)
    pub shown : lease_holder t.key read ≡ some h
    pub expired : h.expired ≡ true
    pub quiet : Quiet t.key t.aliases read asked
    pub link_2 : e.link asked ≡ (ok tt, at)
    pub owned : owned_by h.row.owner (holder at t.key) ≡ true
    pub freed : after ≡ (lease_release h.row.owner t.key at).1

  judged-Expired :
      (h : LeaseHolder) (found : Bool) (db : Db)
      → (judged e parse_int by_schema all_shards h found db).0 ≡ ok tt
      → (found ≡ false) × (h.expired ≡ true)
  unfolding throw pure
  judged-Expired h true db k = absurd (cc (k))
  judged-Expired h false db k =
      elim (if-answers h.expired (pure tt) (throw (command_error live_lease)) db (ok tt) k) [
        | inl (p, _) ↦ (refl, p)
        | inr (_, q) ↦ absurd (cc (q))
      ]

  session-Quiet :
      (key : ℕ) (aliases : List Text) (d : Db)
      → (session e parse_int by_schema all_shards key aliases d).0 ≡ ok false
      → Quiet key aliases d (session e parse_int by_schema all_shards key aliases d).1
  unfolding session pure
  session-Quiet key [] d k = all_asked
  session-Quiet key (alias ∷ aliases) d k =
      let ask = e.session_active alias key in
      let others = session e parse_int by_schema all_shards key aliases in
      let next : Bool → Exec Exn Db Bool = λ found. if found then pure true else others in
      let (found, a, j) = bind-ok ask next false d k in
      elim (if-answers found (pure true) others (ask d).1 (ok false) j) [
        | inl (_, q) ↦ absurd (cc (q))
        | inr (n, q) ↦
            let asked : (ask d).0 ≡ ok false = a ∙ ap (λ x. ok x) n in
            let final : (session e parse_int by_schema all_shards key (alias ∷ aliases) d).1
                ≡ (others (ask d).1).1 =
              ap (λ r. r.1) (bind-runs ask next false d asked) in
            rw final
              (no_backend (ap (λ o. (o, (ask d).1)) asked) (session-Quiet key aliases (ask d).1 q))
      ]

  -- What the checks have seen, and the state after them.
  abbrev Checked : Target → LeaseHolder → Db → Db → Type 0
  Checked t h d after = (h.expired ≡ true) × Quiet t.key t.aliases d after

  checked-Expired :
      (t : Target) (h : LeaseHolder) (d : Db)
      → (checked e parse_int by_schema all_shards false t h d).0 ≡ ok tt
      → Checked t h d (checked e parse_int by_schema all_shards false t h d).1
  unfolding checked running pure
  checked-Expired t h d k =
      let m = session e parse_int by_schema all_shards t.key t.aliases in
      let judge = judged e parse_int by_schema all_shards h in
      let (found, a, j) = bind-ok (running cannot_check m) judge tt d k in
      let after = (running cannot_check m d).1 in
      let (p, q) = judged-Expired h found after j in
      let none_found : (running cannot_check m d).0 ≡ ok false = a ∙ ap (λ b. ok b) p in
      let asked = relabel-ok cannot_check (m d) false none_found in
      let final : (checked e parse_int by_schema all_shards false t h d).1 ≡ after =
        ap (λ r. r.1) (bind-runs (running cannot_check m) judge false d none_found) ∙ rw q refl in
      (q, rw (final, ← ap (λ r. r.1) asked) (session-Quiet t.key t.aliases d (ap (λ r. r.0) asked)))

  -- The last statement, from the state after the checks.
  record Freed (t : Target) (h : LeaseHolder) (asked after : Db) : Type 0 where
    at : Db
    link_2 : e.link asked ≡ (ok tt, at)
    owned : owned_by h.row.owner (holder at t.key) ≡ true
    freed : after ≡ (lease_release h.row.owner t.key at).1

  release-Freed :
      (t : Target) (h : LeaseHolder) (d : Db)
      → (lease_force_release e parse_int by_schema all_shards t.key h.row.owner d).0 ≡ ok true
      → Freed t h d (lease_force_release e parse_int by_schema all_shards t.key h.row.owner d).1
  unfolding lease_force_release modify running
  release-Freed t h d k =
      let m = running escaped e.link in
      let f = modify (lease_release h.row.owner t.key) in
      let (_, a, j) = bind-ok m (λ _. f) true d k in
      let at = (m d).1 in
      record {
        at = at;
        link_2 = relabel-ok escaped (e.link d) tt a;
        owned = release-owned h.row.owner t.key at (cc (j));
        freed = ap (λ r. r.1) (bind-runs m (λ _. f) tt d a);
      }

  finish-true :
      (t : Target) (b : Bool) (db : Db)
      → (finish e parse_int by_schema all_shards t b db).0 ≡ ok released
      → b ≡ true
  unfolding throw
  finish-true t true db k = refl
  finish-true t false db k =
      let m = running escaped (lease_holder_now e t.key) in
      let (_, _, j) = bind-ok m (λ _. throw (command_error hands_changed)) released db k in
      absurd (cc (j))

  -- Reading a holder is one statement on a connection that is there.
  record Shown (t : Target) (h : LeaseHolder) (d after : Db) : Type 0 where
    link_1 : e.link d ≡ (ok tt, after)
    shown : lease_holder t.key after ≡ some h

  holder_now-Shown :
      (t : Target) (h : LeaseHolder) (d : Db)
      → (running escaped (lease_holder_now e t.key) d).0 ≡ ok (some h)
      → Shown t h d (running escaped (lease_holder_now e t.key) d).1
  unfolding running lease_holder_now gets
  holder_now-Shown t h d k =
      let m = lease_holder_now e t.key in
      let read = relabel-ok escaped (m d) (some h) k in
      let (_, a, j) =
        bind-ok e.link (λ _. gets (lease_holder t.key)) (some h) d (ap (λ r. r.0) read) in
      let at = (e.link d).1 in
      let final : (running escaped m d).1 ≡ at =
        ap (λ r. r.1) (sym read)
        ∙ ap (λ r. r.1) (bind-runs e.link (λ _. gets (lease_holder t.key)) tt d a) in
      rw final (record { link_1 = ap (λ o. (o, at)) a; shown = cc (j) })

  abbrev held : Target → Option LeaseHolder → Exec Failure Db Answer
  held = release_held e parse_int by_schema all_shards false

  held-Freed :
      (t : Target) (o : Option LeaseHolder) (d : Db)
      → (held t o d).0 ≡ ok released
      → (h : LeaseHolder) × (o ≡ some h)
        × ((asked : Db) × Checked t h d asked × Freed t h asked (held t o d).1)
  unfolding pure
  held-Freed t none d k = absurd (cc (k))
  held-Freed t (some h) d k =
      let check = checked e parse_int by_schema all_shards false t h in
      let free = lease_force_release e parse_int by_schema all_shards t.key h.row.owner in
      let last = finish e parse_int by_schema all_shards t in
      let (b, a, j) = bind-ok (check >> free) last released d k in
      let yes = finish-true t b ((check >> free) d).1 j in
      let got = a ∙ ap (λ x. ok x) yes in
      let (_, c, l) = bind-ok check (λ _. free) true d got in
      let final : (held t (some h) d).1 ≡ (free (check d).1).1 =
        ap (λ r. r.1) (bind-runs (check >> free) last true d got)
        ∙ ap (λ r. r.1) (bind-runs check (λ _. free) tt d c) in
      (h, refl, ((check d).1, checked-Expired t h d c, rw final (release-Freed t h (check d).1 l)))

  -- A release without --force that says that it released a lease went through these states, one from
  -- the other: the text was resolved to a target; the holder was read of that target's lease, with
  -- its time over; each shard of the target was asked and had no backend of its migration; and at
  -- the last statement the lease was still that holder's, and this statement freed it and did
  -- nothing else.
  pub release_command_lem :
      (target : Text) (db : Db)
      → (command false target db).0 ≡ ok released
      → Released target db (command false target db).1
  unfolding release_command
  release_command_lem target db k =
      let m = resolve e parse_int by_schema all_shards target in
      let read : Target → Exec Failure Db (Option LeaseHolder) =
        λ t. running escaped (lease_holder_now e t.key) in
      let (t, a, j) = bind-ok m (λ t. read t >>= held t) released db k in
      let at = (m db).1 in
      let (o, c, l) = bind-ok (read t) (held t) released at j in
      let (h, p, (asked, seen, freed)) = held-Freed t o (read t at).1 l in
      let shown = holder_now-Shown t h at (c ∙ ap (λ x. ok x) p) in
      let final : (command false target db).1 ≡ (held t o (read t at).1).1 =
        ap (λ r. r.1) (bind-runs m (λ t. read t >>= held t) t db a)
        ∙ ap (λ r. r.1) (bind-runs (read t) (held t) o at c) in
      record {
        t = t;
        h = h;
        found = at;
        read = (read t at).1;
        asked = asked;
        at = freed.at;
        resolved = ap (λ x. (x, at)) a;
        link_1 = shown.link_1;
        shown = shown.shown;
        expired = seen.0;
        quiet = seen.1;
        link_2 = freed.link_2;
        owned = freed.owned;
        freed = final ∙ freed.freed;
      }

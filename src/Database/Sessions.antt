-- ===== src/Database/Sessions.antt =====
-- packages/core/sutram_core/db/session.py, middleware/tenant.py, and the sessions of the services'
-- app/dependencies.py. SQLAlchemy's session on PostgreSQL is a parameter; the engine's pools are
-- left out.
use sutram.Prelude.{
  Bool, true, false, Option, none, some, Text, if◌then◌else◌, Result, ok, err, ◌≡◌, refl, ◌∙◌,
}
use sutram.Prelude.Program.{Program, ◌>>◌}

-- A session of type `S` on a database of type `D`: what other sessions see of the database, what
-- this one sees, and `current_setting('app.current_tenant_id', true)`, none where it is NULL or empty.
-- SET LOCAL with a bound parameter may be refused, as PostgreSQL does, and COMMIT, which may fail,
-- makes all changes visible or none, and a transaction's end clears what SET LOCAL has set.
pub record AsyncSession (S D : Type 0) : Type 0 where
  pub stored : S → D
  pub seen : S → D
  pub tenant : S → Option Text
  pub set_local : Text → S → Bool × S
  pub commit : S → Bool × S
  pub rollback : S → S
  pub stored-commit : (s : S) → stored (commit s).1 ≡ (if (commit s).0 then seen s else stored s)
  pub seen-commit : (s : S) → seen (commit s).1 ≡ stored (commit s).1
  pub tenant-commit : (s : S) → tenant (commit s).1 ≡ none
  pub stored-rollback : (s : S) → stored (rollback s) ≡ stored s
  pub seen-rollback : (s : S) → seen (rollback s) ≡ stored s
  pub tenant-rollback : (s : S) → tenant (rollback s) ≡ none
  pub stored-set_local : (t : Text) (s : S) → stored (set_local t s).1 ≡ stored s
  pub seen-set_local : (t : Text) (s : S) → seen (set_local t s).1 ≡ seen s
  pub tenant-set_local :
      (t : Text) (s : S)
      → tenant (set_local t s).1 ≡ (if (set_local t s).0 then some t else tenant s)

-- An exception of the code that uses the session, one of the commit, and RuntimeError where
-- `init_db` has not run.
pub data SessionError (E : Type 0) : Type 0 where
  raised : E → SessionError E
  commit_failed : SessionError E
  not_initialized : SessionError E

module _ {S D : Type 0} (sql : AsyncSession S D) where
  abbrev accepted : {E : Type 0} → E → Bool × S → Result E (Unit {0}) × S
  accepted refused (true, s) = (ok tt, s)
  accepted refused (false, s) = (err refused, s)

  -- `refused` is the exception of a statement that the server refuses.
  unfoldable pub set_tenant_context : {E : Type 0} → E → Text → Program E S (Unit {0})
  set_tenant_context refused tenant_id s = accepted refused (sql.set_local tenant_id s)

  module _ {E A : Type 0} where
    abbrev committed : A → Bool × S → Result (SessionError E) A × S
    committed a (true, s) = (ok a, s)
    committed a (false, s) = (err commit_failed, sql.rollback s)

    -- The end of the `async with`, after what the code did.
    abbrev settled : Result E A × S → Result (SessionError E) A × S
    settled (ok a, s) = committed a (sql.commit s)
    settled (err e, s) = (err (raised e), sql.rollback s)

    -- `get_session`, around the code that gets the session.
    unfoldable pub get_session : Program E S A → Program (SessionError E) S A
    get_session body s = settled (body s)

    -- `get_db_session_context` and `get_db_session` of a service; the flag says whether there is a
    -- session factory.
    unfoldable pub get_db_session_context : Bool → Program E S A → Program (SessionError E) S A
    get_db_session_context initialized body s =
        if initialized then settled (body s) else (err not_initialized, s)

    unfoldable pub get_tenant_session :
        E → Bool → Text → Program E S A → Program (SessionError E) S A
    unfolding get_db_session_context
    get_tenant_session refused initialized tenant_id body =
        get_db_session_context initialized (set_tenant_context refused tenant_id >> body)

    -- What a session has left of a transaction that began in `s`: all of what the code did, if it
    -- returned and the commit went through, and nothing of it otherwise.
    pub data IsAtomic (s : S) (done : Result E A × S) : Result (SessionError E) A × S → Type 0 where
      kept :
          {a : A} {s' : S}
          → done.0 ≡ ok a
          → sql.stored s' ≡ sql.seen done.1
          → sql.tenant s' ≡ none
          → IsAtomic s done (ok a, s')
      undone :
          {e : SessionError E} {s' : S}
          → sql.stored s' ≡ sql.stored s
          → sql.seen s' ≡ sql.stored s
          → sql.tenant s' ≡ none
          → IsAtomic s done (err e, s')

    committed-IsAtomic :
        (s s' : S) (a : A) (r : Bool × S)
        → sql.stored s' ≡ sql.stored s
        → sql.stored r.1 ≡ (if r.0 then sql.seen s' else sql.stored s')
        → sql.tenant r.1 ≡ none
        → IsAtomic s (ok a, s') (committed a r)
    committed-IsAtomic s s' a (true, s'') h c t = kept refl c t
    committed-IsAtomic s s' a (false, s'') h c t =
        undone (sql.stored-rollback s'' ∙ c ∙ h) (sql.seen-rollback s'' ∙ c ∙ h)
          (sql.tenant-rollback s'')

    settled-IsAtomic :
        (s : S) (done : Result E A × S)
        → sql.stored done.1 ≡ sql.stored s
        → IsAtomic s done (settled done)
    settled-IsAtomic s (ok a, s') h =
        committed-IsAtomic s s' a (sql.commit s') h (sql.stored-commit s') (sql.tenant-commit s')
    settled-IsAtomic s (err e, s') h =
        undone (sql.stored-rollback s' ∙ h) (sql.seen-rollback s' ∙ h) (sql.tenant-rollback s')

    -- Code that leaves the commit to its session takes effect as a whole or not at all, as it
    -- returns and the commit goes through or not, and the tenant's context does not outlive the
    -- transaction.
    pub get_session-IsAtomic :
        (body : Program E S A) (s : S)
        → sql.stored (body s).1 ≡ sql.stored s
        → IsAtomic s (body s) (get_session body s)
    unfolding get_session
    get_session-IsAtomic body s h = settled-IsAtomic s (body s) h

    pub get_db_session_context-IsAtomic :
        (body : Program E S A) (s : S)
        → sql.stored (body s).1 ≡ sql.stored s
        → IsAtomic s (body s) (get_db_session_context true body s)
    unfolding get_db_session_context
    get_db_session_context-IsAtomic body s h = settled-IsAtomic s (body s) h

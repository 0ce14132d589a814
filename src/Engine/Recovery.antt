-- ===== src/Engine/Recovery.antt =====
-- services/workflow-service/app/engine/recovery.py and tasks/recover.py: the scans for stale executions.
-- Whether the call that sends an execution to the workers raises is a parameter, and so are the tokens of the locks.
pub mod Scans
use sutram.Prelude.{
  ℕ, List, [], ◌∷◌, Bool, true, false, ◌&&◌, Option, none, some, Text, ltb, if◌then◌else◌, Result,
  ok, err, filter, map,
}
use sutram.Redis.{Redis}
use sutram.Models.{Uuid, ExecutionStatus, running}
use sutram.Locking.{try_acquire, release}
use sutram.Engine.Exec.{ExecutionRow}
use sutram.Engine.Executor.{lock_key}

-- What leaves `enqueue`.
pub data EnqueueError : Type 0 where
  enqueue_error : EnqueueError

-- The lock database, and the executions sent to the workers, the latest first.
pub record Broker (Db : Type 0) : Type 0 where
  pub db : Db
  pub queue : List Uuid

abbrev is_running : ExecutionStatus → Bool
is_running running = true
is_running _ = false

-- `last_heartbeat < cutoff`, which SQL does not take for true where the column is NULL.
abbrev is_before : ℕ → Option ℕ → Bool
is_before cutoff none = false
is_before cutoff (some t) = ltb t cutoff

-- The ids that the query answers, in the order of the table.
unfoldable pub get_stale_executions : {V F : Type 0} → ℕ → List (ExecutionRow V F) → List Uuid
get_stale_executions cutoff rows =
    map (λ r. r.id) (filter (λ r. is_running r.status && is_before cutoff r.last_heartbeat) rows)

module _ {Db : Type 0} (redis : Redis Db) (enqueues : Uuid → Bool) where
  -- The body of the `async with`, after the lock has been acquired, and the release.
  enqueue_locked : Uuid → Text → Bool → Broker Db → Result EnqueueError Bool × Broker Db
  enqueue_locked execution_id token true s = (
    ok true,
    record {
      db = release redis (lock_key execution_id) token s.db;
      queue = execution_id ∷ s.queue;
    },
  )
  enqueue_locked execution_id token false s =
      (err enqueue_error, record s { db = release redis (lock_key execution_id) token s.db })

  unfoldable pub try_recover : Uuid → Text → Broker Db → Result EnqueueError Bool × Broker Db
  unfolding enqueue_locked
  try_recover execution_id token s =
      let (got, d) = try_acquire redis (lock_key execution_id) token 30 s.db in
      if got
      then enqueue_locked execution_id token (enqueues execution_id) (record s { db = d })
      else (ok false, record s { db = d })

  -- `run_once`, each stale execution with the token that its lock draws: an exception ends the scan.
  abbrev next_scan :
      Result EnqueueError Bool
      → Result EnqueueError (Unit {0}) × Broker Db
      → Broker Db
      → Result EnqueueError (Unit {0}) × Broker Db
  next_scan (ok recovered) rest s = rest
  next_scan (err e) rest s = (err e, s)

  pub run_once : List (Uuid × Text) → Broker Db → Result EnqueueError (Unit {0}) × Broker Db
  run_once [] s = (ok tt, s)
  run_once ((execution_id, token) ∷ stale) s =
      let (r, s') = try_recover execution_id token s in
      let rest = run_once stale s' in next_scan r rest s'

  -- `run_forever`, with the stale executions of each scan: exceptions are logged, and the loop ends
  -- where it is cancelled.
  unfoldable pub run_forever : List (List (Uuid × Text)) → Broker Db → Broker Db
  run_forever [] s = s
  run_forever (stale ∷ scans) s = run_forever scans (run_once stale s).1

  -- The beat task (tasks/recover.py): one scan of the rows, `token` being what each lock draws.
  unfoldable pub recover_stale_executions :
      {V F : Type 0}
      → ℕ
      → (Uuid → Text)
      → List (ExecutionRow V F)
      → Broker Db
      → Result EnqueueError (Unit {0}) × Broker Db
  recover_stale_executions cutoff token rows =
      run_once (map (λ id. (id, token id)) (get_stale_executions cutoff rows))

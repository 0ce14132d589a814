-- ===== src/Engine/Recovery/Scans.antt =====
-- recovery.py: which executions a scan sends to the workers.
use sutram.Prelude.{
  List, [], ◌∷◌, Bool, true, false, ◌≡◌, refl, arith, Option, none, some, Text, text_eq_refl,
  text_eq_iff, Option-cases, Bool-cases, inl, inr, if◌then◌else◌, Result, ok, All, ◌∙◌,
}
use sutram.Redis.{Redis}
use sutram.Models.{Uuid}
use sutram.Locking.{try_acquire}
use sutram.Locking.Workers.{get-release}
use sutram.Engine.Executor.{lock_key}
use sutram.Engine.Recovery.{Broker, try_recover, run_once, enqueue_locked, EnqueueError}

abbrev is_free : Option Text → Bool
is_free none = true
is_free (some t) = false

module _ {Db : Type 0} (redis : Redis Db) where
  -- The executions whose lock nobody holds, onto a queue, the latest first.
  abbrev pub recovered : List (Uuid × Text) → Db → List Uuid → List Uuid
  recovered [] d queue = queue
  recovered ((id, token) ∷ stale) d queue =
      let sent = recovered stale d (id ∷ queue) in
      let skipped = recovered stale d queue in
      if is_free (redis.get (lock_key id) d) then sent else skipped

  -- Two databases that answer every GET alike.
  abbrev pub Alike : Db → Db → Type 0
  Alike d e = (j : Text) → redis.get j d ≡ redis.get j e

  recovered-Alike :
      (stale : List (Uuid × Text)) (d e : Db) (queue : List Uuid)
      → Alike d e
      → recovered stale d queue ≡ recovered stale e queue
  recovered-Alike [] d e queue h = refl
  recovered-Alike ((id, token) ∷ stale) d e queue h = ground (
    arith,
    h (lock_key id),
    recovered-Alike stale d e (id ∷ queue) h,
    recovered-Alike stale d e queue h,
  )

  -- One attempt to recover, where the queue takes what it is given.
  pub record IsRecovered (id : Uuid) (s : Broker Db) (r : Result EnqueueError Bool × Broker Db)
      : Type 0 where
    pub result : r.0 ≡ ok (is_free (redis.get (lock_key id) s.db))
    pub queue :
        r.1.queue ≡ (if is_free (redis.get (lock_key id) s.db) then id ∷ s.queue else s.queue)
    pub locks : Alike r.1.db s.db

  try_recover-IsRecovered :
      (enqueues : Uuid → Bool) (id token : Text) (s : Broker Db)
      → enqueues id ≡ true
      → IsRecovered id s (try_recover redis enqueues id token s)
  unfolding try_recover try_acquire enqueue_locked
  try_recover-IsRecovered enqueues id token s works =
      elim (Option-cases (redis.get (lock_key id) s.db)) [
        | inl e ↦
            (let k = lock_key id in
              let (set, after) = redis.set_nx_absent k token 30 s.db e in
              let d = (redis.set_nx k token 30 s.db).1 in
              rw set (
                rw works (record {
                  result = ground (arith, e);
                  queue = ground (arith, e);
                  locks = λ j. ground (
                    arith,
                    get-release redis k 30 token j d,
                    after j,
                    after k,
                    text_eq_refl k,
                    text_eq_refl token,
                    e,
                    (text_eq_iff k j).0,
                  );
                })))
        | inr (w, e) ↦
            (let (set, after) = redis.set_nx_present (lock_key id) token w 30 s.db e in
              rw set
                (record { result = ground (arith, e); queue = ground (arith, e); locks = after }))
      ]

  queue_of :
      (id token : Text) (stale : List (Uuid × Text)) (d : Db) (queue : List Uuid) {q : List Uuid}
      → q ≡ (if is_free (redis.get (lock_key id) d) then id ∷ queue else queue)
      → recovered stale d q ≡ recovered ((id, token) ∷ stale) d queue
  queue_of id token stale d queue h = elim (Bool-cases (is_free (redis.get (lock_key id) d))) [
    | inl e ↦ rw h (rw e refl)
    | inr e ↦ rw h (rw e refl)
  ]

  -- A scan whose executions are all taken by the queue ends normally, and sends on exactly those
  -- whose lock is free when it begins, in their order; it leaves every key as it was,
  -- so that the workers can take the locks.
  pub run_once-recovered :
      (enqueues : Uuid → Bool) (stale : List (Uuid × Text)) (s : Broker Db)
      → All (λ e. enqueues e.0 ≡ true) stale
      → ((run_once redis enqueues stale s).0 ≡ ok tt)
        × ((run_once redis enqueues stale s).1.queue ≡ recovered stale s.db s.queue)
        × Alike (run_once redis enqueues stale s).1.db s.db
  unfolding run_once
  run_once-recovered enqueues [] s h = (refl, refl, λ j. refl)
  run_once-recovered enqueues ((id, token) ∷ stale) s h =
      let one = try_recover-IsRecovered enqueues id token s h.0 in
      let (ends, sent, alike) =
        run_once-recovered enqueues stale (try_recover redis enqueues id token s).1 h.1 in
      let same =
        recovered-Alike stale (try_recover redis enqueues id token s).1.db s.db
          (try_recover redis enqueues id token s).1.queue one.locks in
      rw one.result (
        ends,
        sent ∙ same ∙ queue_of id token stale s.db s.queue one.queue,
        λ j. alike j ∙ one.locks j,
      )

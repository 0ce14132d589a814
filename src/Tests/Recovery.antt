-- ===== src/Tests/Recovery.antt =====
-- The theorem of the recovery scan at two executions, one of which is locked.
use sutram.Prelude.{[], ◌∷◌, true, ◌≡◌, refl, some, ok, codes}
use sutram.Engine.Executor.{lock_key}
use sutram.Engine.Recovery.{Broker, run_once}
use sutram.Engine.Recovery.Scans.{Alike, run_once-recovered}
use sutram.Tests.Servers.{Db, empty_db, put, redis}

abbrev one_locked : Broker Db
one_locked = record { db = put (lock_key (codes "a")) (some (codes "w")) empty_db; queue = [] }

run_once-recovered_example :
    ((run_once redis
        (λ e. true)
        ((codes "a", codes "1") ∷ (codes "b", codes "2") ∷ [])
        one_locked).0
      ≡ ok tt)
    × ((run_once redis
          (λ e. true)
          ((codes "a", codes "1") ∷ (codes "b", codes "2") ∷ [])
          one_locked).1.queue
        ≡ codes "b" ∷ [])
    × Alike redis
        (run_once redis
          (λ e. true)
          ((codes "a", codes "1") ∷ (codes "b", codes "2") ∷ [])
          one_locked).1.db
        one_locked.db
run_once-recovered_example =
    run_once-recovered redis (λ e. true) ((codes "a", codes "1") ∷ (codes "b", codes "2") ∷ [])
      one_locked (refl, (refl, tt))

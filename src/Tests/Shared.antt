-- ===== src/Tests/Shared.antt =====
-- The theorems of the lock and of the rate limiter on a concrete Redis server.
use sutram.Prelude.{Text, [], ◌∷◌, ◌≡◌, refl, codes}
use sutram.Locking.{try_acquire, release}
use sutram.Locking.Workers.{
  Shared, IsExclusive, here, next, enter, leave_late, lapse, Reach-excludes,
}
use sutram.Middleware.RateLimit.Windows.{passed, passed-exact}
use sutram.Tests.Servers.{Db, empty_db, redis}

abbrev idle : Shared Db
idle = record { db = empty_db; holders = []; overdue = [] }

abbrev entered : Text → Shared Db → Shared Db
entered token s = record s {
  db = (try_acquire redis (codes "k") token 30 s.db).1;
  holders = token ∷ s.holders;
}

abbrev lapsed : Shared Db
lapsed = record {
  db = redis.delete (codes "k") (entered (codes "t1") idle).db;
  holders = [];
  overdue = codes "t1" ∷ [];
}

abbrev left : Shared Db
left = record (entered (codes "t2") lapsed) {
  db = release redis (codes "k") (codes "t1") (entered (codes "t2") lapsed).db;
  overdue = [];
}

-- A worker whose key was dropped leaves while another one is inside.
Reach-excludes_example : IsExclusive redis (codes "k") 30 left
unfolding try_acquire
Reach-excludes_example = Reach-excludes redis (codes "k") 30 {s = idle} {u = left} refl (
    next
      (next
        (next (next here (enter idle (codes "t1") refl refl)) (lapse (entered (codes "t1") idle)))
        (enter lapsed (codes "t2") refl refl))
      (leave_late (entered (codes "t2") lapsed) (codes "t1") refl))

passed-exact_example :
    passed redis 2
      (codes "ab")
      1
      ((codes "ab", 61) ∷ (codes "cd", 70) ∷ (codes "ab", 80) ∷ (codes "ab", 119) ∷ [])
      empty_db
    ≡ 2
passed-exact_example =
    passed-exact redis 2 (codes "ab") 1
      ((codes "ab", 61) ∷ (codes "cd", 70) ∷ (codes "ab", 80) ∷ (codes "ab", 119) ∷ []) empty_db
      (refl, (refl, (refl, (refl, tt)))) refl

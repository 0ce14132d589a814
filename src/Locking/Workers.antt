-- ===== src/Locking/Workers.antt =====
-- redis_lock.py: any number of workers that share one key, in any order of their commands, with a
-- server that may drop the key when its TTL runs out.
use sutram.Prelude.{
  ℕ, List, [], ◌∷◌, Bool, true, false, ◌≡◌, refl, arith, Option, none, some, Text, text_eq,
  text_eq_refl, any, if◌then◌else◌, Option-cases, inl, inr, ◌&&◌, ap, ◌++◌, Bool-cases, ◌∙◌,
  text_eq_iff, sym,
}
use sutram.Redis.{Redis}
use sutram.Locking.{try_acquire, release, renew}

-- `holders` are the tokens of the workers inside their critical sections whose key the server has
-- not dropped since they entered, and `overdue` those of the others inside.
pub record Shared (Db : Type 0) : Type 0 where
  pub db : Db
  pub holders : List Text
  pub overdue : List Text

-- A holder's token leaves the list once.
abbrev pub without : Text → List Text → List Text
without t [] = []
without t (u ∷ us) = if text_eq u t then us else u ∷ without t us

abbrev pub holds : List Text → Text → Bool
holds us t = any (λ u. text_eq u t) us

abbrev pub is_own : Text → Option Text → Bool
is_own t none = false
is_own t (some current) = text_eq current t

module _ {Db : Type 0} (redis : Redis Db) (key : Text) (ttl : ℕ) where
  -- A worker enters with a token of its own, and leaves by the release, whether its key was dropped
  -- meanwhile or not, or dies without it.
  pub data Step : Shared Db → Shared Db → Type 0 where
    enter :
        (s : Shared Db) (t : Text)
        → holds s.overdue t ≡ false
        → (try_acquire redis key t ttl s.db).0 ≡ true
        → Step s (record s { db = (try_acquire redis key t ttl s.db).1; holders = t ∷ s.holders })
    refuse :
        (s : Shared Db) (t : Text)
        → (try_acquire redis key t ttl s.db).0 ≡ false
        → Step s (record s { db = (try_acquire redis key t ttl s.db).1 })
    beat : (s : Shared Db) (t : Text) → Step s (record s { db = (renew redis key t ttl s.db).1 })
    leave :
        (s : Shared Db) (t : Text)
        → holds s.holders t ≡ true
        → Step s (record s { db = release redis key t s.db; holders = without t s.holders })
    leave_late :
        (s : Shared Db) (t : Text)
        → holds s.overdue t ≡ true
        → Step s (record s { db = release redis key t s.db; overdue = without t s.overdue })
    die :
        (s : Shared Db) (t : Text)
        → holds s.holders t ≡ true
        → Step s (record s { holders = without t s.holders })
    lapse :
        (s : Shared Db)
        → Step s
            (record { db = redis.delete key s.db; holders = []; overdue = s.holders ++ s.overdue })

  pub data Reach (s : Shared Db) : Shared Db → Type 0 where
    here : Reach s s
    next : {t u : Shared Db} → Reach s t → Step t u → Reach s u

  -- Nobody is inside with a key that has not been dropped, or one worker is, and the key has its
  -- token, which no overdue worker has.
  pub data IsExclusive (s : Shared Db) : Type 0 where
    free : s.holders ≡ [] → IsExclusive s
    taken :
        (t : Text)
        → s.holders ≡ t ∷ []
        → redis.get key s.db ≡ some t
        → holds s.overdue t ≡ false
        → IsExclusive s

  holds-without :
      (t u : Text) (us : List Text) → holds us t ≡ false → holds (without u us) t ≡ false
  holds-without t u [] h = refl
  holds-without t u (v ∷ us) h = ground (arith, holds-without t u us)

  without-one : (t u : Text) → holds (u ∷ []) t ≡ true → without t (u ∷ []) ≡ []
  without-one t u h = ground (arith, h)

  differs :
      (t u : Text) (us : List Text) → holds us t ≡ true → holds us u ≡ false → text_eq u t ≡ false
  differs t u us h k = elim (Bool-cases (text_eq u t)) [
    | inl e ↦ let same = (text_eq_iff u t).0 e in cc (h, k, same)
    | inr e ↦ e
  ]

  get-enter :
      (t : Text) (d : Db)
      → (try_acquire redis key t ttl d).0 ≡ true
      → (redis.get key d ≡ none) × (redis.get key (try_acquire redis key t ttl d).1 ≡ some t)
  unfolding try_acquire
  get-enter t d h = elim (Option-cases (redis.get key d)) [
    | inl e ↦ (e, ground (arith, (redis.set_nx_absent key t ttl d e).1 key, text_eq_refl key))
    | inr (w, e) ↦ cc (h, (redis.set_nx_present key t w ttl d e).0)
  ]

  get-refuse :
      (t : Text) (d : Db)
      → (try_acquire redis key t ttl d).0 ≡ false
      → redis.get key (try_acquire redis key t ttl d).1 ≡ redis.get key d
  unfolding try_acquire
  get-refuse t d h = elim (Option-cases (redis.get key d)) [
    | inl e ↦ cc (h, (redis.set_nx_absent key t ttl d e).0)
    | inr (w, e) ↦ (redis.set_nx_present key t w ttl d e).1 key
  ]

  get-renew : (t : Text) (d : Db) → redis.get key (renew redis key t ttl d).1 ≡ redis.get key d
  unfolding renew
  get-renew t d = ground (arith, redis.get-expire key key ttl d)

  -- The release script deletes the key exactly where it holds the caller's token, and touches no
  -- other key.
  pub get-release :
      (t j : Text) (d : Db)
      → redis.get j (release redis key t d)
        ≡ (if text_eq key j && is_own t (redis.get key d) then none else redis.get j d)
  unfolding release
  get-release t j d = ground (arith, redis.get-delete key j d)

  Step-IsExclusive : {s u : Shared Db} → Step s u → IsExclusive s → IsExclusive u
  Step-IsExclusive (enter s t f h) (free e) = taken t (ap (λ l. t ∷ l) e) (get-enter t s.db h).1 f
  Step-IsExclusive (enter s t f h) (taken u e k o) = cc ((get-enter t s.db h).0, k)
  Step-IsExclusive (refuse s t h) (free e) = free e
  Step-IsExclusive (refuse s t h) (taken u e k o) = taken u e (get-refuse t s.db h ∙ k) o
  Step-IsExclusive (beat s t) (free e) = free e
  Step-IsExclusive (beat s t) (taken u e k o) = taken u e (get-renew t s.db ∙ k) o
  Step-IsExclusive (leave s t h) (free e) = free (rw e refl)
  Step-IsExclusive (leave s t h) (taken u e k o) =
      free (rw e (without-one t u (sym (ap (λ l. holds l t) e) ∙ h)))
  Step-IsExclusive (leave_late s t h) (free e) = free e
  Step-IsExclusive (leave_late s t h) (taken u e k o) =
      let other = differs t u s.overdue h o in
      taken u e (ground (arith, get-release t key s.db, k, other)) (holds-without u t s.overdue o)
  Step-IsExclusive (die s t h) (free e) = free (rw e refl)
  Step-IsExclusive (die s t h) (taken u e k o) =
      free (rw e (without-one t u (sym (ap (λ l. holds l t) e) ∙ h)))
  Step-IsExclusive (lapse s) x = free refl

  Reach-IsExclusive : {s u : Shared Db} → Reach s u → IsExclusive s → IsExclusive u
  Reach-IsExclusive here x = x
  Reach-IsExclusive (next r step) x = Step-IsExclusive step (Reach-IsExclusive r x)

  -- From a state with no worker inside, however the workers' commands interleave with tokens that no
  -- overdue worker has, with deaths and with keys that are dropped: at most one worker is inside
  -- whose key has not been dropped since it entered, and if there is one, the key has its token.
  pub Reach-excludes : {s u : Shared Db} → s.holders ≡ [] → Reach s u → IsExclusive u
  Reach-excludes none_inside r = Reach-IsExclusive r (free none_inside)

-- ===== src/Tests/Sessions.antt =====
-- The theorems of the sessions on a database that is a list of rows.
use sutram.Prelude.{List, [], ◌∷◌, true, Option, none, some, Text, err, refl, ℕ}
use sutram.Prelude.Program.{Program}
use sutram.Database.Sessions.{AsyncSession, IsAtomic, get_session, get_session-IsAtomic}

record Session (D : Type 0) : Type 0 where
  stored : D
  seen : D
  tenant : Option Text

abbrev session : {D : Type 0} → AsyncSession (Session D) D
session = record {
  stored = λ s. s.stored;
  seen = λ s. s.seen;
  tenant = λ s. s.tenant;
  set_local = λ t s. (true, record s { tenant = some t });
  commit = λ s. (true, record s { stored = s.seen; tenant = none });
  rollback = λ s. record s { seen = s.stored; tenant = none };
  stored-commit = λ s. refl;
  seen-commit = λ s. refl;
  tenant-commit = λ s. refl;
  stored-rollback = λ s. refl;
  seen-rollback = λ s. refl;
  tenant-rollback = λ s. refl;
  stored-set_local = λ t s. refl;
  seen-set_local = λ t s. refl;
  tenant-set_local = λ t s. refl;
}

abbrev numbers : Session (List ℕ)
numbers = record { stored = 1 ∷ []; seen = 1 ∷ []; tenant = none }

-- A row is inserted, and then the code raises.
abbrev insert_and_raise : Program ℕ (Session (List ℕ)) (Unit {0})
insert_and_raise s = (err 7, record s { seen = 2 ∷ s.seen })

get_session-IsAtomic_example :
    IsAtomic session numbers
      (insert_and_raise numbers)
      (get_session session insert_and_raise numbers)
get_session-IsAtomic_example = get_session-IsAtomic session insert_and_raise numbers refl

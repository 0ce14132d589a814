-- ===== src/Tests/Engine.antt =====
-- The theorems of the engine at concrete inputs.
use sutram.Prelude.{ℕ, List, [], ◌∷◌, true, ◌≡◌, refl, ok, err, All, drop}
use sutram.Models.{pending, running, cancelled, completed}
use sutram.Engine.Checkpoint.{get_latest}
use sutram.Engine.Cost.{CostTracker}
use sutram.Engine.Cost.Limits.{add_all, IsWithin, add_all-IsWithin}
use sutram.Engine.Exec.{lock_set, lock_release, select_latest, invalid_transition, Call}
use sutram.Engine.Executor.{run, lock_key}
use sutram.Engine.Executor.Outline.{outline, run_marks}
use sutram.Engine.Executor.Completes.{run-completes}
use sutram.Engine.Executor.Refused.{run-not_pending}
use sutram.Engine.Executor.Releases.{IsHeld, IsReleased, run-releases}
use sutram.Engine.Executor.Stops.{Obeys, run-stops}
use sutram.Engine.Executor.Skips.{RanFrom, run-skips}
use sutram.Tests.Servers.{nat_floats}
use sutram.Tests.Samples.{run_id, three_steps, row, saved_at, host, host-IsQuiet, nat_floats-IsFree}

abbrev tracker : CostTracker ℕ
tracker = record { max_per_execution = 10; max_per_day = 20; total = 0; daily_total = 0 }

add_all-IsWithin_example : IsWithin nat_floats (add_all nat_floats (6 ∷ 7 ∷ 3 ∷ []) tracker)
add_all-IsWithin_example =
    add_all-IsWithin nat_floats (6 ∷ 7 ∷ 3 ∷ []) tracker (record { execution = refl; day = refl })

run-completes_example :
    ((run nat_floats (host true running (saved_at 0 ∷ [])) three_steps 10 20 (row pending)).0
      ≡ ok tt)
    × ((run nat_floats
          (host true running (saved_at 0 ∷ []))
          three_steps
          10
          20
          (row pending)).1.row.status
        ≡ completed)
    × (outline
          (run nat_floats
            (host true running (saved_at 0 ∷ []))
            three_steps
            10
            20
            (row pending)).1.trace
        ≡ run_marks run_id 1 (drop 1 three_steps.steps) 3)
unfolding get_latest
run-completes_example =
    run-completes nat_floats (host true running (saved_at 0 ∷ [])) (row pending) 10 20
      (host-IsQuiet (saved_at 0 ∷ [])) (nat_floats-IsFree (saved_at 0 ∷ [])) three_steps refl

run-skips_example :
    All (RanFrom 2) (
      outline
        (run nat_floats
          (host true running (saved_at 1 ∷ []))
          three_steps
          10
          20
          (row pending)).1.trace)
    × ((run nat_floats
          (host true running (saved_at 1 ∷ []))
          three_steps
          10
          20
          (row pending)).1.row.status
        ≡ completed)
unfolding get_latest
run-skips_example =
    run-skips nat_floats (host true running (saved_at 1 ∷ [])) (row pending) 10 20
      (host-IsQuiet (saved_at 1 ∷ [])) (nat_floats-IsFree (saved_at 1 ∷ [])) three_steps
      (saved_at 1) refl refl

run-not_pending_example :
    ((run nat_floats (host true running []) three_steps 10 20 (row running)).0
      ≡ err (invalid_transition (record { status = running; trigger = "submit" })))
    × ((run nat_floats (host true running []) three_steps 10 20 (row running)).1.row ≡ row running)
    × ((run nat_floats (host true running []) three_steps 10 20 (row running)).1.trace
        ≡ lock_release (lock_key run_id)
          ∷ select_latest run_id
          ∷ lock_set (lock_key run_id) 30
          ∷ [])
run-not_pending_example =
    run-not_pending nat_floats (host true running []) (row running) 10 20 (λ t c. refl) three_steps
      (λ t. refl) refl (λ h. cc h)

run-releases_example :
    (t : List (Call ℕ ℕ)) × IsHeld (lock_key run_id) t
    × IsReleased nat_floats
        (host true cancelled [])
        (lock_key run_id)
        t
        (run nat_floats (host true cancelled []) three_steps 10 20 (row pending))
run-releases_example =
    run-releases nat_floats (host true cancelled []) (row pending) 10 20 three_steps refl refl

run-stops_example :
    Obeys
      (host true cancelled [])
      (lock_key run_id)
      (run nat_floats (host true cancelled []) three_steps 10 20 (row pending)).1.trace
run-stops_example =
    run-stops nat_floats (host true cancelled []) (row pending) 10 20 three_steps refl refl

-- ===== src/Tests/Executions.antt =====
-- The theorems of the execution commands on a table of two rows.
use sutram.Prelude.{ℕ, [], ◌∷◌, true, false, ◌≡◌, refl, ◌⊎◌, err, codes}
use sutram.Models.{paused, running}
use sutram.Executions.{Service, HttpError, resume_execution, find_row}
use sutram.Executions.Commands.{
  resume, cancel, obey_all, Pairwise, IsLegal, is_paused, obey_all-IsLegal, resume_execution-queue,
}
use sutram.Tests.Samples.{row, run_id}

abbrev service : Service ℕ ℕ
service = record { rows = row paused ∷ record (row running) { id = codes "ff" } ∷ []; queue = [] }

obey_all-IsLegal_example :
    Pairwise
      (IsLegal (codes "7a"))
      service.rows
      (obey_all (resume run_id (codes "7a") ∷ cancel (codes "ff") (codes "7a") ∷ []) service).rows
obey_all-IsLegal_example =
    obey_all-IsLegal (codes "7a")
      (resume run_id (codes "7a") ∷ cancel (codes "ff") (codes "7a") ∷ []) service
      (refl, (refl, tt))

resume_execution-queue_example :
    ((is_paused (find_row run_id (codes "7a") service.rows) ≡ true)
      × ((resume_execution run_id (codes "7a") service).1.queue ≡ run_id ∷ []))
    ⊎ ((is_paused (find_row run_id (codes "7a") service.rows) ≡ false)
        × (e : HttpError) × (resume_execution run_id (codes "7a") service ≡ (err e, service)))
resume_execution-queue_example = resume_execution-queue run_id (codes "7a") service

-- ===== src/Tests/Streams.antt =====
-- The theorems of started executions and event streams at concrete inputs.
use sutram.Prelude.{refl, ℕ, List, [], ◌∷◌, any, ◌≡◌, Text, codes, ok}
use sutram.Prelude.Dicts.{Dict}
use sutram.Models.{pending, Uuid}
use sutram.Engine.Exec.{ExecutionRow}
use sutram.Executions.{get_execution}
use sutram.Workflows.{CreateWorkflowRequest, Tables, get_workflow, execute}
use sutram.Workflows.Starts.{asked, create_all, execute-create_workflow}
use sutram.Workflows.Sse.{
  Entry, event_generator, through_last, acts_of, concat, is_last, event_generator-through_last,
}
use sutram.Tests.Servers.{nat_floats}

abbrev request : CreateWorkflowRequest ℕ
request = record { name = codes "n"; description = []; definition = 7 }

abbrev empty : Tables ℕ ℕ ℕ
empty = record { workflows = []; executions = record { rows = []; queue = [] }; snapshots = [] }

abbrev others : List (CreateWorkflowRequest ℕ × Uuid × Uuid)
others = (record { name = codes "m"; description = []; definition = 8 }, codes "v", codes "t") ∷ []

abbrev created : Tables ℕ ℕ ℕ
created = create_all ((request, codes "w", codes "t") ∷ others) empty

execute-create_workflow_example :
    (get_workflow (codes "w") (codes "t") created ≡ ok (asked request (codes "w") (codes "t")))
    × (row : ExecutionRow ℕ ℕ) × ((execute nat_floats
          (codes "x")
          (codes "w")
          5
          (codes "t")
          created).0
        ≡ ok row)
    × (get_execution
          (codes "x")
          (codes "t")
          (execute nat_floats (codes "x") (codes "w") 5 (codes "t") created).1.executions
        ≡ ok row)
    × (row.status ≡ pending)
    × (row.context.workflow_id ≡ codes "w")
    × (row.context.variables ≡ 5)
    × ((execute nat_floats (codes "x") (codes "w") 5 (codes "t") created).1.snapshots
        ≡ (codes "x", 7) ∷ created.snapshots)
    × ((execute nat_floats (codes "x") (codes "w") 5 (codes "t") created).1.executions.queue
        ≡ codes "x" ∷ created.executions.queue)
execute-create_workflow_example =
    execute-create_workflow nat_floats request (codes "w") (codes "x") (codes "t") 5 others empty
      created (refl, tt) refl

abbrev typed : Text → Dict
typed t = (codes "event_type", t) ∷ []

abbrev polls : List (List Entry)
polls =
    ((codes "1", typed (codes "execution.started")) ∷ [])
    ∷ []
    ∷ ((codes "2", typed (codes "execution.completed")) ∷ (codes "3", typed (codes "late")) ∷ [])
    ∷ []

event_generator-through_last_example :
    ((event_generator (λ d. codes "{}") polls).0
      ≡ acts_of (λ d. codes "{}") (through_last (concat polls)))
    × ((event_generator (λ d. codes "{}") polls).1 ≡ any is_last (concat polls))
event_generator-through_last_example = event_generator-through_last (λ d. codes "{}") polls

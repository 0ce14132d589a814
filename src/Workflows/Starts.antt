-- ===== src/Workflows/Starts.antt =====
-- services/workflow-service/app/routes: from a created workflow to a pending execution.
use sutram.Prelude.{
  List, [], ◌∷◌, Bool, false, ◌&&◌, ◌≡◌, refl, text_eq, text_eq_refl, ok, All, some,
}
use sutram.Prelude.Floats.{FloatOps}
use sutram.Models.{Uuid, pending}
use sutram.Engine.Exec.{ExecutionRow}
use sutram.Executions.{get_execution}
use sutram.Workflows.{
  Workflow, CreateWorkflowRequest, Tables, new_workflow, create_workflow, find_workflow,
  found_workflow, get_workflow, start, execute, new_execution,
}

-- What a request asks for, under its id.
abbrev pub asked : {D : Type 0} → CreateWorkflowRequest D → Uuid → Uuid → Workflow D
asked body id tenant_id = record {
  id = id;
  tenant_id = tenant_id;
  name = body.name;
  description = body.description;
  definition = body.definition;
}

module _ {D V F : Type 0} where
  -- Requests that are served one after the other, each with the id that is drawn and the tenant.
  unfoldable pub create_all :
      List (CreateWorkflowRequest D × Uuid × Uuid) → Tables D V F → Tables D V F
  create_all [] s = s
  create_all ((body, id, tenant_id) ∷ rest) s =
      create_all rest (create_workflow body id tenant_id s).1

  module _ (workflow_id : Uuid) where
    find-create_all :
        (test : Workflow D → Bool) (others : List (CreateWorkflowRequest D × Uuid × Uuid))
        (w : Workflow D) (s : Tables D V F)
        → ((w : Workflow D) → text_eq w.id workflow_id ≡ false → test w ≡ false)
        → All (λ (body, id, tenant). text_eq id workflow_id ≡ false) others
        → find_workflow test s.workflows ≡ some w
        → find_workflow test (create_all others s).workflows ≡ some w
    unfolding create_all create_workflow new_workflow find_workflow
    find-create_all test [] w s skips fresh h = h
    find-create_all test ((body, id, tenant) ∷ rest) w s skips fresh h =
        find-create_all test rest w (create_workflow body id tenant s).1 skips fresh.1
          (rw (skips (new_workflow body id tenant) fresh.0) h)

    pub found-create_all :
        (body : CreateWorkflowRequest D) (tenant_id : Uuid)
        (others : List (CreateWorkflowRequest D × Uuid × Uuid)) (s : Tables D V F)
        → All (λ (b, id, tenant). text_eq id workflow_id ≡ false) others
        → (find_workflow
              (λ w. text_eq w.id workflow_id && text_eq w.tenant_id tenant_id)
              (create_all ((body, workflow_id, tenant_id) ∷ others) s).workflows
            ≡ some (asked body workflow_id tenant_id))
          × (find_workflow
                (λ w. text_eq w.id workflow_id)
                (create_all ((body, workflow_id, tenant_id) ∷ others) s).workflows
              ≡ some (asked body workflow_id tenant_id))
    unfolding create_all create_workflow new_workflow find_workflow
    found-create_all body tenant_id others s fresh =
        let s' = (create_workflow body workflow_id tenant_id s).1 in
        (
          find-create_all (λ w. text_eq w.id workflow_id && text_eq w.tenant_id tenant_id) others
              (asked body workflow_id tenant_id) s' (λ w h. rw h refl) fresh
              (rw (text_eq_refl workflow_id) (rw (text_eq_refl tenant_id) refl)),
          find-create_all (λ w. text_eq w.id workflow_id) others (asked body workflow_id tenant_id)
              s' (λ w h. h) fresh (rw (text_eq_refl workflow_id) refl),
        )

module _ {D V F : Type 0} (floats : FloatOps F) where
  -- A workflow that a tenant has created, after any other workflows with other ids: the tenant reads
  -- it back with the name, the description and the definition that the request gave. Executing it
  -- answers with a pending row of the tenant and the workflow that holds the inputs; the tenant
  -- reads that row back by its id, the execution keeps the definition of the request, and its id is
  -- the one that is sent to the workers.
  pub execute-create_workflow :
      (body : CreateWorkflowRequest D) (workflow_id exec_id tenant_id : Uuid) (inputs : V)
      (others : List (CreateWorkflowRequest D × Uuid × Uuid)) (s t : Tables D V F)
      → All (λ (b, id, tenant). text_eq id workflow_id ≡ false) others
      → t ≡ create_all ((body, workflow_id, tenant_id) ∷ others) s
      → (get_workflow workflow_id tenant_id t ≡ ok (asked body workflow_id tenant_id))
        × (row : ExecutionRow V F) × ((execute floats exec_id workflow_id inputs tenant_id t).0
            ≡ ok row)
        × (get_execution exec_id tenant_id
              (execute floats exec_id workflow_id inputs tenant_id t).1.executions
            ≡ ok row)
        × (row.status ≡ pending)
        × (row.context.workflow_id ≡ workflow_id)
        × (row.context.variables ≡ inputs)
        × ((execute floats exec_id workflow_id inputs tenant_id t).1.snapshots
            ≡ (exec_id, body.definition) ∷ t.snapshots)
        × ((execute floats exec_id workflow_id inputs tenant_id t).1.executions.queue
            ≡ exec_id ∷ t.executions.queue)
  unfolding get_workflow found_workflow execute start new_execution get_execution
  execute-create_workflow body workflow_id exec_id tenant_id inputs others s t fresh e =
      let (own, any_tenant) = found-create_all workflow_id body tenant_id others s fresh in
      rw e (
        rw own (
          rw any_tenant (
            rw (text_eq_refl tenant_id)
              (rw (text_eq_refl exec_id) (refl, _, refl, refl, refl, refl, refl, refl, refl)))))

-- ===== src/Events/Classes/Types.antt =====
-- The class and the tenant of an event that has been read.
use sutram.Prelude.{
  Option, some, Text, codes, text_eq, text_eq_iff, if◌then◌else◌, ◌≡◌, arith, Bool-cases,
  Option-cases, inl, inr,
}
use sutram.Prelude.Dicts.{Dict, get_item}
use sutram.Models.{Uuid}
use sutram.Events.{Event, ExecutionIds}
use sutram.Events.Messages.{event_type, event_tenant}
use sutram.Events.Classes.{
  Coercions, required, read_base, read_ids, read_started, read_step_completed, read_step_failed,
  read_execution_completed, read_execution_paused, read_memory_written, read_memory_searched,
  model_validate,
}

module _ {F Time : Type 0} (c : Coercions F Time) (d : Dict) where
  read_base-required :
      (u : Uuid)
      → read_base c d ≡ some u
      → required c.uuid (get_item (codes "tenant_id") d) ≡ some u
  unfolding read_base
  read_base-required u h = ground (arith, h)

  read_ids-tenant :
      (ids : ExecutionIds) → read_ids c d ≡ some ids → read_base c d ≡ some ids.tenant_id
  unfolding read_ids
  read_ids-tenant ids h = ground (arith, h)

  abbrev pub IsOf : Text → Event F → Type 0
  IsOf t e =
      (event_type e ≡ t)
      × (required c.uuid (get_item (codes "tenant_id") d) ≡ some (event_tenant e))

  read_ids-required :
      (ids : ExecutionIds)
      → read_ids c d ≡ some ids
      → required c.uuid (get_item (codes "tenant_id") d) ≡ some ids.tenant_id
  read_ids-required ids h = read_base-required ids.tenant_id (read_ids-tenant ids h)

  read_started-IsOf : (e : Event F) → read_started c d ≡ some e → IsOf (codes "execution.started") e
  unfolding read_started
  read_started-IsOf e = elim (Option-cases (read_ids c d)) [
    | inl n ↦ rw n (λ h. cc h)
    | inr (ids, n) ↦ rw n (λ h. ground (arith, h, read_ids-required ids n))
  ]

  read_step_completed-IsOf :
      (e : Event F) → read_step_completed c d ≡ some e → IsOf (codes "execution.step.completed") e
  unfolding read_step_completed
  read_step_completed-IsOf e = elim (Option-cases (read_ids c d)) [
    | inl n ↦ rw n (λ h. cc h)
    | inr (ids, n) ↦ rw n (λ h. ground (arith, h, read_ids-required ids n))
  ]

  read_step_failed-IsOf :
      (e : Event F) → read_step_failed c d ≡ some e → IsOf (codes "execution.step.failed") e
  unfolding read_step_failed
  read_step_failed-IsOf e = elim (Option-cases (read_ids c d)) [
    | inl n ↦ rw n (λ h. cc h)
    | inr (ids, n) ↦ rw n (λ h. ground (arith, h, read_ids-required ids n))
  ]

  read_execution_completed-IsOf :
      (e : Event F) → read_execution_completed c d ≡ some e → IsOf (codes "execution.completed") e
  unfolding read_execution_completed
  read_execution_completed-IsOf e = elim (Option-cases (read_ids c d)) [
    | inl n ↦ rw n (λ h. cc h)
    | inr (ids, n) ↦ rw n (λ h. ground (arith, h, read_ids-required ids n))
  ]

  read_execution_paused-IsOf :
      (e : Event F) → read_execution_paused c d ≡ some e → IsOf (codes "execution.paused") e
  unfolding read_execution_paused
  read_execution_paused-IsOf e = elim (Option-cases (read_ids c d)) [
    | inl n ↦ rw n (λ h. cc h)
    | inr (ids, n) ↦ rw n (λ h. ground (arith, h, read_ids-required ids n))
  ]

  read_memory_written-IsOf :
      (e : Event F) → read_memory_written c d ≡ some e → IsOf (codes "memory.written") e
  unfolding read_memory_written
  read_memory_written-IsOf e = elim (Option-cases (read_base c d)) [
    | inl n ↦ rw n (λ h. cc h)
    | inr (u, n) ↦ rw n (λ h. ground (arith, h, read_base-required u n))
  ]

  read_memory_searched-IsOf :
      (e : Event F) → read_memory_searched c d ≡ some e → IsOf (codes "memory.searched") e
  unfolding read_memory_searched
  read_memory_searched-IsOf e = elim (Option-cases (read_base c d)) [
    | inl n ↦ rw n (λ h. cc h)
    | inr (u, n) ↦ rw n (λ h. ground (arith, h, read_base-required u n))
  ]

  if-IsOf :
      (t u : Text) (p q : Option (Event F)) (e : Event F)
      → (p ≡ some e → IsOf u e)
      → (q ≡ some e → IsOf t e)
      → (if text_eq t u then p else q) ≡ some e
      → IsOf t e
  if-IsOf t u p q e f g = elim (Bool-cases (text_eq t u)) [
    | inl m ↦ rw m (λ h. rw ((text_eq_iff t u).0 m) (f h))
    | inr m ↦ rw m g
  ]

  pub model_validate-IsOf : (t : Text) (e : Event F) → model_validate c t d ≡ some e → IsOf t e
  unfolding model_validate
  model_validate-IsOf t e = if-IsOf t _ _ _ e (read_started-IsOf e) (
      if-IsOf t _ _ _ e (read_step_completed-IsOf e) (
        if-IsOf t _ _ _ e (read_step_failed-IsOf e) (
          if-IsOf t _ _ _ e (read_execution_completed-IsOf e) (
            if-IsOf t _ _ _ e (read_execution_paused-IsOf e) (
              if-IsOf t _ _ _ e (read_memory_written-IsOf e)
                (if-IsOf t _ _ _ e (read_memory_searched-IsOf e) (λ h. cc h)))))))

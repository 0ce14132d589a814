-- ===== src/Engine.antt =====
-- services/workflow-service/app/engine: the parts of the execution engine.
pub mod Fsm
pub mod Cost
pub mod Checkpoint
pub mod Migration
pub mod Exec
pub mod Executor
pub mod Recovery
pub mod Task

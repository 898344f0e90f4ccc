-- ===== src/Workflow.antt =====
-- src/modules/messages/workflow.py: the session states, the persistent store of sessions and
-- jobs, the SLA records, and the worker that drives them.
pub mod States
pub mod Rows
pub mod Store
pub mod Jobs
pub mod Sla
pub mod Outcomes
pub mod Worker
pub mod Steps
pub mod Log
pub mod Forever
mod Tests

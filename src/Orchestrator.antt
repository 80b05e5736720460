-- ===== src/Orchestrator.antt =====
-- The workflow orchestrator (apps/orchestrator/src/mastra/workflows): the only path on which a
-- proposal reaches the graph, and the suspended reviews between its two commits.
pub mod State
pub mod Plans
pub mod RunIndex
pub mod Gates
pub mod Outcomes
pub mod Finalized
pub mod Workflow
pub mod SlaFeed

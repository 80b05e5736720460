-- ===== src/Lib.antt =====
-- Verification of Sentinel-ACT: a pipeline that turns regulatory circulars into obligations. Language
-- model agents propose an obligation; deterministic code scores its grounding, routes it to a tier,
-- commits it to a graph database, waits for human reviews, and records everything in an append-only
-- ledger whose entries are chained by hashes. The deterministic core is modelled here.
--
-- The parts and their files:
-- - Schema, Plan: the graph's nodes and edges (packages/graph-schema/src) and the plan that is handed
--   to the writer in one call (packages/graph-db/src/types.ts).
-- - Graph.Validate: the schema of a plan (packages/graph-db/src/commit/commit-plan-validator.ts).
-- - Graph.Store: the database. Each Cypher statement of the repositories
--   (packages/graph-db/src/repositories) is a function on lists of nodes and edges.
-- - Graph.Writer: GraphWriter (packages/graph-db/src/commit/graph-writer.ts): commitProposal validates
--   a plan, answers a known proposal from the log, and otherwise runs the plan's loops in one
--   transaction that is undone on a throw. Its children carry a relation on graphs through every step
--   (Leads) and apply it: Grows, Nodes, Edges and Linked, Replay.
-- - Router: the risk score and the tier router (apps/orchestrator/src/mastra/scorers/
--   risk-score.scorer.ts) under the floors of workflows/orchestrator.logic.ts; Router.Tiers on its
--   decisions.
-- - Grounding: agents/grounding-scoring.ts; Grounding.Caps from one bad field to the tier.
-- - Orchestrator.State, Plans, RunIndex: the pipeline's state, the two plans before and after the
--   review, and the in-memory index of suspended runs with its review slots (workflows/
--   orchestrator.types.ts, orchestrator.logic.ts). Outcomes, Finalized, Gates,
--   RunIndex.Claims and RunIndex.Clears are on them.
-- - Orchestrator.SlaFeed: workflows/orchestrator.sla-feed.ts, the reviews that are due soon; Reminders
--   is on it.
-- - Orchestrator.Workflow: workflows/orchestrator.workflow.ts on one world of stores. Resume is the
--   start and the resumption of a run by a review, Finalize the routing with the pre-review commit, the
--   suspending steps and the end of a review; Order, Ends, Races and HandOver are on them.
-- - Ledger: packages/audit-ledger/src: the entries, canonical JSON, appending, querying; Ledger.Verify
--   the paginated check of the chain; Chain, Pages and Audit on them.
-- - Monitoring: agents/monitoring-and-audit.agent.ts: the checks and the data of human reviews;
--   Monitoring.Review is recordHumanReview on the graph and the ledger; Effects, Replay and Narrow
--   are on it.
-- - Ticketing: packages/ticketing-adapter/src and apps/orchestrator/src/mastra/integrations/
--   grc-ticketing.ts. Outbox is the two tables with every statement, Mapping the request for a ticket,
--   Worker processOutboxOnce, Intake the intake and the sweep. Machine is the abstract machine of a row;
--   Rows, Claims, Settles and Refines carry a call of the worker to it, Sound, Drains, Once and Sweep
--   are on these.
-- - Tests: a platform and data to run on, and the tests.
--
-- How they interact: a plan of Orchestrator.Plans goes through Graph.Writer.commit_proposal; a review
-- goes through Monitoring.Review.record_human_review, which commits a narrow plan to the graph and
-- appends to the ledger, with up to three attempts; the run index is what the gates read. A run is
-- resumed by the engine, a parameter that may change the whole world, after the review is recorded; the
-- end of a review commits its plan and hands an event to the outbox of the ticketing. A call that
-- changes state takes the state and returns a result and the new state, so that an error still says
-- what was written. Errors are one type (Prelude.Results). An outage, the clocks, the reference date
-- and fresh ids are arguments.
--
-- Names follow the code in this library's spelling: commitProposal is commit_proposal. Fractional numbers are a
-- parameter (Float) with the operations that the code calls, because a law of exact arithmetic would
-- not be true of them; SHA-256, JSON.stringify, text order, decimal printing and time stamp order are a
-- parameter (Ledger.Host).
--
-- Bounds and fuel: verify_pages has as fuel one page more than the table has rows, and every page that
-- does not end the loop holds a row, so that the fuel is enough on a table numbered without a gap.
-- append_ledger_entry has the code's three attempts. Sequence numbers are natural numbers; the number
-- before the first, which the code computes as from minus one, is an absent value. The times of the
-- outbox are milliseconds, its delays exact numbers: the code's doubles are exact below the cap that it
-- takes of them. The adapter sees the tickets that are open, may answer each request differently, and
-- says of each call whether it opened a ticket, which a call that throws may have done too.
--
-- Not modelled: logging and durations; the language model calls; the workflow engine itself, the step
-- that receives a trigger, and the HTTP, Slack and web glue; the ticketing's webhook adapter, pools,
-- timers and environment; the scan for late tasks, the ingestion of evidence and the reconciliation of
-- the ledger; the repositories' lookups. Calls come one after another: a claim of a row is one
-- statement, and what other workers do between a selection and a claim is left out, as is the lock that
-- orders the commits of one process. JSON columns are taken to give back the value that was stored, and
-- dates in the database to be their texts.
pub mod Prelude
pub mod Float
pub mod Schema
pub mod Plan
pub mod Graph
pub mod Router
pub mod Grounding
pub mod Orchestrator
pub mod Ledger
pub mod Monitoring
pub mod Ticketing
pub mod Tests

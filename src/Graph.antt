-- ===== src/Graph.antt =====
-- The graph database and the one path by which the program writes to it: the validation of a plan
-- and its execution in one transaction (packages/graph-db/src/commit, repositories, migrations).
pub mod Store
pub mod Validate
pub mod Writer

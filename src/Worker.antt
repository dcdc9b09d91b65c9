-- ===== src/Worker.antt =====
-- The build graph (src/worker.rs): `Graph` is the interface of the graph library, `Validate` the
-- check for cycles, `Execute` the loop that hands tasks to the workers.
pub mod Graph
pub mod Validate
pub mod Execute
pub mod Build
mod Tests

-- ===== src/Runner.antt =====
-- The performance runner, mlir/lib/Util/Runner.cpp: an event simulation on graphs of dependencies.
-- Assertions, the trace and debugging output are left out.
pub mod Path
pub mod Vertices
pub mod State
pub mod Reset
pub mod Graphs
pub mod Execute
pub mod Depend
pub mod Process
pub mod Launch
pub mod Candidates
pub mod Start
pub mod Next
mod Tests

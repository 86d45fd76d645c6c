-- ===== src/Runner.antt =====
-- internal/runner/runner.go: the pipeline from the paths of a run to its sorted findings.
pub mod Expand
pub mod Load
pub mod Gather
pub mod Pipeline

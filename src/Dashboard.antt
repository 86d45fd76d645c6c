-- ===== src/Dashboard.antt =====
-- dashboard.go: the extraction of the queries of a Grafana dashboard.
pub mod Calls
pub mod Variables
pub mod Walk

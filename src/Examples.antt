-- ===== src/Examples.antt =====
-- Runs on concrete inputs.
mod Downloads
mod Jobs
mod Workflows
mod Operations
mod Updates
mod Outputs

-- ===== src/Tests.antt =====
-- Runs of the modelled code on concrete inputs.
mod Controller
mod Reports
mod Wal
mod History
mod Framing
mod Client
mod Master
mod Maintenance
mod Sorting
mod Worker
mod Server
mod Transfer
mod Jobs
mod Tools
mod Plugin
mod Files

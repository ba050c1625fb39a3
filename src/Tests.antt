-- ===== src/Tests.antt =====
-- Concrete data, and the theorems applied to it.
mod Data
mod Collected
mod Audits
mod Marked
mod Access
mod Shown
mod Loading
mod Reports
mod Logged
mod Live
mod Captured
mod Commands
mod Refreshed
mod Smoked

-- ===== src/Tests.antt =====
-- Runs of the model on concrete data, and the theorems at concrete inputs.
mod Data
mod Commands
mod Supervision
mod Searches
mod Configuration
mod Sessions
mod Program
mod Logging
mod Registered
mod Printed
mod Start
mod Control

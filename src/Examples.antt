-- ===== src/Examples.antt =====
-- Tests of the models, and the theorems at concrete inputs.
mod Agents
mod Lifecycles
mod Merging
mod Patches
mod Runs
mod Logins
mod Events
mod Deliveries
mod Paths
mod Sections
mod Files
mod Access
mod Executions
mod Patching
mod Recoveries
mod Investigations
mod Sandboxes
mod Hunks

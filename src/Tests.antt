-- ===== src/Tests.antt =====
-- A backend in memory and an environment, and the theorems at concrete data.
mod Memory
mod Runs
mod Footprints
mod Verdicts
mod Loads
mod Sets
mod Paged
mod Converged
mod LowerCase
mod Orders
mod Schedules
mod Pools
mod Owners
mod OrgScopes
mod Clients
mod CommandLines

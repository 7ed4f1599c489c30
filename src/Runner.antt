-- ===== src/Runner.antt =====
-- internal/runner/runner.go: audit, apply and enforce.
pub mod Target
pub mod Loaded
pub mod Stanza
pub mod Repo
pub mod Phases
pub mod Keys
pub mod Resolved
pub mod Footprint
pub mod Allowed
pub mod Commands
pub mod ResolvedVars
pub mod Audit
pub mod Apply
pub mod Enforce
pub mod Lawful
pub mod Settled
pub mod Convergence
pub mod DryRun
pub mod OrgScope
pub mod OrgCommands
pub mod Pool
pub mod Owner

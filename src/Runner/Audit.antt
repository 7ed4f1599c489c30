-- ===== src/Runner/Audit.antt =====
-- `AuditRepo`
pub mod Drift
use ghsecretman.Base.{String, Bool, ok}
use ghsecretman.Base.Calls.{Call, ◌>>=◌, lift}
use ghsecretman.System.{System}
use ghsecretman.Config.{Config}
use ghsecretman.Plan.Cascade.{for_repo_cascade, effective_ignored}
use ghsecretman.Diff.{compute, has_drift}
use ghsecretman.Github.{Backend}
use ghsecretman.Runner.Target.{RunResult, lookup_target, resolve_vars}
use ghsecretman.Runner.Stanza.{write_stanza}
use ghsecretman.Runner.Repo.{fetch_live}

-- What the call returns, and the text that it writes to `out`; it writes nothing before an error.
module _ (sys : System) (b : Backend) where
  unfoldable pub audit_repo :
      Config → String → String → Bool → Bool → Call b.State (RunResult × String)
  audit_repo cfg org repo show_ignored verbose = do
    target ← lift (lookup_target sys cfg org repo)
    let all_repos = target.0.all_repos
    let intents = for_repo_cascade repo all_repos target.1
    desired_vars ← lift (resolve_vars sys intents)
    live ← fetch_live b org repo
    let entries = compute repo intents desired_vars live (effective_ignored all_repos target.1)
    let result : RunResult = record { drift = has_drift entries; failed = 0 }
    lift (ok (result, write_stanza sys org repo entries show_ignored verbose))

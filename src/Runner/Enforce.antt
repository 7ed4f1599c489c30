-- ===== src/Runner/Enforce.antt =====
-- `EnforceRepo`
use ghsecretman.Base.{◌+◌, String, ◌<>◌, Bool, true, false, Option, none, List, [], Result, ok}
use ghsecretman.Base.Maps.{Map}
use ghsecretman.Base.Calls.{Call, ◌>>=◌, lift}
use ghsecretman.System.{System}
use ghsecretman.Config.{Config}
use ghsecretman.Plan.{Intent}
use ghsecretman.Plan.Cascade.{for_repo_cascade, effective_ignored}
use ghsecretman.Diff.{compute}
use ghsecretman.Github.{Backend, PublicKey}
use ghsecretman.Runner.Target.{RunResult, lookup_target, resolve_all, desired_vars_from_resolved}
use ghsecretman.Runner.Repo.{fetch_live, fetch_keys}
use ghsecretman.Runner.Phases.{Tally, run_apply_phase, run_delete_phase, write_body}
use ghsecretman.Runner.Apply.{repo_header}

-- The field Concurrency bounds a pool of workers, and is not read for one repo.
pub record EnforceOptions : Type 0 where
  pub dry_run : Bool
  pub verbose : Bool

-- A nil map reads as an empty one.
abbrev pub resolve_for_enforce : System → List Intent → Bool → Result (Map String)
resolve_for_enforce sys intents true = ok []
resolve_for_enforce sys intents false = resolve_all sys intents

abbrev pub keys_for_enforce :
    (b : Backend)
    → String
    → String
    → List Intent
    → Bool
    → Call b.State (Option PublicKey × Option PublicKey)
keys_for_enforce b org repo intents true = lift (ok (none, none))
keys_for_enforce b org repo intents false = fetch_keys b org repo intents

-- The counts and the texts of the two phases.
abbrev pub both : Tally → Tally → Tally
both t t' = (t.0 + t'.0, t.1 <> t'.1)

module _ (sys : System) (b : Backend) where
  unfoldable pub enforce_repo :
      Config → String → String → EnforceOptions → Call b.State (RunResult × String)
  enforce_repo cfg org repo opts = do
    target ← lift (lookup_target sys cfg org repo)
    let all_repos = target.0.all_repos
    let intents = for_repo_cascade repo all_repos target.1
    resolved ← lift (resolve_for_enforce sys intents opts.dry_run)
    live ← fetch_live b org repo
    let desired = desired_vars_from_resolved intents resolved
    let entries = compute repo intents desired live (effective_ignored all_repos target.1)
    keys ← keys_for_enforce b org repo intents opts.dry_run
    λ s.
        let (applied, s') =
          run_apply_phase sys b org repo intents resolved keys.0 keys.1 opts.dry_run s in
        let (deleted, last) = run_delete_phase sys b org repo entries opts.dry_run s' in
        let t = both applied deleted in
        let result : RunResult = record { drift = false; failed = t.0 } in
        (ok (result, write_body sys (repo_header org repo) t opts.verbose), last)

-- ===== src/Runner/Apply.antt =====
-- `ApplyRepo`
use ghsecretman.Base.{String, ◌<>◌, Bool, ok, false}
use ghsecretman.Base.Calls.{Call, ◌>>=◌, lift}
use ghsecretman.System.{System}
use ghsecretman.Config.{Config}
use ghsecretman.Plan.Cascade.{for_repo_cascade}
use ghsecretman.Github.{Backend}
use ghsecretman.Runner.Target.{RunResult, lookup_target, resolve_all}
use ghsecretman.Runner.Repo.{fetch_keys}
use ghsecretman.Runner.Phases.{apply_loop, write_body}

abbrev pub repo_header : String → String → String
repo_header org repo = "org: " <> (org <> ("\nrepo: " <> (repo <> "\n")))

module _ (sys : System) (b : Backend) where
  unfoldable pub apply_repo : Config → String → String → Bool → Call b.State (RunResult × String)
  apply_repo cfg org repo verbose = do
    target ← lift (lookup_target sys cfg org repo)
    let intents = for_repo_cascade repo target.0.all_repos target.1
    resolved ← lift (resolve_all sys intents)
    keys ← fetch_keys b org repo intents
    λ s.
        let (t, last) = apply_loop sys b org repo intents resolved keys.0 keys.1 s in
        let result : RunResult = record { drift = false; failed = t.0 } in
        (ok (result, write_body sys (repo_header org repo) t verbose), last)

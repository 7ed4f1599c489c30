-- ===== src/Tests/Owners.antt =====
-- An owner with two repos, one of which the configuration addresses, and the theorems about its runs.
use ghsecretman.Runner.Apply.{apply_repo}
use ghsecretman.Runner.Enforce.{enforce_repo, EnforceOptions}
use ghsecretman.Runner.Audit.{audit_repo}
use ghsecretman.Runner.Owner.UserAccounts.{skip_notice, run_owner-user}
use ghsecretman.Tests.Schedules.{in_order-IsScheduled, Anyhow, in_order}
use ghsecretman.Runner.OrgCommands.{enforce_org_scope, apply_org_scope, audit_org_scope}
use ghsecretman.Runner.Target.{RunResult}
use ghsecretman.Tests.Runs.{start, acme}
use ghsecretman.Runner.Pool.{no_result, OrgResult}
use ghsecretman.Base.Calls.{Call}
use ghsecretman.Github.{owner_user, Backend}
use ghsecretman.Tests.Memory.{memory, system, Memory}
use ghsecretman.Runner.Owner.Accounts.{audit-apply-enforce-IsAccounted, IsAccounted}
use ghsecretman.Runner.Owner.{
  run_repos, proceed, enforce, apply, add_drift, audit, run_owner, target_repos,
}
use ghsecretman.Config.{org_of, Config, OrgScope, Org}
use ghsecretman.Base.{pos, String, ◌<>◌, true, false, none, some, List, [], ◌∷◌, ◌≡◌, refl, ok}

-- The owner has the repos site and other.
abbrev two_repos : Backend
two_repos = record memory { list_org_repos = λ o s. (ok ("site" ∷ "other" ∷ []), s) }

-- The same repos, of a user.
abbrev of_user : Backend
of_user = record memory {
  get_owner_type = λ o s. (ok owner_user, s);
  list_user_repos = λ o s. (ok ("site" ∷ "other" ∷ []), s);
}

abbrev empty_scope : OrgScope
empty_scope = record {
  managed = record { vars = []; secrets = []; dependabot = [] };
  ignored = record { vars = []; secrets = []; dependabot = [] };
}

abbrev one_repo : Org
one_repo = record acme { all_repos = none; org_scope = some empty_scope }

abbrev one_config : Config
one_config = record { base_dir = ""; orgs = ("acme", one_repo) ∷ [] }

abbrev verbosely : EnforceOptions
verbosely = record { dry_run = false; verbose = true }

audit-apply-enforce-IsAccounted_example :
    IsAccounted system two_repos "acme" true
      (Anyhow Memory (λ repo. audit_repo system two_repos one_config "acme" repo true true))
      (org_of one_config "acme")
      (audit_org_scope system two_repos one_config "acme" true true)
      start
      (audit system two_repos "acme" (in_order system Memory) one_config true (pos 4) true start)
    × IsAccounted system two_repos "acme" false
        (Anyhow Memory (λ repo. apply_repo system two_repos one_config "acme" repo true))
        (org_of one_config "acme")
        (apply_org_scope system two_repos one_config "acme" true)
        start
        (apply system two_repos "acme" (in_order system Memory) one_config (pos 4) true start)
    × IsAccounted system two_repos "acme" false
        (Anyhow Memory (λ repo. enforce_repo system two_repos one_config "acme" repo verbosely))
        (org_of one_config "acme")
        (enforce_org_scope system two_repos one_config "acme" verbosely)
        start
        (enforce system two_repos "acme"
          (in_order system Memory)
          one_config
          verbosely
          (pos 4)
          start)
audit-apply-enforce-IsAccounted_example =
    audit-apply-enforce-IsAccounted system two_repos (Anyhow Memory) (in_order system Memory)
      (in_order-IsScheduled system Memory) one_config "acme" true true verbosely (pos 4) start

abbrev nothing : Call Memory (RunResult × String)
nothing s = (ok (record { drift = false; failed = 0 }, ""), s)

abbrev pool : List String → Memory → (OrgResult × String) × Memory
pool = in_order system Memory (pos 4) (λ repo. nothing)

run_owner-user_example :
    let over_repos =
      proceed
        (run_repos system of_user "acme" pool no_result)
        (target_repos system of_user one_repo "acme" owner_user start) in
    run_owner system of_user "acme"
      (audit_org_scope system of_user one_config "acme" true true)
      add_drift
      pool
      (some one_repo)
      start
    ≡ (
      (over_repos.0.0, skip_notice system "acme" one_repo.org_scope <> over_repos.0.1),
      over_repos.1,
    )
run_owner-user_example =
    run_owner-user system of_user "acme"
      (audit_org_scope system of_user one_config "acme" true true) add_drift pool one_repo start
      start refl

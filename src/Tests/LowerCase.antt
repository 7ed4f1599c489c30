-- ===== src/Tests/LowerCase.antt =====
-- What an enforce does to a secret whose name the configuration has in lower case: GitHub takes the name
-- in upper case, and the secret that was set is deleted as one that no block lists.
use ghsecretman.Tests.Paged.{paged}
use ghsecretman.Github.Client.{variable_map}
use ghsecretman.Runner.Repo.{fetch_live}
use ghsecretman.Tests.Runs.{literal}
use ghsecretman.Runner.Target.{resolve_all, lookup_target}
use ghsecretman.Config.{Org, Config}
use ghsecretman.Runner.Enforce.{enforce_repo}
use ghsecretman.Tests.Memory.{system, Memory}
use ghsecretman.Base.{
  text_dec, ℕ, zero, suc, ◌+◌, String, ◌<>◌, Bool, true, false, not, Option, none, some, List, [],
  ◌∷◌, ◌++◌, ◌≡◌, ◌≢◌, refl, sym, ap, ◌∙◌, arith, Result, ok, err, inl, inr, ◌⊎◌, ◌↔◌, ◌&&◌, ◌||◌,
  ◌==◌, if◌then◌else◌, contains, Bool-cases, Option-cases, Result-cases,
}

abbrev lower : Org
lower = record {
  org_scope = none;
  all_repos = none;
  per_repo =
      (
        "site",
        record {
          managed = record {
            vars = [];
            secrets = ("token", literal "token" "t0k") ∷ [];
            dependabot = [];
          };
          ignored = record { vars = []; secrets = []; dependabot = [] };
        },
      )
      ∷ [];
}

abbrev lower_config : Config
lower_config = record { base_dir = "."; orgs = ("acme", lower) ∷ [] }

abbrev kept : Memory
kept = record { vars = []; secrets = "TOKEN" ∷ []; dependabot = [] }

abbrev lost : Memory
lost = record { vars = []; secrets = []; dependabot = [] }

secret_lost :
    enforce_repo system paged lower_config "acme" "site"
      (record { dry_run = false; verbose = false })
      kept
    ≡ (
      ok (
        record { drift = false; failed = 0 },
        "org: acme\nrepo: site\n  secrets/token: ok\n  secrets/TOKEN: deleted\n",
      ),
      lost,
    )
unfolding enforce_repo lookup_target text_dec resolve_all ghsecretman.Plan.Cascade.for_repo_cascade
    ghsecretman.Plan.Cascade.managed_rows ghsecretman.Base.Sort.sort_strings
    ghsecretman.Plan.Cascade.names_of ghsecretman.Plan.Cascade.shared_ignored
    ghsecretman.Plan.Cascade.shared_managed ghsecretman.Plan.Cascade.own_ignored
    ghsecretman.Plan.Cascade.own_managed ghsecretman.Resolve.resolve
    ghsecretman.Plan.Cascade.ignored_rows fetch_live ghsecretman.Runner.Repo.fetch_keys
    ghsecretman.Runner.Phases.run_apply_phase ghsecretman.Runner.Phases.write_body
    ghsecretman.Runner.Phases.run_delete_phase ghsecretman.Runner.Target.desired_vars_from_resolved
    ghsecretman.Diff.compute ghsecretman.Plan.Cascade.effective_ignored
    ghsecretman.Runner.Repo.apply_one ghsecretman.Runner.Repo.delete_one
    ghsecretman.Github.Operations.seal_anonymous variable_map
secret_lost = refl

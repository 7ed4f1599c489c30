-- ===== src/Tests/Converged.antt =====
-- An enforce by the client over a GitHub that keeps names in upper case, and an audit after it.
use ghsecretman.Runner.Convergence.{enforce_repo-Settled, enforce_repo-audit_repo}
use ghsecretman.Runner.Settled.{Settled, AreSpelled}
use ghsecretman.Github.Client.{variable_map}
use ghsecretman.Tests.Paged.{IsOnePage, shouted-of, lawful, AllShouted-of, paged, IsKept}
use ghsecretman.Plan.Cascade.{CascadeWinner}
use ghsecretman.Plan.Cascade.Precedence.{precedence}
use ghsecretman.Tests.Footprints.{start_IsLive, unique, found}
use ghsecretman.Tests.Runs.{shared, live_start, own, start, acme, config, intents}
use ghsecretman.Runner.Target.{lookup_target, resolve_all}
use ghsecretman.Diff.{Live}
use ghsecretman.Runner.Lawful.{live_at}
use ghsecretman.Base.Sort.{IsUnique}
use ghsecretman.Runner.Audit.{audit_repo}
use ghsecretman.Base.Maps.{Map}
use ghsecretman.Runner.Repo.{fetch_live, apply_one, delete_one}
use ghsecretman.Runner.Enforce.{enforce_repo}
use ghsecretman.Tests.Memory.{system, Memory}
use ghsecretman.Plan.{kind_eq, Kind, kind_var, kind_secret, kind_dependabot}
use ghsecretman.Base.{
  text_dec, String, true, false, Option, none, some, List, [], ◌∷◌, ◌≡◌, refl, ap, arith, ok, inl,
  inr, ◌&&◌, ◌==◌, if◌then◌else◌, contains, Bool-cases, ℕ, zero, suc, ◌+◌, ◌<>◌, Bool, not, ◌++◌,
  ◌≢◌, sym, ◌∙◌, Result, err, ◌⊎◌, ◌↔◌, ◌||◌, Option-cases, Result-cases,
}

abbrev last : Memory
last = record {
  vars = ("KEEP", "1") ∷ ("REGION", "us") ∷ ("LEVEL", "3") ∷ [];
  secrets = "SEED" ∷ "TOKEN" ∷ [];
  dependabot = "BOT" ∷ [];
}

abbrev said : String
said =
    "org: acme\nrepo: site\n  vars/LEVEL: ok\n  vars/REGION: ok\n  secrets/SEED: ok\n  dependabot/BOT: ok\n  vars/STRAY: deleted\n  secrets/SPARE: deleted\n"

run :
    enforce_repo system paged config "acme" "site"
      (record { dry_run = false; verbose = false })
      start
    ≡ (ok (record { drift = false; failed = 0 }, said), last)
unfolding enforce_repo lookup_target text_dec resolve_all ghsecretman.Plan.Cascade.for_repo_cascade
    ghsecretman.Plan.Cascade.managed_rows ghsecretman.Base.Sort.sort_strings
    ghsecretman.Plan.Cascade.names_of ghsecretman.Plan.Cascade.shared_ignored
    ghsecretman.Plan.Cascade.shared_managed ghsecretman.Plan.Cascade.own_ignored
    ghsecretman.Plan.Cascade.own_managed ghsecretman.Resolve.resolve
    ghsecretman.Plan.Cascade.ignored_rows fetch_live ghsecretman.Runner.Repo.fetch_keys
    ghsecretman.Runner.Phases.run_apply_phase ghsecretman.Runner.Phases.write_body
    ghsecretman.Runner.Phases.run_delete_phase ghsecretman.Runner.Target.desired_vars_from_resolved
    ghsecretman.Diff.compute ghsecretman.Plan.Cascade.effective_ignored
    ghsecretman.Runner.Repo.apply_one ghsecretman.Runner.Repo.delete_one
    ghsecretman.Github.Operations.seal_anonymous variable_map
run = refl

no_token : (k : Kind) → live_at live_start k "token" ≡ none
unfolding text_dec
no_token kind_var = refl
no_token kind_secret = refl
no_token kind_dependabot = refl

unplanned : (k : Kind) → precedence (some shared) (some own) k "token" ≡ none
unfolding text_dec
unplanned kind_var = refl
unplanned kind_secret = refl
unplanned kind_dependabot = refl

start-IsKept : IsKept start
start-IsKept = (start_IsLive, AllShouted-of start no_token)

names : AreSpelled system paged "acme" "site" lawful config acme (some own)
names k n w p managed = shouted-of n (λ same.
    let h : Path (Option CascadeWinner) none (some w) =
      sym (unplanned k) ∙ ap (precedence (some shared) (some own) k) (sym same) ∙ p in
    absurd (ground arith))

start-IsOnePage : IsOnePage start
unfolding variable_map text_dec
start-IsOnePage = (refl, refl, refl)

last-IsOnePage : IsOnePage last
unfolding variable_map text_dec
last-IsOnePage = (refl, refl, refl)

enforce_repo-Settled_example :
    (m : Map String) × (resolve_all system intents ≡ ok m)
    × Settled system paged "acme" "site" lawful config acme (some own) m start last
enforce_repo-Settled_example =
    enforce_repo-Settled system paged "acme" "site" lawful config acme (some own) false start last
      said found unique names start-IsKept start-IsOnePage run

enforce_repo-audit_repo_example :
    (text : String) × (audit_repo system paged config "acme" "site" true true last
      ≡ (ok (record { drift = false; failed = 0 }, text), last))
enforce_repo-audit_repo_example =
    enforce_repo-audit_repo system paged "acme" "site" lawful config acme (some own) false true true
      start last said found unique names start-IsKept start-IsOnePage run last-IsOnePage

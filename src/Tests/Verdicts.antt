-- ===== src/Tests/Verdicts.antt =====
-- The plan of the repo of the runs, and the verdict on its live state.
use ghsecretman.Runner.DryRun.{enforce_repo-dry_run}
use ghsecretman.Runner.Enforce.{enforce_repo}
use ghsecretman.System.{System}
use ghsecretman.Diff.Verdict.{compute-verdict}
use ghsecretman.Tests.Footprints.{start_IsLive, found, unique}
use ghsecretman.Plan.Cascade.Precedence.{resolve_cascade-precedence, precedence}
use ghsecretman.Runner.Audit.Drift.{audit_repo-InStep, InStep}
use ghsecretman.Plan.Cascade.Intents.{for_repo_cascade-precedence, intent_of}
use ghsecretman.Diff.{override_none, status_extra, row, compute}
use ghsecretman.Tests.Memory.{memory, system}
use ghsecretman.Runner.Keys.{key_of_eq}
use ghsecretman.Plan.Cascade.{winner, resolve_cascade, effective_ignored}
use ghsecretman.Tests.Runs.{acme, token, literal, own, shared, start, config, live_start, intents}
use ghsecretman.Plan.Cascade.EffectiveIgnored.{effective_ignored-precedence, ignored_list}
use ghsecretman.Runner.Repo.{fetch_live}
use ghsecretman.Runner.Resolved.{resolve_all-Found, Found}
use ghsecretman.Diff.Rows.{pick}
use ghsecretman.Base.Maps.{lookup, Map}
use ghsecretman.Runner.Audit.{audit_repo}
use ghsecretman.Runner.Target.{lookup_target, key_of, resolve_vars, resolve_all}
use ghsecretman.Plan.{
  action_managed, Kind, action_ignored, repo_intent, select, kind_var, kind_secret,
}
use ghsecretman.Base.{
  text_dec, String, Bool, true, false, none, some, [], ◌∷◌, ◌≡◌, refl, ok, ◌↔◌, ◌==◌, contains, ℕ,
  zero, suc, ◌+◌, ◌<>◌, not, Option, List, ◌++◌, ◌≢◌, sym, ap, ◌∙◌, arith, Result, err, inl, inr,
  ◌⊎◌, ◌&&◌, ◌||◌, if◌then◌else◌, Bool-cases, Option-cases, Result-cases,
}

resolve_cascade-precedence_example :
    lookup "REGION" (resolve_cascade (some shared) (some own) kind_var)
    ≡ some (winner action_managed (some (literal "REGION" "us")) true false)
unfolding text_dec
resolve_cascade-precedence_example =
    resolve_cascade-precedence (some shared) (some own) kind_var "REGION" (unique kind_var)

for_repo_cascade-precedence_example :
    select kind_secret "TOKEN" intents
    ≡ repo_intent "site" kind_secret "TOKEN" action_ignored none false true ∷ []
unfolding text_dec
for_repo_cascade-precedence_example =
    for_repo_cascade-precedence "site" (some shared) (some own) kind_secret "TOKEN" unique

effective_ignored-precedence_example :
    contains (ignored_list (effective_ignored (some shared) (some own)) kind_var) "OLD" ≡ true
unfolding text_dec
effective_ignored-precedence_example =
    effective_ignored-precedence (some shared) (some own) kind_var "OLD" unique

compute-verdict_example :
    pick kind_var "STRAY"
      (compute "site" intents [] live_start (effective_ignored (some shared) (some own)))
    ≡ row "site" kind_var "STRAY" status_extra override_none ∷ []
unfolding text_dec
compute-verdict_example =
    compute-verdict "site" (some shared) (some own) [] live_start unique start_IsLive kind_var
      "STRAY"

abbrev values : Map String
values =
    ("vars/LEVEL", "3")
    ∷ ("vars/REGION", "us")
    ∷ ("secrets/SEED", "t0k")
    ∷ ("dependabot/BOT", "t0k")
    ∷ []

all_resolved : resolve_all system intents ≡ ok values
unfolding resolve_all ghsecretman.Plan.Cascade.for_repo_cascade
    ghsecretman.Plan.Cascade.managed_rows ghsecretman.Base.Sort.sort_strings
    ghsecretman.Plan.Cascade.names_of ghsecretman.Plan.Cascade.shared_ignored
    ghsecretman.Plan.Cascade.shared_managed ghsecretman.Plan.Cascade.own_ignored
    ghsecretman.Plan.Cascade.own_managed text_dec ghsecretman.Resolve.resolve
    ghsecretman.Plan.Cascade.ignored_rows
all_resolved = refl

resolve_all-Found_example :
    Found system kind_secret "SEED" values
      (intent_of "site" kind_secret "SEED" (winner action_managed (some token) false false))
unfolding text_dec
resolve_all-Found_example =
    resolve_all-Found system kind_secret "SEED" intents values
      (intent_of "site" kind_secret "SEED" (winner action_managed (some token) false false))
      all_resolved
      (for_repo_cascade-precedence "site" (some shared) (some own) kind_secret "SEED" unique) refl

key_of_eq_example : (key_of kind_var "TOKEN" == key_of kind_secret "TOKEN") ≡ false
key_of_eq_example = key_of_eq kind_var kind_secret "TOKEN" "TOKEN"

abbrev vars : Map String
vars = ("LEVEL", "3") ∷ ("REGION", "us") ∷ []

vars_resolved : resolve_vars system intents ≡ ok vars
unfolding resolve_vars ghsecretman.Plan.Cascade.for_repo_cascade
    ghsecretman.Plan.Cascade.managed_rows ghsecretman.Base.Sort.sort_strings
    ghsecretman.Plan.Cascade.names_of ghsecretman.Plan.Cascade.shared_ignored
    ghsecretman.Plan.Cascade.shared_managed ghsecretman.Plan.Cascade.own_ignored
    ghsecretman.Plan.Cascade.own_managed text_dec ghsecretman.Resolve.resolve
    ghsecretman.Plan.Cascade.ignored_rows
vars_resolved = refl

live_fetched : fetch_live memory "acme" "site" start ≡ (ok live_start, start)
unfolding fetch_live
live_fetched = refl

audit_repo-InStep_example :
    (drift : Bool) × (out : String) × (audit_repo system memory config "acme" "site" true false
        start
      ≡ (ok (record { drift = drift; failed = 0 }, out), start))
    × ((drift ≡ false) ↔ (
        (k : Kind) (n : String)
        → InStep vars live_start k n (precedence (some shared) (some own) k n)))
audit_repo-InStep_example =
    audit_repo-InStep system memory config "acme" "site" true false start start acme (some own) vars
      live_start found vars_resolved live_fetched unique start_IsLive

-- Without the variable TOKEN, two entries do not resolve.
abbrev bare : System
bare = record system { lookup_env = λ name. none }

bare_target : lookup_target bare config "acme" "site" ≡ ok (acme, some own)
unfolding lookup_target text_dec
bare_target = refl

enforce_repo-dry_run_example :
    (text : String) × (enforce_repo bare memory config "acme" "site"
        (record { dry_run = true; verbose = true })
        start
      ≡ (ok (record { drift = false; failed = 0 }, text), start))
enforce_repo-dry_run_example =
    enforce_repo-dry_run bare memory "acme" "site" config acme (some own) true live_start start
      start bare_target live_fetched

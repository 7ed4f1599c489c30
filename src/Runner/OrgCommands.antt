-- ===== src/Runner/OrgCommands.antt =====
-- `AuditOrgScope`, `ApplyOrgScope` and `EnforceOrgScope`.
pub mod Drift
pub mod DryRun
pub mod Footprint
pub mod Allowed
use ghsecretman.Runner.OrgScope.{
  run_org_delete_phase, fetch_org_keys, resolve_selected_repo_ids, run_org_apply_phase,
  write_org_stanza, org_header, apply_org_loop, OrgInputs, fetch_org_live,
}
use ghsecretman.Base.{
  String, ◌<>◌, Bool, true, false, none, some, List, [], ok, err, message, ℕ, zero, suc, ◌+◌, not,
  Option, ◌∷◌, ◌++◌, ◌≡◌, ◌≢◌, refl, sym, ap, ◌∙◌, arith, Result, inl, inr, ◌⊎◌, ◌↔◌, ◌&&◌, ◌||◌,
  ◌==◌, if◌then◌else◌, contains, Bool-cases, Option-cases, Result-cases,
}
use ghsecretman.Base.Maps.{Map}
use ghsecretman.Base.Calls.{Call, ◌>>=◌, lift}
use ghsecretman.System.{System}
use ghsecretman.Config.{Org, Config, OrgScope, org_of}
use ghsecretman.Plan.{Intent}
use ghsecretman.Plan.Organization.{for_org, effective_org_ignored}
use ghsecretman.Diff.{compute, has_drift}
use ghsecretman.Github.{Backend}
use ghsecretman.Runner.Target.{RunResult, resolve_vars, resolve_all, desired_vars_from_resolved}
use ghsecretman.Runner.Phases.{write_body}
use ghsecretman.Runner.Enforce.{EnforceOptions, resolve_for_enforce, both}

-- The ids and the keys, which a dry run leaves nil.
abbrev pub org_inputs :
    (b : Backend) → String → List Intent → Map String → Bool → Call b.State OrgInputs
org_inputs b org intents resolved true =
    lift (ok (record { resolved = resolved; ids = []; actions_key = none; dep_key = none }))
org_inputs b org intents resolved false = do
  ids ← resolve_selected_repo_ids b org intents
  keys ← fetch_org_keys b org intents
  lift (ok (record { resolved = resolved; ids = ids; actions_key = keys.0; dep_key = keys.1 }))

-- The head of each command: an organization without an `org:` block has nothing to do.
abbrev pub with_scope :
    {S : Type 0}
    → (OrgScope → Call S (RunResult × String))
    → Option OrgScope
    → Call S (RunResult × String)
with_scope body none = lift (ok (record { drift = false; failed = 0 }, ""))
with_scope body (some scope) = body scope

abbrev pub with_org :
    {S : Type 0}
    → System
    → String
    → (OrgScope → Call S (RunResult × String))
    → Option Org
    → Call S (RunResult × String)
with_org sys org body none =
    lift (err (message ("org " <> (sys.quote org <> " not found in config"))))
with_org sys org body (some o) = with_scope body o.org_scope

module _ (sys : System) (b : Backend) where
  unfoldable pub audit_org_scope : Config → String → Bool → Bool → Call b.State (RunResult × String)
  unfolding org_of
  audit_org_scope cfg org show_ignored verbose =
      with_org sys org
        (λ scope. do
          let intents = for_org (some scope)
          desired_vars ← lift (resolve_vars sys intents)
          live ← fetch_org_live b org
          let entries = compute "" intents desired_vars live (effective_org_ignored (some scope))
          let result : RunResult = record { drift = has_drift entries; failed = 0 }
          lift (ok (result, write_org_stanza sys org entries show_ignored verbose)))
        (org_of cfg org)

  unfoldable pub apply_org_scope : Config → String → Bool → Call b.State (RunResult × String)
  unfolding org_of
  apply_org_scope cfg org verbose =
      with_org sys org
        (λ scope. do
          let intents = for_org (some scope)
          resolved ← lift (resolve_all sys intents)
          inputs ← org_inputs b org intents resolved false
          λ s.
              let (t, last) = apply_org_loop b org sys intents inputs s in
              let result : RunResult = record { drift = false; failed = t.0 } in
              (ok (result, write_body sys (org_header org) t verbose), last))
        (org_of cfg org)

  unfoldable pub enforce_org_scope :
      Config → String → EnforceOptions → Call b.State (RunResult × String)
  unfolding org_of
  enforce_org_scope cfg org opts =
      with_org sys org
        (λ scope. do
          let intents = for_org (some scope)
          resolved ← lift (resolve_for_enforce sys intents opts.dry_run)
          live ← fetch_org_live b org
          let desired = desired_vars_from_resolved intents resolved
          let entries = compute "" intents desired live (effective_org_ignored (some scope))
          inputs ← org_inputs b org intents resolved opts.dry_run
          λ s.
              let (applied, s') = run_org_apply_phase b org sys intents inputs opts.dry_run s in
              let (deleted, last) = run_org_delete_phase b org sys entries opts.dry_run s' in
              let t = both applied deleted in
              let result : RunResult = record { drift = false; failed = t.0 } in
              (ok (result, write_body sys (org_header org) t opts.verbose), last))
        (org_of cfg org)

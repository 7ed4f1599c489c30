-- ===== src/Runner/OrgCommands/DryRun.antt =====
-- A dry run of `EnforceOrgScope`.
use ghsecretman.Runner.Enforce.{both}
use ghsecretman.Runner.Target.{desired_vars_from_resolved}
use ghsecretman.Plan.Organization.{effective_org_ignored, for_org}
use ghsecretman.Runner.Phases.{write_body, is_extra}
use ghsecretman.Runner.DryRun.{IsQuiet}
use ghsecretman.Diff.{compute, Live, Entry}
use ghsecretman.Config.{org_of, OrgScope, Org, Config}
use ghsecretman.Plan.{is_managed, Intent}
use ghsecretman.Runner.OrgCommands.{enforce_org_scope}
use ghsecretman.Runner.OrgScope.{
  org_header, fetch_org_live, OrgInputs, run_org_apply_phase, run_org_delete_phase,
}
use ghsecretman.Github.{Backend}
use ghsecretman.System.{System}
use ghsecretman.Base.{
  String, Bool, true, false, none, some, List, [], ◌∷◌, ◌≡◌, refl, arith, ok, inl, inr, Bool-cases,
}

module _ (sys : System) (b : Backend) (org : String) where
  run_org_apply_phase-IsQuiet :
      (is : List Intent) (inputs : OrgInputs) (s : b.State)
      → IsQuiet s (run_org_apply_phase b org sys is inputs true s)
  unfolding run_org_apply_phase
  run_org_apply_phase-IsQuiet [] inputs s = (refl, refl)
  run_org_apply_phase-IsQuiet (i ∷ is) inputs s = elim (Bool-cases (is_managed i.action)) [
    | inl m ↦ rw m (run_org_apply_phase-IsQuiet is inputs s)
    | inr m ↦ rw m (run_org_apply_phase-IsQuiet is inputs s)
  ]

  run_org_delete_phase-IsQuiet :
      (es : List Entry) (s : b.State) → IsQuiet s (run_org_delete_phase b org sys es true s)
  unfolding run_org_delete_phase
  run_org_delete_phase-IsQuiet [] s = (refl, refl)
  run_org_delete_phase-IsQuiet (e ∷ es) s = elim (Bool-cases (is_extra e.status)) [
    | inl m ↦ rw m (run_org_delete_phase-IsQuiet es s)
    | inr m ↦ rw m (run_org_delete_phase-IsQuiet es s)
  ]

  -- A dry run of the org scope of an organization that the configuration has with an `org:` block, and
  -- whose live state is read, succeeds without a failure, whether or not the entries resolve and the
  -- repos that they name have ids, and leaves the state as the reads left it.
  pub enforce_org_scope-dry_run :
      (cfg : Config) (o : Org) (sc : OrgScope) (verbose : Bool) (live : Live) (s s' : b.State)
      → org_of cfg org ≡ some o
      → o.org_scope ≡ some sc
      → fetch_org_live b org s ≡ (ok live, s')
      → (text : String) × (enforce_org_scope sys b cfg org
            (record { dry_run = true; verbose = verbose })
            s
          ≡ (ok (record { drift = false; failed = 0 }, text), s'))
  unfolding enforce_org_scope
  enforce_org_scope-dry_run cfg o sc verbose live s s' found has_block fetched =
      let is = for_org (some sc) in
      let es =
        compute "" is (desired_vars_from_resolved is []) live (effective_org_ignored (some sc)) in
      let inputs : OrgInputs = record {
        resolved = [];
        ids = [];
        actions_key = none;
        dep_key = none;
      } in
      let a = run_org_apply_phase b org sys is inputs true s' in
      let d = run_org_delete_phase b org sys es true a.1 in
      let (za, sa) = run_org_apply_phase-IsQuiet is inputs s' in
      let (zd, sd) = run_org_delete_phase-IsQuiet es a.1 in
      (write_body sys (org_header org) (both a.0 d.0) verbose, ground arith)

-- ===== src/Runner/DryRun.antt =====
-- A dry run of `EnforceRepo`.
use ghsecretman.Runner.Apply.{repo_header}
use ghsecretman.Plan.Cascade.{effective_ignored, for_repo_cascade}
use ghsecretman.Runner.Repo.{fetch_live}
use ghsecretman.Runner.Target.{desired_vars_from_resolved, lookup_target}
use ghsecretman.Base.Maps.{Map}
use ghsecretman.Plan.{is_managed, Intent}
use ghsecretman.Config.{Repo, Org, Config}
use ghsecretman.Runner.Enforce.{both, enforce_repo}
use ghsecretman.Runner.Phases.{write_body, is_extra, run_delete_phase, Tally, run_apply_phase}
use ghsecretman.Github.{PublicKey, Backend}
use ghsecretman.System.{System}
use ghsecretman.Base.{
  String, Bool, true, false, Option, none, List, [], ◌∷◌, ◌≡◌, refl, arith, ok, inl, inr,
  Bool-cases,
}
use ghsecretman.Diff.{compute, Live, Entry}

-- A phase that made no call and counted no failure.
abbrev pub IsQuiet : {S : Type 0} → S → Tally × S → Type 0
IsQuiet s r = (r.0.0 ≡ 0) × (r.1 ≡ s)

module _ (sys : System) (b : Backend) (org repo : String) where
  run_apply_phase-IsQuiet :
      (is : List Intent) (resolved : Map String) (ak dk : Option PublicKey) (s : b.State)
      → IsQuiet s (run_apply_phase sys b org repo is resolved ak dk true s)
  unfolding run_apply_phase
  run_apply_phase-IsQuiet [] resolved ak dk s = (refl, refl)
  run_apply_phase-IsQuiet (i ∷ is) resolved ak dk s = elim (Bool-cases (is_managed i.action)) [
    | inl m ↦ rw m (run_apply_phase-IsQuiet is resolved ak dk s)
    | inr m ↦ rw m (run_apply_phase-IsQuiet is resolved ak dk s)
  ]

  run_delete_phase-IsQuiet :
      (es : List Entry) (s : b.State) → IsQuiet s (run_delete_phase sys b org repo es true s)
  unfolding run_delete_phase
  run_delete_phase-IsQuiet [] s = (refl, refl)
  run_delete_phase-IsQuiet (e ∷ es) s = elim (Bool-cases (is_extra e.status)) [
    | inl m ↦ rw m (run_delete_phase-IsQuiet es s)
    | inr m ↦ rw m (run_delete_phase-IsQuiet es s)
  ]

  -- A dry run whose target the configuration has, and whose reads succeed, succeeds without a
  -- failure, whether or not the entries resolve, and leaves the state as the reads left it.
  pub enforce_repo-dry_run :
      (cfg : Config) (o : Org) (pr : Option Repo) (verbose : Bool) (live : Live) (s s' : b.State)
      → lookup_target sys cfg org repo ≡ ok (o, pr)
      → fetch_live b org repo s ≡ (ok live, s')
      → (text : String) × (enforce_repo sys b cfg org repo
            (record { dry_run = true; verbose = verbose })
            s
          ≡ (ok (record { drift = false; failed = 0 }, text), s'))
  unfolding enforce_repo
  enforce_repo-dry_run cfg o pr verbose live s s' found fetched =
      let is = for_repo_cascade repo o.all_repos pr in
      let es =
        compute repo is (desired_vars_from_resolved is []) live
          (effective_ignored o.all_repos pr) in
      let a = run_apply_phase sys b org repo is [] none none true s' in
      let d = run_delete_phase sys b org repo es true a.1 in
      let (za, sa) = run_apply_phase-IsQuiet is [] none none s' in
      let (zd, sd) = run_delete_phase-IsQuiet es a.1 in
      (write_body sys (repo_header org repo) (both a.0 d.0) verbose, ground arith)

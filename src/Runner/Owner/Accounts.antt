-- ===== src/Runner/Owner/Accounts.antt =====
-- What the commands for an owner account for.
use ghsecretman.Runner.Owner.Listed.{repos-Rest, after_text-Rest, Rest, IsPoolRun, IsRunError}
use mathlib.Core.Path.{subst}
use ghsecretman.Runner.Owner.Totals.{IsTotal, ScopeEnd, IsStart}
use ghsecretman.Runner.OrgCommands.{enforce_org_scope, apply_org_scope, audit_org_scope}
use ghsecretman.Runner.Apply.{apply_repo}
use ghsecretman.Runner.Audit.{audit_repo}
use ghsecretman.Runner.Enforce.{enforce_repo, EnforceOptions}
use ghsecretman.Runner.Pool.Counts.{texts, run_org-any_schedule}
use ghsecretman.Config.{OrgScope, org_of, Config, Org}
use ghsecretman.Runner.Owner.{
  unsupported_notice, add_failed, add_drift, enforce, has_scope, apply, audit, scope_for,
  resolve_owner, after_scope, proceed, summary, run_owner, run_scope_and_repos, Scheduler,
  list_owner_repos,
}
use ghsecretman.Runner.Pool.{
  Worked, IsFinished, start_pool, resolve_concurrency, Steps, Pool, no_result, Outcome, OrgResult,
}
use ghsecretman.Runner.Target.{RunResult}
use ghsecretman.Base.Calls.{rewrap, lift, next, Call}
use ghsecretman.Github.{owner_org, owner_user, OwnerType, Backend}
use ghsecretman.System.{System}
use ghsecretman.Base.{
  ℤ, String, ◌<>◌, Bool, true, false, Option, none, some, List, ◌≡◌, refl, sym, arith, Result, ok,
  err, inl, inr, ◌⊎◌, ap, Option-cases,
}

-- A schedule that the pool of `runOrg` can take, for work that may end as `Ends` says.
abbrev pub IsScheduled :
    (sys : System) (S : Type 0)
    → ((String → Call S (RunResult × String)) → String → Outcome → Type 0)
    → Scheduler S
    → Type 0
IsScheduled sys S Ends run_org =
    (c : ℤ) (work : String → Call S (RunResult × String)) (repos : List String) (s : S)
    → (p : Pool) × Steps sys (resolve_concurrency c) (Ends work) (start_pool repos) p
      × IsFinished p
      × ((run_org c work repos s).0 ≡ (p.result, p.out))

add_drift-IsStart :
    (r : RunResult) (text : String) → IsStart true (some (ok (r, text))) (add_drift r no_result)
add_drift-IsStart r text = record {
  ok_repos = ground arith;
  skipped_repos = ground arith;
  failed_repos = ground arith;
  failed_entries = ground arith;
  drift = ground arith;
}

add_failed-IsStart :
    (r : RunResult) (text : String) → IsStart false (some (ok (r, text))) (add_failed r no_result)
add_failed-IsStart r text = record {
  ok_repos = refl;
  skipped_repos = refl;
  failed_repos = refl;
  failed_entries = omega arith;
  drift = refl;
}

module _ (sys : System) (b : Backend) (org : String) where
  -- The command for the org scope runs where the configuration has an `org:` block and the owner is no
  -- user account, after the owner's type has been asked for.
  abbrev pub IsScopeEnd :
      Org → Call b.State (RunResult × String) → OwnerType → b.State → ScopeEnd → Type 0
  IsScopeEnd o scope ot s none = (o.org_scope ≡ none) ⊎ (ot ≡ owner_user)
  IsScopeEnd o scope ot s (some r) =
      (sc : OrgScope) × (o.org_scope ≡ some sc) × (ot ≡ owner_org) × ((scope s).0 ≡ r)

  -- If the run returns a result, then it is the total of one outcome for each addressed repo of the
  -- owner's listing and of what the org scope came to, and the text ends with the buffers of these
  -- outcomes and the summary of the result.
  abbrev pub IsAccounted :
      Bool
      → (String → Outcome → Type 0)
      → Option Org
      → Call b.State (RunResult × String)
      → b.State
      → (Result OrgResult × String) × b.State
      → Type 0
  IsAccounted audits Ends found scope s ((err e, text), last) = IsRunError sys b org e
  IsAccounted audits Ends found scope s ((ok res, text), last) =
      (o : Org) × (ot : OwnerType) × (s1 : b.State) × (s2 : b.State) × (s3 : b.State) × (all : List
        String)
      × (end : ScopeEnd) × (ws : List Worked) × (found ≡ some o)
      × (b.get_owner_type org s ≡ (ok ot, s1))
      × IsScopeEnd o scope ot s1 end
      × (list_owner_repos sys b org ot s2 ≡ (ok all, s3))
      × IsTotal audits Ends o all end ws res
      × (before : String) × (text ≡ before <> (texts sys ws <> summary sys res))

  module _ (audits : Bool) (Ends : String → Outcome → Type 0)
      (pool : List String → b.State → (OrgResult × String) × b.State)
      (runs : (repos : List String) (s : b.State) → IsPoolRun sys Ends repos (pool repos s).0)
      (scope : Call b.State (RunResult × String)) (add : RunResult → OrgResult → OrgResult)
      (adds : (r : RunResult) (text : String)
        → IsStart audits (some (ok (r, text))) (add r no_result)) where
    after_scope-IsStart :
        (r : Result (RunResult × String)) → IsStart audits (some r) (after_scope sys org add r).0
    after_scope-IsStart (ok (r, text)) = adds r text
    after_scope-IsStart (err e) = record {
      ok_repos = refl;
      skipped_repos = refl;
      failed_repos = refl;
      failed_entries = refl;
      drift = refl;
    }

    no_result-IsStart : IsStart audits none no_result
    no_result-IsStart = record {
      ok_repos = refl;
      skipped_repos = refl;
      failed_repos = refl;
      failed_entries = refl;
      drift = refl;
    }

    without_scope :
        (o : Org) (ot : OwnerType) (notice : String) (s : b.State)
        → Rest sys b org audits Ends o ot none
            (run_scope_and_repos sys b org scope add pool o (ot, false, notice) s)
    without_scope o ot notice s =
        after_text-Rest sys b org audits Ends pool runs o ot none notice _
          (repos-Rest sys b org audits Ends pool runs o ot none no_result s no_result-IsStart)

    past_scope :
        (o : Org) (ot : OwnerType) (notice : String) (s : b.State)
        → Rest sys b org audits Ends o ot
            (some (scope s).0)
            (run_scope_and_repos sys b org scope add pool o (ot, true, notice) s)
    past_scope o ot notice s =
        let end = some (scope s).0 in
        let (res, text) = after_scope sys org add (scope s).0 in
        after_text-Rest sys b org audits Ends pool runs o ot end notice _ (
          after_text-Rest sys b org audits Ends pool runs o ot end text _ (
            repos-Rest sys b org audits Ends pool runs o ot end res (scope s).1
              (after_scope-IsStart (scope s).0)))

    Rest-IsAccounted :
        (o : Org) (ot : OwnerType) (s s1 : b.State) (end : ScopeEnd)
        (r : (Result OrgResult × String) × b.State)
        → b.get_owner_type org s ≡ (ok ot, s1)
        → IsScopeEnd o scope ot s1 end
        → Rest sys b org audits Ends o ot end r
        → IsAccounted audits Ends (some o) scope s r
    Rest-IsAccounted o ot s s1 end ((err e, text), last) typed ended h = h
    Rest-IsAccounted o ot s s1 end ((ok res, text), last) typed ended h =
        let (s2, s3, all, ws, l, total, before, eq) = h in
        (o, ot, s1, s2, s3, all, end, ws, refl, typed, ended, l, total, before, eq)

    typed-IsAccounted :
        (o : Org) (ot : OwnerType) (s s1 : b.State)
        → b.get_owner_type org s ≡ (ok ot, s1)
        → IsAccounted audits Ends (some o) scope s (
            run_scope_and_repos sys b org scope add pool o
              (scope_for sys org (has_scope o.org_scope) ot)
              s1)
    typed-IsAccounted o owner_user s s1 e = elim (Option-cases o.org_scope) [
      | inl absent ↦ rw (ap has_scope absent) (
          Rest-IsAccounted o owner_user s s1 none _ e (inr refl) (without_scope o owner_user "" s1))
      | inr (sc, present) ↦ rw (ap has_scope present) (
          Rest-IsAccounted o owner_user s s1 none _ e (inr refl)
            (without_scope o owner_user (unsupported_notice sys org) s1))
    ]
    typed-IsAccounted o owner_org s s1 e = elim (Option-cases o.org_scope) [
      | inl absent ↦ rw (ap has_scope absent) (
          Rest-IsAccounted o owner_org s s1 none _ e (inl absent) (without_scope o owner_org "" s1))
      | inr (sc, present) ↦ rw (ap has_scope present) (
          Rest-IsAccounted o owner_org s s1 (some (scope s1).0) _ e (sc, present, refl, refl)
            (past_scope o owner_org "" s1))
    ]

    resolved-IsAccounted :
        (o : Org) (s : b.State) (r : Result OwnerType × b.State)
        → b.get_owner_type org s ≡ r
        → IsAccounted audits Ends (some o) scope s (
            proceed (run_scope_and_repos sys b org scope add pool o) (
              next
                (λ ot. lift (ok (scope_for sys org (has_scope o.org_scope) ot)))
                (rewrap ("determine owner type for " <> sys.quote org) r)))
    resolved-IsAccounted o s (ok ot, s1) e = typed-IsAccounted o ot s s1 e
    resolved-IsAccounted o s (err x, s1) e = inr (x, inl refl)

    run_owner-IsAccounted :
        (found : Option Org) (s : b.State)
        → IsAccounted audits Ends found scope s (run_owner sys b org scope add pool found s)
    unfolding resolve_owner
    run_owner-IsAccounted none s = inl refl
    run_owner-IsAccounted (some o) s = resolved-IsAccounted o s (b.get_owner_type org s) refl

runs_of :
    (sys : System) (S : Type 0)
    (Ends : (String → Call S (RunResult × String)) → String → Outcome → Type 0)
    (run_org : Scheduler S)
    → IsScheduled sys S Ends run_org
    → (c : ℤ) (work : String → Call S (RunResult × String)) (repos : List String) (s : S)
    → IsPoolRun sys (Ends work) repos (run_org c work repos s).0
runs_of sys S Ends run_org scheduled c work repos s =
    let (p, steps, finished, eq) = scheduled c work repos s in
    let (ws, text, result, each, may, counted) =
      run_org-any_schedule sys (resolve_concurrency c) (Ends work) repos p steps finished in
    subst (IsPoolRun sys (Ends work) repos) (sym eq) (ws, text, result, each, may, counted)

-- If the pool of `runOrg` takes any schedule that its limit allows, and the work on each repo may end
-- in any way, then the result that a run of `Audit`, `Apply` or `Enforce` returns is this total: there is
-- one outcome for each listed repo that the configuration addresses, as often as it is listed; `OkRepos`
-- counts the outcomes without an error, `FailedRepos` those with one, and one more where the org scope
-- returned an error; `SkippedRepos` counts the other listed repos; `FailedEntries` sums the failures of
-- the outcomes, and those of the org scope where the command writes; and there is drift where an outcome
-- has it, or the org scope of an audit has. The org scope has run if the configuration has an `org:`
-- block and the owner is no user account, and only then. The text ends with the buffers of the outcomes,
-- one after another, and the summary of the result. A run fails only where the configuration does not
-- have the organization, the owner's type is not known or the listing fails.
pub audit-apply-enforce-IsAccounted :
    (sys : System) (b : Backend)
    (Ends : (String → Call b.State (RunResult × String)) → String → Outcome → Type 0)
    (run_org : Scheduler b.State)
    → IsScheduled sys b.State Ends run_org
    → (cfg : Config) (org : String) (show_ignored verbose : Bool) (opts : EnforceOptions) (c : ℤ)
      (s : b.State)
    → IsAccounted sys b org true
        (Ends (λ repo. audit_repo sys b cfg org repo show_ignored verbose))
        (org_of cfg org)
        (audit_org_scope sys b cfg org show_ignored verbose)
        s
        (audit sys b org run_org cfg show_ignored c verbose s)
      × IsAccounted sys b org false
          (Ends (λ repo. apply_repo sys b cfg org repo verbose))
          (org_of cfg org)
          (apply_org_scope sys b cfg org verbose)
          s
          (apply sys b org run_org cfg c verbose s)
      × IsAccounted sys b org false
          (Ends (λ repo. enforce_repo sys b cfg org repo opts))
          (org_of cfg org)
          (enforce_org_scope sys b cfg org opts)
          s
          (enforce sys b org run_org cfg opts c s)
unfolding audit apply enforce
audit-apply-enforce-IsAccounted sys b Ends run_org scheduled cfg org show_ignored verbose opts c s =
    let runs = runs_of sys b.State Ends run_org scheduled c in
    let audits = λ (repo : String). audit_repo sys b cfg org repo show_ignored verbose in
    let applies = λ (repo : String). apply_repo sys b cfg org repo verbose in
    let enforces = λ (repo : String). enforce_repo sys b cfg org repo opts in
    (
      run_owner-IsAccounted sys b org true (Ends audits) (run_org c audits) (runs audits) _
          add_drift add_drift-IsStart (org_of cfg org) s,
      run_owner-IsAccounted sys b org false (Ends applies) (run_org c applies) (runs applies) _
          add_failed add_failed-IsStart (org_of cfg org) s,
      run_owner-IsAccounted sys b org false (Ends enforces) (run_org c enforces) (runs enforces) _
          add_failed add_failed-IsStart (org_of cfg org) s,
    )

-- ===== src/Runner/Owner.antt =====
-- `Audit`, `Apply` and `Enforce`: the runs over the org scope and all repos of an owner.
pub mod Targets
pub mod Totals
pub mod Listed
pub mod Accounts
pub mod UserAccounts
use ghsecretman.Runner.Audit.{audit_repo}
use ghsecretman.Runner.Apply.{apply_repo}
use ghsecretman.Runner.OrgCommands.{enforce_org_scope, audit_org_scope, apply_org_scope}
use ghsecretman.Runner.Enforce.{enforce_repo, EnforceOptions}
use ghsecretman.Base.Calls.{lift, ◌>>=◌, wrap_call, Call}
use ghsecretman.Base.Maps.{has}
use ghsecretman.Github.{owner_org, owner_user, OwnerType, Backend}
use ghsecretman.System.{error_text, System}
use ghsecretman.Runner.Pool.{no_result, OrgResult}
use ghsecretman.Config.{org_of, Config, OrgScope, Org}
use ghsecretman.Runner.Target.{RunResult}
use ghsecretman.Base.{
  message, ℤ, ℕ, zero, suc, ◌+◌, String, ◌<>◌, Bool, true, false, not, Option, none, some, List, [],
  ◌∷◌, ◌++◌, ◌≡◌, ◌≢◌, refl, sym, ap, ◌∙◌, arith, Result, ok, err, inl, inr, ◌⊎◌, ◌↔◌, ◌&&◌, ◌||◌,
  ◌==◌, if◌then◌else◌, contains, Bool-cases, Option-cases, Result-cases,
}

-- A run that writes as it goes: what it returns, and the text that it has written by then.
abbrev pub Printed : Type 0 → Type 0 → Type 0
Printed S A = S → (Result A × String) × S

-- What follows a call that writes nothing.
abbrev pub proceed : {S A B : Type 0} → (A → Printed S B) → Result A × S → (Result B × String) × S
proceed f (ok a, s) = f a s
proceed f (err e, s) = ((err e, ""), s)

abbrev pub after_text : {S A : Type 0} → String → (Result A × String) × S → (Result A × String) × S
after_text text ((r, rest), s) = ((r, text <> rest), s)

-- The notice for an organization's block that a user account cannot have.
abbrev pub unsupported_notice : System → String → String
unsupported_notice sys owner =
    "org: "
    <> (owner
        <> ("\nscope: org\n  SKIPPED: "
            <> (sys.quote owner
                <> " is a user account; GitHub has no org-level secret, variable, or Dependabot API for user accounts. Move these values into all-repos or per-repo.\n")))

abbrev pub has_scope : Option OrgScope → Bool
has_scope none = false
has_scope (some scope) = true

-- The owner's type, whether the org scope runs, and the notice if there is one.
abbrev pub scope_for : System → String → Bool → OwnerType → OwnerType × Bool × String
scope_for sys owner true owner_user = (owner_user, false, unsupported_notice sys owner)
scope_for sys owner false owner_user = (owner_user, false, "")
scope_for sys owner scoped owner_org = (owner_org, scoped, "")

module _ (sys : System) (b : Backend) where
  unfoldable pub resolve_owner : Org → String → Call b.State (OwnerType × Bool × String)
  resolve_owner o owner = do
    ot ← wrap_call ("determine owner type for " <> sys.quote owner) (b.get_owner_type owner)
    lift (ok (scope_for sys owner (has_scope o.org_scope) ot))

  unfoldable pub list_owner_repos : String → OwnerType → Call b.State (List String)
  list_owner_repos owner owner_user = wrap_call "list user repos" (b.list_user_repos owner)
  list_owner_repos owner owner_org = wrap_call "list org repos" (b.list_org_repos owner)

-- The test of the loop of `targetRepos`.
abbrev pub is_addressed : Org → String → Bool
is_addressed o r = elim o.all_repos [ some _ ↦ true | none ↦ has r o.per_repo ]

-- The repos to process, and the number of the others.
unfoldable pub split_repos : Org → List String → List String × ℕ
split_repos o [] = ([], 0)
split_repos o (r ∷ all) =
    let (out, skipped) = split_repos o all in
    if is_addressed o r then (r ∷ out, skipped) else (out, suc skipped)

unfoldable pub target_repos :
    System → (b : Backend) → Org → String → OwnerType → Call b.State (List String × ℕ)
unfolding list_owner_repos split_repos
target_repos sys b o owner ot = do
  all ← list_owner_repos sys b owner ot
  lift (ok (split_repos o all))

abbrev pub merge_org_result : OrgResult → OrgResult → ℕ → OrgResult
merge_org_result dst src skipped = record {
  drift = if src.drift then true else dst.drift;
  failed_entries = dst.failed_entries + src.failed_entries;
  ok_repos = dst.ok_repos + src.ok_repos;
  skipped_repos = dst.skipped_repos + skipped;
  failed_repos = dst.failed_repos + src.failed_repos;
}

abbrev pub summary : System → OrgResult → String
summary sys res =
    "summary: ok="
    <> (sys.decimal res.ok_repos
        <> (" skipped="
            <> (sys.decimal res.skipped_repos
                <> (" failed=" <> (sys.decimal res.failed_repos <> "\n")))))

-- What the org scope adds to the result and to the text: its drift for an audit, its failures for a
-- command that writes, and one failed repo where it returned an error.
abbrev pub add_drift : RunResult → OrgResult → OrgResult
add_drift r res = if r.drift then record res { drift = true } else res

abbrev pub add_failed : RunResult → OrgResult → OrgResult
add_failed r res = record res { failed_entries = res.failed_entries + r.failed }

abbrev pub after_scope :
    System
    → String
    → (RunResult → OrgResult → OrgResult)
    → Result (RunResult × String)
    → OrgResult × String
after_scope sys org add (ok (r, text)) = (add r no_result, text)
after_scope sys org add (err e) = (
  record no_result { failed_repos = 1 },
  "org: " <> (org <> ("\nscope: org\n  ERROR: " <> (error_text sys e <> "\n"))),
)

-- A schedule of the pool of `runOrg`, which Go's scheduler chooses: for the option Concurrency, the
-- work on a repo and the repos, what the pool has counted and written when it has finished.
abbrev pub Scheduler : Type 0 → Type 0
Scheduler S =
    ℤ → (String → Call S (RunResult × String)) → List String → S → (OrgResult × String) × S

module _ (sys : System) (b : Backend) (org : String) where
  -- The repos, after the org scope has come to `res`.
  abbrev pub run_repos :
      (List String → b.State → (OrgResult × String) × b.State)
      → OrgResult
      → List String × ℕ
      → Printed b.State OrgResult
  run_repos pool res (repos, skipped) s =
      let ((counted, out), last) = pool repos s in
      let total = merge_org_result res counted skipped in
      ((ok total, out <> summary sys total), last)

  abbrev pub run_scope_and_repos :
      Call b.State (RunResult × String)
      → (RunResult → OrgResult → OrgResult)
      → (List String → b.State → (OrgResult × String) × b.State)
      → Org
      → OwnerType × Bool × String
      → Printed b.State OrgResult
  run_scope_and_repos scope add pool o (ot, false, notice) s =
      after_text notice (proceed (run_repos pool no_result) (target_repos sys b o org ot s))
  run_scope_and_repos scope add pool o (ot, true, notice) s =
      let (r, s') = scope s in
      let (res, text) = after_scope sys org add r in
      after_text notice
        (after_text text (proceed (run_repos pool res) (target_repos sys b o org ot s')))

  -- What the three commands share: `scope` is the command for the org scope, and `add` what its result
  -- adds.
  abbrev pub run_owner :
      Call b.State (RunResult × String)
      → (RunResult → OrgResult → OrgResult)
      → (List String → b.State → (OrgResult × String) × b.State)
      → Option Org
      → Printed b.State OrgResult
  run_owner scope add pool none s =
      ((err (message ("org " <> (sys.quote org <> " not found in config"))), ""), s)
  run_owner scope add pool (some o) s =
      proceed (run_scope_and_repos scope add pool o) (resolve_owner sys b o org s)

  module _ (run_org : Scheduler b.State) (cfg : Config) where
    unfoldable pub audit : Bool → ℤ → Bool → Printed b.State OrgResult
    unfolding target_repos resolve_owner
    audit show_ignored concurrency verbose =
        run_owner (audit_org_scope sys b cfg org show_ignored verbose) add_drift
          (run_org concurrency (λ repo. audit_repo sys b cfg org repo show_ignored verbose))
          (org_of cfg org)

    unfoldable pub apply : ℤ → Bool → Printed b.State OrgResult
    unfolding target_repos resolve_owner
    apply concurrency verbose =
        run_owner (apply_org_scope sys b cfg org verbose) add_failed
          (run_org concurrency (λ repo. apply_repo sys b cfg org repo verbose)) (org_of cfg org)

    unfoldable pub enforce : EnforceOptions → ℤ → Printed b.State OrgResult
    unfolding target_repos resolve_owner
    enforce opts concurrency =
        run_owner (enforce_org_scope sys b cfg org opts) add_failed
          (run_org concurrency (λ repo. enforce_repo sys b cfg org repo opts)) (org_of cfg org)

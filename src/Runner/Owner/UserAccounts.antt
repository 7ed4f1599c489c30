-- ===== src/Runner/Owner/UserAccounts.antt =====
-- The org scope of a user account.
use ghsecretman.Config.{OrgScope, Org}
use ghsecretman.Runner.Pool.{no_result, OrgResult}
use ghsecretman.Runner.Target.{RunResult}
use ghsecretman.Base.Calls.{Call}
use ghsecretman.Github.{owner_user, Backend}
use ghsecretman.System.{System}
use ghsecretman.Runner.Owner.{target_repos, run_repos, proceed, run_owner, resolve_owner}
use ghsecretman.Base.{String, ◌<>◌, some, List, ◌≡◌, refl, ok, inl, inr, Option-cases, Option, none}

-- The notice that the `org:` block of a user account is skipped.
abbrev pub skip_notice : System → String → Option OrgScope → String
skip_notice sys owner none = ""
skip_notice sys owner (some scope) =
    "org: "
    <> (owner
        <> ("\nscope: org\n  SKIPPED: "
            <> (sys.quote owner
                <> " is a user account; GitHub has no org-level secret, variable, or Dependabot API for user accounts. Move these values into all-repos or per-repo.\n")))

-- For an owner that GitHub says is a user account, the command for the org scope is not run, whatever
-- it is: the run is that over the repos, from the state that the question left and with nothing counted,
-- and what it writes is preceded by the notice that the `org:` block is skipped where the configuration
-- has one, and by nothing where it has none.
pub run_owner-user :
    (sys : System) (b : Backend) (org : String) (scope : Call b.State (RunResult × String))
    (add : RunResult → OrgResult → OrgResult)
    (pool : List String → b.State → (OrgResult × String) × b.State) (o : Org) (s s' : b.State)
    → b.get_owner_type org s ≡ (ok owner_user, s')
    → let over_repos =
        proceed (run_repos sys b org pool no_result) (target_repos sys b o org owner_user s') in
      run_owner sys b org scope add pool (some o) s
      ≡ ((over_repos.0.0, skip_notice sys org o.org_scope <> over_repos.0.1), over_repos.1)
unfolding resolve_owner
run_owner-user sys b org scope add pool o s s' e = elim (Option-cases o.org_scope) [
  | inl absent ↦ rw (e, absent) refl
  | inr (sc, present) ↦ rw (e, present) refl
]

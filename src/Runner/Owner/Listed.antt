-- ===== src/Runner/Owner/Listed.antt =====
-- What a run of a command for an owner accounts for past the org scope.
-- What a pool that has finished has counted and written.
use text.Mathlib.TextLemmas.{append_assoc, nil-append}
use ghsecretman.Runner.Footprint.{All}
use ghsecretman.Plan.Organization.{occurrences}
use ghsecretman.Base.Calls.{lift, next, wrap_call_err}
use ghsecretman.Runner.Pool.Counts.{names, sum_up, texts}
use ghsecretman.Runner.Owner.Totals.{merge_org_result-IsTotal, IsTotal, IsStart, ScopeEnd}
use ghsecretman.Runner.Owner.{
  merge_org_result, split_repos, run_repos, proceed, summary, target_repos, after_text,
  list_owner_repos,
}
use ghsecretman.Config.{Org}
use ghsecretman.Runner.Pool.{no_result, Worked, OrgResult, Outcome}
use ghsecretman.Github.{owner_org, owner_user, OwnerType, Backend}
use ghsecretman.System.{System}
use ghsecretman.Base.{
  length, wrapped, message, Error, ◌+◌, String, ◌<>◌, Bool, List, ◌≡◌, refl, sym, ap, ◌∙◌, Result,
  ok, err, inl, inr, ◌⊎◌,
}

abbrev pub IsPoolRun :
    System → (String → Outcome → Type 0) → List String → OrgResult × String → Type 0
IsPoolRun sys Ends repos (res, out) =
    (ws : List Worked) × (out ≡ texts sys ws)
    × (res ≡ sum_up ws no_result)
    × ((n : String) → occurrences n (names ws) ≡ occurrences n repos)
    × All (λ (w : Worked). Ends w.0 w.1) ws
    × (res.ok_repos + res.failed_repos ≡ length repos)

module _ (sys : System) (b : Backend) (org : String) where
  -- What a run can fail with: that the configuration does not have the organization, that the type of
  -- the owner is not known, or that the repos cannot be listed.
  abbrev pub IsRunError : Error → Type 0
  IsRunError e =
      (e ≡ message ("org " <> (sys.quote org <> " not found in config")))
      ⊎ (x : Error) × ((e ≡ wrapped ("determine owner type for " <> sys.quote org) x)
          ⊎ (e ≡ wrapped "list user repos" x)
          ⊎ (e ≡ wrapped "list org repos" x))

  -- If the run returns a result, then it is the total of one outcome for each addressed repo of the
  -- owner's listing and of what the org scope came to.
  abbrev pub Rest :
      Bool
      → (String → Outcome → Type 0)
      → Org
      → OwnerType
      → ScopeEnd
      → (Result OrgResult × String) × b.State
      → Type 0
  Rest audits Ends o ot end ((err e, text), last) = IsRunError e
  Rest audits Ends o ot end ((ok res, text), last) =
      (s2 : b.State) × (s3 : b.State) × (all : List String) × (ws : List Worked) × (list_owner_repos
          sys b org ot s2
        ≡ (ok all, s3))
      × IsTotal audits Ends o all end ws res
      × (before : String) × (text ≡ before <> (texts sys ws <> summary sys res))

  listed-IsRunError :
      (ot : OwnerType) (s s' : b.State) (e : Error)
      → list_owner_repos sys b org ot s ≡ (err e, s')
      → IsRunError e
  unfolding list_owner_repos
  listed-IsRunError owner_user s s' e h =
      let (x, eq) = wrap_call_err "list user repos" (b.list_user_repos org s) e s' h in
      inr (x, inr (inl eq))
  listed-IsRunError owner_org s s' e h =
      let (x, eq) = wrap_call_err "list org repos" (b.list_org_repos org s) e s' h in
      inr (x, inr (inr eq))

  module _ (audits : Bool) (Ends : String → Outcome → Type 0)
      (pool : List String → b.State → (OrgResult × String) × b.State)
      (runs : (repos : List String) (s : b.State) → IsPoolRun sys Ends repos (pool repos s).0)
      (o : Org) (ot : OwnerType) (end : ScopeEnd) where
    pub after_text-Rest :
        (t : String) (r : (Result OrgResult × String) × b.State)
        → Rest audits Ends o ot end r
        → Rest audits Ends o ot end (after_text t r)
    after_text-Rest t ((err e, text), last) h = h
    after_text-Rest t ((ok res, text), last) (s2, s3, all, ws, l, total, before, eq) =
        (s2, s3, all, ws, l, total, t <> before, rw eq (sym (append_assoc t before _)))

    listed-Rest :
        (res : OrgResult) (s : b.State) (r : Result (List String) × b.State)
        → IsStart audits end res
        → list_owner_repos sys b org ot s ≡ r
        → Rest audits Ends o ot end
            (proceed (run_repos sys b org pool res) (next (λ all. lift (ok (split_repos o all))) r))
    listed-Rest res s (err e, s') h l = listed-IsRunError ot s s' e l
    listed-Rest res s (ok all, s') h l =
        let (ws, text, result, each, may, counted) = runs (split_repos o all).0 s' in
        let src = (pool (split_repos o all).0 s').0.0 in
        let total = merge_org_result res src (split_repos o all).1 in
        (
          s,
          s',
          all,
          ws,
          l,
          merge_org_result-IsTotal audits Ends o all end ws res src h result each may counted,
          "",
          ap (λ x. x <> summary sys total) text ∙ sym (nil-append _),
        )

    pub repos-Rest :
        (res : OrgResult) (s : b.State)
        → IsStart audits end res
        → Rest audits Ends o ot end
            (proceed (run_repos sys b org pool res) (target_repos sys b o org ot s))
    unfolding target_repos
    repos-Rest res s h = listed-Rest res s (list_owner_repos sys b org ot s) h refl

-- ===== src/Runner/Commands.antt =====
-- What the commands for one repo may do to GitHub, command by command.
use ghsecretman.Runner.Footprint.{
  run_delete_phase-Keeps, run_apply_phase-Keeps, apply_loop-run_apply_phase,
}
use ghsecretman.Diff.Verdict.{IsLive}
use ghsecretman.Diff.{Live}
use ghsecretman.Runner.Repo.{fetch_keys, fetch_live}
use ghsecretman.Base.Maps.{Map, NodupKeys}
use ghsecretman.Plan.Cascade.{for_repo_cascade}
use ghsecretman.Plan.{Intent, managed_for, Kind}
use ghsecretman.Runner.Target.{desired_vars_from_resolved, resolve_all, resolve_vars, lookup_target}
use ghsecretman.Base.Calls.{after, Keeps}
use ghsecretman.Runner.Allowed.{
  may_delete, may_set, fetch_keys-Keeps, KeptByDeletes, fetch_live-Keeps, KeptBySets, KeptByKeys,
  KeptByReads,
}
use ghsecretman.Config.{Repo, Org, Config}
use ghsecretman.Runner.Audit.{audit_repo}
use ghsecretman.Runner.Apply.{apply_repo}
use ghsecretman.Runner.Enforce.{keys_for_enforce, resolve_for_enforce, EnforceOptions, enforce_repo}
use ghsecretman.Github.{Backend}
use ghsecretman.System.{System}
use ghsecretman.Base.{
  String, Bool, true, false, Option, List, ◌≡◌, refl, ok, inl, inr, Result-cases,
}

module _ (sys : System) (b : Backend) (org repo : String) (P : b.State → Type 0) where
  -- An audit makes no other call than the three that read the live state: what these keep, it keeps.
  pub audit_repo-Keeps :
      (cfg : Config) (show_ignored verbose : Bool)
      → KeptByReads b org repo P
      → Keeps P (audit_repo sys b cfg org repo show_ignored verbose)
  unfolding audit_repo
  audit_repo-Keeps cfg show_ignored verbose reads s p =
      elim (Result-cases (lookup_target sys cfg org repo)) [
        | inr (e, failed) ↦ rw failed p
        | inl ((o, pr), found) ↦
            rw found
              (elim (Result-cases (resolve_vars sys (for_repo_cascade repo o.all_repos pr))) [
                | inr (e, failed) ↦ rw failed p
                | inl (desired, resolved) ↦ rw resolved (
                    after P _ (fetch_live b org repo s) (fetch_live-Keeps b org repo P reads s p)
                      (λ live s' _ q. q))
              ])
      ]

  -- For a target that the configuration has, `ApplyRepo` makes no other calls than those that fetch the
  -- public keys and those that set a name which the precedence rules have managed to the text of its
  -- entry: what these keep, it keeps, provided that the per-repo managed blocks are maps.
  pub apply_repo-Keeps :
      (cfg : Config) (verbose : Bool) (o : Org) (pr : Option Repo)
      → lookup_target sys cfg org repo ≡ ok (o, pr)
      → ((kind : Kind) → NodupKeys (managed_for pr kind))
      → KeptByKeys b org repo P
      → KeptBySets b org repo P sys o.all_repos pr
      → Keeps P (apply_repo sys b cfg org repo verbose)
  unfolding apply_repo
  apply_repo-Keeps cfg verbose o pr found u reads sets s p =
      let is = for_repo_cascade repo o.all_repos pr in
      rw found (elim (Result-cases (resolve_all sys is)) [
        | inr (e, failed) ↦ rw failed p
        | inl (m, resolved) ↦ rw resolved (
            after P _ (fetch_keys b org repo is s) (fetch_keys-Keeps b org repo P reads is s p)
              (λ keys s' _ q.
                rw (apply_loop-run_apply_phase sys b org repo P is m keys.0 keys.1 s') (
                  run_apply_phase-Keeps sys b org repo P is m keys.0 keys.1 false
                    (λ _. may_set b org repo P sys o.all_repos pr u m keys.0 keys.1 resolved sets)
                    s' q)))
      ])

  keys_for_enforce-Keeps :
      (is : List Intent) (dry : Bool)
      → (dry ≡ false → KeptByKeys b org repo P)
      → Keeps P (keys_for_enforce b org repo is dry)
  keys_for_enforce-Keeps is true k s p = p
  keys_for_enforce-Keeps is false k s p = fetch_keys-Keeps b org repo P (k refl) is s p

  resolved_if_real :
      (is : List Intent) (dry : Bool) (m : Map String)
      → dry ≡ false
      → resolve_for_enforce sys is dry ≡ ok m
      → resolve_all sys is ≡ ok m
  resolved_if_real is true m e h = cc
  resolved_if_real is false m e h = h

  -- For a target that the configuration has, `EnforceRepo` reads the live state, and a dry run makes no
  -- other call; a real run also fetches the public keys, sets names which the precedence rules have
  -- managed to the text of their entries, and deletes names that were live when it read the live state
  -- and that neither block names. What these calls keep, it keeps, provided that the per-repo managed
  -- blocks are maps and no live name is listed twice.
  pub enforce_repo-Keeps :
      (cfg : Config) (opts : EnforceOptions) (o : Org) (pr : Option Repo) (s : b.State)
      → lookup_target sys cfg org repo ≡ ok (o, pr)
      → ((kind : Kind) → NodupKeys (managed_for pr kind))
      → ((live : Live) (s' : b.State) → fetch_live b org repo s ≡ (ok live, s') → IsLive live)
      → KeptByReads b org repo P
      → (opts.dry_run ≡ false
          → KeptByKeys b org repo P
            × KeptBySets b org repo P sys o.all_repos pr
            × KeptByDeletes b org repo P o.all_repos pr s)
      → P s
      → P (enforce_repo sys b cfg org repo opts s).1
  unfolding enforce_repo
  enforce_repo-Keeps cfg opts o pr s found u lives reads writes p =
      let dry = opts.dry_run in
      let ar = o.all_repos in
      let is = for_repo_cascade repo ar pr in
      rw found (elim (Result-cases (resolve_for_enforce sys is dry)) [
        | inr (e, failed) ↦ rw failed p
        | inl (m, held) ↦ rw held (
            after P _ (fetch_live b org repo s) (fetch_live-Keeps b org repo P reads s p)
              (λ live s1 f q.
                let desired = desired_vars_from_resolved is m in
                after P _ (keys_for_enforce b org repo is dry s1)
                  (keys_for_enforce-Keeps is dry (λ e. (writes e).0) s1 q)
                  (λ keys s2 _ r.
                    let sets = λ (e : dry ≡ false).
                      may_set b org repo P sys ar pr u m keys.0 keys.1
                        (resolved_if_real is dry m e held) (writes e).1 in
                    let deletes = λ (e : dry ≡ false).
                      may_delete b org repo P sys ar pr u desired live s s1 f (lives live s1 f)
                        (writes e).2 in
                    run_delete_phase-Keeps sys b org repo P _ dry deletes _
                      (run_apply_phase-Keeps sys b org repo P is m keys.0 keys.1 dry sets s2 r))))
      ])

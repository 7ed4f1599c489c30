-- ===== src/Runner/OrgCommands/Allowed.antt =====
-- `EnforceOrgScope` and `ApplyOrgScope` make only the calls that the organization's block allows.
use ghsecretman.Runner.Enforce.{resolve_for_enforce, EnforceOptions}
use ghsecretman.Plan.{kind_var, kind_secret, kind_dependabot}
use ghsecretman.Runner.Allowed.{All-of_not}
use ghsecretman.Diff.Organization.{compute-org_verdict, org_verdict, is_org_ignored, is_org_managed}
use ghsecretman.Plan.Organization.{
  effective_org_ignored, org_ignored_for, occurrences, for_org-org_planned, org_ignored_intent,
  repeat, for_org, org_managed_intent, org_managed_for,
}
use ghsecretman.Runner.Target.{resolve_all, desired_vars_from_resolved}
use ghsecretman.Diff.Verdict.{IsLive, is_live}
use ghsecretman.Runner.Footprint.{All-of_pick, All-of_select, All}
use ghsecretman.Runner.OrgCommands.{apply_org_scope, enforce_org_scope, org_inputs}
use ghsecretman.Diff.{compute, Entry, Live}
use ghsecretman.Runner.Phases.{is_extra}
use ghsecretman.Base.Maps.{NodupKeys, lookup, Map}
use ghsecretman.Plan.{kind_dependabot, kind_secret, Intent, Kind}
use ghsecretman.Base.Calls.{after, Keeps}
use ghsecretman.System.{System}
use ghsecretman.Runner.OrgScope.{delete_org_one, OrgInputs, fetch_org_live}
use ghsecretman.Config.{Org, Config, org_of, OrgEntry, OrgScope}
use ghsecretman.Github.{Backend}
use ghsecretman.Base.{
  ℕ, String, Bool, true, false, Option, some, List, [], ◌∷◌, ◌++◌, ◌≡◌, refl, ok, inl, inr,
  Bool-cases, zero, suc, none, arith, Result-cases,
}
use ghsecretman.Runner.OrgCommands.Footprint.{
  apply_org_loop-Keeps, run_org_apply_phase-Keeps, run_org_delete_phase-Keeps, org_inputs-Keeps,
  fetch_org_live-Keeps, MayDeleteOrg, KeptByOrgLookups, KeptByOrgSets, KeptByOrgReads,
  KeptByOrgDeletes, MaySetOrg,
}

org_verdict-not_extra :
    (k : Kind) (n : String) (desired : Map String) (live : Live) (ig : Bool)
    → All (λ d. is_extra d.status ≡ false) (org_verdict k n desired live true ig)
org_verdict-not_extra kind_var n desired live ig = ground arith
org_verdict-not_extra kind_secret n desired live ig = ground arith
org_verdict-not_extra kind_dependabot n desired live ig = ground arith

module _ (b : Backend) (org : String) (P : b.State → Type 0) where
  module _ (sc : OrgScope) (u : (kind : Kind) → NodupKeys (org_managed_for (some sc) kind)) where
    abbrev intents : List Intent
    intents = for_org (some sc)

    MaySetOrg-repeat :
        (sys : System) (inputs : OrgInputs) (k : Kind) (n : String) (m : ℕ)
        → All (MaySetOrg b org P sys inputs) (repeat m (org_ignored_intent k n))
    MaySetOrg-repeat sys inputs k n zero = tt
    MaySetOrg-repeat sys inputs k n (suc m) = (λ e. cc, MaySetOrg-repeat sys inputs k n m)

    sets_for :
        (sys : System) (inputs : OrgInputs) (k : Kind) (n : String) (o : Option OrgEntry)
        → KeptByOrgSets b org P (some sc)
        → lookup n (org_managed_for (some sc) k) ≡ o
        → All (MaySetOrg b org P sys inputs) (
            elim o [ none ↦ [] | some oe ↦ org_managed_intent k n oe ∷ [] ]
            ++ repeat (occurrences n (org_ignored_for (some sc) k)) (org_ignored_intent k n))
    sets_for sys inputs k n none sets e = MaySetOrg-repeat sys inputs k n _
    sets_for sys inputs k n (some oe) sets e =
        (λ m. sets k n _ oe _ _ _ e, MaySetOrg-repeat sys inputs k n _)

    may_set_org :
        (sys : System) (inputs : OrgInputs)
        → KeptByOrgSets b org P (some sc)
        → All (MaySetOrg b org P sys inputs) intents
    may_set_org sys inputs sets =
        All-of_select _ intents
          (λ k n. rw (for_org-org_planned (some sc) k n u) (sets_for sys inputs k n _ sets refl))

    deletes_for :
        (sys : System) (desired : Map String) (live : Live) (start s : b.State) (k : Kind)
        (n : String) (m ig : Bool)
        → fetch_org_live b org start ≡ (ok live, s)
        → KeptByOrgDeletes b org P (some sc) start
        → is_org_managed (some sc) k n ≡ m
        → is_org_ignored (some sc) k n ≡ ig
        → All (MayDeleteOrg b org P sys) (org_verdict k n desired live m ig)
    deletes_for sys desired live start s k n true ig f deletes em ei =
        All-of_not (λ (d : Entry). is_extra d.status)
          (λ x. Keeps P (delete_org_one b org x.kind x.name)) (org_verdict k n desired live true ig)
          (org_verdict-not_extra k n desired live ig)
    deletes_for sys desired live start s k n false true f deletes em ei =
        elim (Bool-cases (is_live live k n)) [
          | inl there ↦ rw there (λ e. cc, tt)
          | inr gone ↦ rw gone tt
        ]
    deletes_for sys desired live start s k n false false f deletes em ei =
        elim (Bool-cases (is_live live k n)) [
          | inl there ↦ rw there (λ _. deletes k n live s f there em ei, tt)
          | inr gone ↦ rw gone tt
        ]

    may_delete_org :
        (sys : System) (desired : Map String) (live : Live) (start s : b.State)
        → fetch_org_live b org start ≡ (ok live, s)
        → IsLive live
        → KeptByOrgDeletes b org P (some sc) start
        → All
            (MayDeleteOrg b org P sys)
            (compute "" intents desired live (effective_org_ignored (some sc)))
    may_delete_org sys desired live start s f l deletes = All-of_pick _ _ (λ k n.
        rw (compute-org_verdict (some sc) desired live u l k n)
          (deletes_for sys desired live start s k n _ _ f deletes refl refl))

  -- For an organization that the configuration has with an `org:` block, `EnforceOrgScope` reads the
  -- live state of the organization, and a dry run makes no other call; a real run also looks up ids of
  -- its repos and the two keys, sets names that the block manages, with the visibility of their
  -- entries, and deletes names that were live when it read the live state and that the block neither
  -- manages nor ignores. What these calls keep, it keeps, provided that the managed blocks are maps and
  -- no live name is listed twice.
  pub enforce_org_scope-Keeps :
      (sys : System) (cfg : Config) (opts : EnforceOptions) (o : Org) (sc : OrgScope) (s : b.State)
      → org_of cfg org ≡ some o
      → o.org_scope ≡ some sc
      → ((kind : Kind) → NodupKeys (org_managed_for (some sc) kind))
      → ((live : Live) (s' : b.State) → fetch_org_live b org s ≡ (ok live, s') → IsLive live)
      → KeptByOrgReads b org P
      → (opts.dry_run ≡ false
          → KeptByOrgLookups b org P
            × KeptByOrgSets b org P (some sc)
            × KeptByOrgDeletes b org P (some sc) s)
      → P s
      → P (enforce_org_scope sys b cfg org opts s).1
  unfolding enforce_org_scope
  enforce_org_scope-Keeps sys cfg opts o sc s found has_scope u lives reads writes p =
      let dry = opts.dry_run in
      let is = for_org (some sc) in
      rw (found, has_scope)
        (elim (Result-cases (resolve_for_enforce sys is dry)) [
          | inr (e, failed) ↦ rw failed p
          | inl (m, held) ↦ rw held (
              after P _ (fetch_org_live b org s) (fetch_org_live-Keeps b org P reads s p)
                (λ live s1 f q.
                  let desired = desired_vars_from_resolved is m in
                  after P _ (org_inputs b org is m dry s1)
                    (org_inputs-Keeps b org P is m dry (λ e. (writes e).0) s1 q)
                    (λ inputs s2 _ r.
                      run_org_delete_phase-Keeps b org P sys _ dry
                        (λ e.
                          may_delete_org sc u sys desired live s s1 f (lives live s1 f)
                            (writes e).2)
                        _
                        (run_org_apply_phase-Keeps b org P sys is inputs dry
                          (λ e. may_set_org sc u sys inputs (writes e).1) s2 r))))
        ])

  -- For an organization that the configuration has with an `org:` block, `ApplyOrgScope` looks up ids of
  -- its repos and the two keys and sets names that the block manages, with the visibility of their
  -- entries; it makes no other call, so that it deletes nothing. What these calls keep, it keeps, provided
  -- that the managed blocks are maps.
  pub apply_org_scope-Keeps :
      (sys : System) (cfg : Config) (verbose : Bool) (o : Org) (sc : OrgScope) (s : b.State)
      → org_of cfg org ≡ some o
      → o.org_scope ≡ some sc
      → ((kind : Kind) → NodupKeys (org_managed_for (some sc) kind))
      → KeptByOrgLookups b org P
      → KeptByOrgSets b org P (some sc)
      → P s
      → P (apply_org_scope sys b cfg org verbose s).1
  unfolding apply_org_scope
  apply_org_scope-Keeps sys cfg verbose o sc s found has_scope u lookups sets p =
      let is = for_org (some sc) in
      rw (found, has_scope)
        (elim (Result-cases (resolve_all sys is)) [
          | inr (e, failed) ↦ rw failed p
          | inl (m, held) ↦ rw held (
              after P _ (org_inputs b org is m false s)
                (org_inputs-Keeps b org P is m false (λ e. lookups) s p)
                (λ inputs s1 _ q.
                  apply_org_loop-Keeps b org P sys is inputs (may_set_org sc u sys inputs sets) s1
                    q))
        ])

-- ===== src/Runner/OrgCommands/Footprint.antt =====
-- What the commands for the org scope may do to GitHub.
use ghsecretman.Plan.{kind_secret, kind_dependabot}
use ghsecretman.Runner.Allowed.{fetch_if-Keeps}
use ghsecretman.Diff.Organization.{is_org_ignored, is_org_managed}
use ghsecretman.Plan.Organization.{wanted_intent, org_managed_for}
use ghsecretman.Runner.Target.{entry_key}
use ghsecretman.Diff.Verdict.{is_live}
use ghsecretman.Runner.Footprint.{All}
use ghsecretman.Runner.Repo.{needs, fetch_if}
use ghsecretman.Runner.OrgCommands.{org_inputs}
use ghsecretman.Diff.{Entry, Live}
use ghsecretman.Runner.Phases.{is_extra}
use ghsecretman.Base.Maps.{insert, lookup, Map}
use ghsecretman.Plan.{kind_dependabot, kind_secret, is_managed, Intent, Kind}
use ghsecretman.Base.Calls.{Keeps-wrap, wrap_call, Keeps-bind, Keeps}
use ghsecretman.System.{System}
use ghsecretman.Runner.OrgScope.{
  apply_org_loop, apply_org_one, write_org, delete_org_one, is_selected, run_org_delete_phase,
  OrgInputs, run_org_apply_phase, selected_repo_ids, resolve_selected_repo_ids, fetch_org_keys,
  fetch_org_live, repo_ids,
}
use ghsecretman.Config.{OrgEntry, OrgScope}
use ghsecretman.Github.{PublicKey, Backend}
use ghsecretman.Base.{
  ℕ, String, ◌<>◌, Bool, true, false, Option, some, List, [], ◌∷◌, ◌++◌, ◌≡◌, refl, ok, inl, inr,
  Bool-cases, Option-cases,
}

module _ (b : Backend) (org : String) (P : b.State → Type 0) where
  -- The three reads of `fetchOrgLive`.
  pub record KeptByOrgReads : Type 0 where
    pub variables : Keeps P (b.list_org_variables org)
    pub secrets : Keeps P (b.list_org_secrets org)
    pub dependabot : Keeps P (b.list_org_dependabot_secrets org)

  -- What comes before the writes: the ids of repos, and the two keys.
  pub record KeptByOrgLookups : Type 0 where
    pub repo_id : (n : String) → Keeps P (b.get_repo_id org n)
    pub actions : Keeps P (b.get_org_public_key org)
    pub dependabot : Keeps P (b.get_org_dependabot_public_key org)

  -- The writes that the block calls for: of a managed name, with the visibility of its entry.
  abbrev pub KeptByOrgSets : Option OrgScope → Type 0
  KeptByOrgSets sc =
      (k : Kind) (n v : String) (oe : OrgEntry) (ids : List ℕ) (ak dk : Option PublicKey)
      → lookup n (org_managed_for sc k) ≡ some oe
      → Keeps P (apply_org_one b org k (wanted_intent k n oe) v ids ak dk)

  -- The deletions that the block calls for: of a live name that it neither manages nor ignores.
  abbrev pub KeptByOrgDeletes : Option OrgScope → b.State → Type 0
  KeptByOrgDeletes sc start =
      (k : Kind) (n : String) (live : Live) (s : b.State)
      → fetch_org_live b org start ≡ (ok live, s)
      → is_live live k n ≡ true
      → is_org_managed sc k n ≡ false
      → is_org_ignored sc k n ≡ false
      → Keeps P (delete_org_one b org k n)

  pub fetch_org_live-Keeps : KeptByOrgReads → Keeps P (fetch_org_live b org)
  unfolding fetch_org_live
  fetch_org_live-Keeps r = Keeps-bind P (b.list_org_variables org) _ r.variables (λ vars _ _ _.
      Keeps-bind P (b.list_org_secrets org) _ r.secrets (λ secrets _ _ _.
        Keeps-bind P (b.list_org_dependabot_secrets org) _ r.dependabot
          (λ dependabot _ _ _ s p. p)))

  fetch_org_keys-Keeps : KeptByOrgLookups → (is : List Intent) → Keeps P (fetch_org_keys b org is)
  unfolding fetch_org_keys
  fetch_org_keys-Keeps k is =
      Keeps-bind P
        (fetch_if (needs kind_secret is) "fetch org actions public key" (b.get_org_public_key org))
        _ (fetch_if-Keeps b org "" P _ _ _ k.actions)
        (λ actions _ _ _.
          Keeps-bind P
            (fetch_if (needs kind_dependabot is) "fetch org dependabot public key"
              (b.get_org_dependabot_public_key org))
            _ (fetch_if-Keeps b org "" P _ _ _ k.dependabot) (λ dependabot _ _ _ s p. p))

  repo_ids-Keeps :
      KeptByOrgLookups
      → (names : List String) (cache : Map ℕ) (ids : List ℕ)
      → Keeps P (repo_ids b org names cache ids)
  unfolding repo_ids
  repo_ids-Keeps k [] cache ids s p = p
  repo_ids-Keeps k (name ∷ names) cache ids s p = elim (Option-cases (lookup name cache)) [
    | inr (id, found) ↦ rw (found, repo_ids) (repo_ids-Keeps k names cache (ids ++ id ∷ []) s p)
    | inl absent ↦
        let prefix = "resolve repo id " <> (org <> ("/" <> name)) in
        rw (absent, repo_ids)
          (Keeps-bind P (wrap_call prefix (b.get_repo_id org name))
            (λ v. repo_ids b org names (insert name v cache) (ids ++ v ∷ []))
            (Keeps-wrap P prefix (b.get_repo_id org name) (k.repo_id name))
            (λ v _ _ _. repo_ids-Keeps k names (insert name v cache) (ids ++ v ∷ [])) s p)
  ]

  selected_repo_ids-Keeps :
      KeptByOrgLookups
      → (is : List Intent) (cache : Map ℕ) (out : Map (List ℕ))
      → Keeps P (selected_repo_ids b org is cache out)
  unfolding selected_repo_ids
  selected_repo_ids-Keeps k [] cache out s p = p
  selected_repo_ids-Keeps k (i ∷ is) cache out s p = elim (Bool-cases (is_selected i)) [
    | inr skip ↦ rw (skip, selected_repo_ids) (selected_repo_ids-Keeps k is cache out s p)
    | inl take ↦
        rw (take, selected_repo_ids)
          (Keeps-bind P (repo_ids b org i.selected_repos cache [])
            (λ (f : List ℕ × Map ℕ). selected_repo_ids b org is f.1 (insert (entry_key i) f.0 out))
            (repo_ids-Keeps k i.selected_repos cache [])
            (λ f _ _ _. selected_repo_ids-Keeps k is f.1 (insert (entry_key i) f.0 out)) s p)
  ]

  pub org_inputs-Keeps :
      (is : List Intent) (resolved : Map String) (dry : Bool)
      → (dry ≡ false → KeptByOrgLookups)
      → Keeps P (org_inputs b org is resolved dry)
  unfolding resolve_selected_repo_ids
  org_inputs-Keeps is resolved true k s p = p
  org_inputs-Keeps is resolved false k s p =
      Keeps-bind P (resolve_selected_repo_ids b org is) _
        (selected_repo_ids-Keeps (k refl) is [] [])
        (λ ids _ _ _.
          Keeps-bind P (fetch_org_keys b org is) _ (fetch_org_keys-Keeps (k refl) is)
            (λ keys _ _ _ s p. p))
        s p

  module _ (sys : System) where
    abbrev pub MaySetOrg : OrgInputs → Intent → Type 0
    MaySetOrg inputs i = is_managed i.action ≡ true → Keeps P (write_org b org inputs i)

    pub run_org_apply_phase-Keeps :
        (is : List Intent) (inputs : OrgInputs) (dry : Bool)
        → (dry ≡ false → All (MaySetOrg inputs) is)
        → (s : b.State) → P s
        → P (run_org_apply_phase b org sys is inputs dry s).1
    unfolding run_org_apply_phase
    run_org_apply_phase-Keeps [] inputs dry h s p = p
    run_org_apply_phase-Keeps (i ∷ is) inputs true h s p = elim (Bool-cases (is_managed i.action)) [
      | inl m ↦ rw m (run_org_apply_phase-Keeps is inputs true (λ e. cc) s p)
      | inr m ↦ rw m (run_org_apply_phase-Keeps is inputs true (λ e. cc) s p)
    ]
    run_org_apply_phase-Keeps (i ∷ is) inputs false h s p =
        elim (Bool-cases (is_managed i.action)) [
          | inl m ↦
              rw m (run_org_apply_phase-Keeps is inputs false (λ e. (h e).1) _ ((h refl).0 m s p))
          | inr m ↦ rw m (run_org_apply_phase-Keeps is inputs false (λ e. (h e).1) s p)
        ]

    pub apply_org_loop-Keeps :
        (is : List Intent) (inputs : OrgInputs)
        → All (MaySetOrg inputs) is
        → (s : b.State) → P s
        → P (apply_org_loop b org sys is inputs s).1
    unfolding apply_org_loop
    apply_org_loop-Keeps [] inputs h s p = p
    apply_org_loop-Keeps (i ∷ is) inputs (may, h) s p = elim (Bool-cases (is_managed i.action)) [
      | inl m ↦ rw m (apply_org_loop-Keeps is inputs h _ (may m s p))
      | inr m ↦ rw m (apply_org_loop-Keeps is inputs h s p)
    ]

    abbrev pub MayDeleteOrg : Entry → Type 0
    MayDeleteOrg e = is_extra e.status ≡ true → Keeps P (delete_org_one b org e.kind e.name)

    pub run_org_delete_phase-Keeps :
        (es : List Entry) (dry : Bool)
        → (dry ≡ false → All MayDeleteOrg es)
        → (s : b.State) → P s
        → P (run_org_delete_phase b org sys es dry s).1
    unfolding run_org_delete_phase
    run_org_delete_phase-Keeps [] dry h s p = p
    run_org_delete_phase-Keeps (e ∷ es) true h s p = elim (Bool-cases (is_extra e.status)) [
      | inl m ↦ rw m (run_org_delete_phase-Keeps es true (λ e. cc) s p)
      | inr m ↦ rw m (run_org_delete_phase-Keeps es true (λ e. cc) s p)
    ]
    run_org_delete_phase-Keeps (e ∷ es) false h s p = elim (Bool-cases (is_extra e.status)) [
      | inl m ↦ rw m (run_org_delete_phase-Keeps es false (λ x. (h x).1) _ ((h refl).0 m s p))
      | inr m ↦ rw m (run_org_delete_phase-Keeps es false (λ x. (h x).1) s p)
    ]

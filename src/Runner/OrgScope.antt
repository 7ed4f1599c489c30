-- ===== src/Runner/OrgScope.antt =====
-- What the commands for the org scope share: the text of a stanza, the calls of the backend, the ids of
-- selected repos, and the loops that write and delete.
pub mod SelectedIds
pub mod LookedUp
use ghsecretman.Base.{
  ℕ, String, ◌<>◌, Bool, true, false, Option, none, some, List, [], ◌∷◌, ok, ◌++◌, ◌==◌, ◌&&◌,
  if◌then◌else◌, zero, suc, ◌+◌, not, ◌≡◌, ◌≢◌, refl, sym, ap, ◌∙◌, arith, Result, err, inl, inr,
  ◌⊎◌, ◌↔◌, ◌||◌, contains, Bool-cases, Option-cases, Result-cases,
}
use ghsecretman.Base.Maps.{Map, lookup, insert, get_text}
use ghsecretman.Base.Calls.{Call, ◌>>=◌, lift, wrap_call}
use ghsecretman.System.{System}
use ghsecretman.Plan.{Kind, kind_var, kind_secret, kind_dependabot, is_managed, Intent}
use ghsecretman.Diff.{Entry, Live, Status, status_mismatch}
use ghsecretman.Github.{Backend, PublicKey}
use ghsecretman.Runner.Target.{entry_key}
use ghsecretman.Runner.Stanza.{visible_rows, label, mismatch_text, status_text}
use ghsecretman.Runner.Repo.{needs, fetch_if}
use ghsecretman.Runner.Phases.{Tally, report, announce, is_extra}

abbrev pub org_header : String → String
org_header org = "org: " <> (org <> "\nscope: org\n")

module _ (sys : System) where
  org_entry_text : Status → Entry → String
  org_entry_text status_mismatch e = mismatch_text sys e
  org_entry_text status e = ": " <> status_text status

  write_org_lines : List Entry → String
  unfolding org_entry_text
  write_org_lines [] = ""
  write_org_lines (e ∷ entries) =
      label e <> (org_entry_text e.status e <> ("\n" <> write_org_lines entries))

  org_header_and_rows : String → List Entry → Bool → String
  org_header_and_rows header [] false = ""
  org_header_and_rows header [] true = header
  org_header_and_rows header (e ∷ entries) verbose = header <> write_org_lines (e ∷ entries)

  unfoldable pub write_org_stanza : String → List Entry → Bool → Bool → String
  unfolding org_header_and_rows write_org_lines visible_rows
  write_org_stanza org entries show_ignored verbose =
      org_header_and_rows (org_header org) (visible_rows show_ignored verbose entries) verbose

-- A name that the map of ids does not have reads as nil, the empty list.
abbrev pub ids_of : String → Map (List ℕ) → List ℕ
ids_of k m = elim (lookup k m) [ none ↦ [] | some ids ↦ ids ]

-- What the two maps and the two keys hold for the loop that writes.
pub record OrgInputs : Type 0 where
  pub resolved : Map String
  pub ids : Map (List ℕ)
  pub actions_key : Option PublicKey
  pub dep_key : Option PublicKey

-- The guard of the outer loop of `resolveSelectedRepoIDs`.
abbrev pub is_selected : Intent → Bool
is_selected i = is_managed i.action && i.visibility == "selected"

module _ (b : Backend) (org : String) where
  unfoldable pub fetch_org_live : Call b.State Live
  fetch_org_live = do
    vars ← b.list_org_variables org
    secrets ← b.list_org_secrets org
    dependabot ← b.list_org_dependabot_secrets org
    lift (ok (record { vars = vars; secrets = secrets; dependabot = dependabot }))

  unfoldable pub fetch_org_keys : List Intent → Call b.State (Option PublicKey × Option PublicKey)
  unfolding needs
  fetch_org_keys intents = do
    actions ←
        fetch_if (needs kind_secret intents) "fetch org actions public key"
          (b.get_org_public_key org)
    dependabot ←
        fetch_if (needs kind_dependabot intents) "fetch org dependabot public key"
          (b.get_org_dependabot_public_key org)
    lift (ok (actions, dependabot))

  -- The inner loop of `resolveSelectedRepoIDs`: the ids of the names, and the cache.
  unfoldable pub repo_ids : List String → Map ℕ → List ℕ → Call b.State (List ℕ × Map ℕ)
  repo_ids [] cache ids = lift (ok (ids, cache))
  repo_ids (name ∷ names) cache ids = elim (lookup name cache) [
    | some id ↦ repo_ids names cache (ids ++ id ∷ [])
    | none ↦
        wrap_call ("resolve repo id " <> (org <> ("/" <> name))) (b.get_repo_id org name) >>= λ v.
        repo_ids names (insert name v cache) (ids ++ v ∷ [])
  ]

  unfoldable pub selected_repo_ids :
      List Intent → Map ℕ → Map (List ℕ) → Call b.State (Map (List ℕ))
  unfolding repo_ids
  selected_repo_ids [] cache out = lift (ok out)
  selected_repo_ids (i ∷ intents) cache out =
      let skip = selected_repo_ids intents cache out in
      let look_up = repo_ids i.selected_repos cache [] >>= λ (found : List ℕ × Map ℕ).
      selected_repo_ids intents found.1 (insert (entry_key i) found.0 out) in
      if is_selected i then look_up else skip

  unfoldable pub resolve_selected_repo_ids : List Intent → Call b.State (Map (List ℕ))
  unfolding selected_repo_ids
  resolve_selected_repo_ids intents = selected_repo_ids intents [] []

  unfoldable pub apply_org_one :
      Kind
      → Intent
      → String
      → List ℕ
      → Option PublicKey
      → Option PublicKey
      → Call b.State (Unit {0})
  apply_org_one kind_var i value ids actions_key dep_key =
      b.set_org_variable org i.name value i.visibility ids
  apply_org_one kind_secret i value ids actions_key dep_key =
      b.set_org_secret org i.name actions_key value i.visibility ids
  apply_org_one kind_dependabot i value ids actions_key dep_key =
      b.set_org_dependabot_secret org i.name dep_key value i.visibility ids

  unfoldable pub delete_org_one : Kind → String → Call b.State (Unit {0})
  delete_org_one kind_var name = b.delete_org_variable org name
  delete_org_one kind_secret name = b.delete_org_secret org name
  delete_org_one kind_dependabot name = b.delete_org_dependabot_secret org name

  abbrev pub write_org : OrgInputs → Intent → Call b.State (Unit {0})
  write_org inputs i =
      apply_org_one i.kind i (get_text (entry_key i) inputs.resolved)
        (ids_of (entry_key i) inputs.ids) inputs.actions_key inputs.dep_key

  module _ (sys : System) where
    -- The loop of `ApplyOrgScope`.
    unfoldable pub apply_org_loop : List Intent → OrgInputs → b.State → Tally × b.State
    apply_org_loop [] inputs s = ((0, ""), s)
    apply_org_loop (i ∷ intents) inputs s =
        let skip = apply_org_loop intents inputs s in
        let (r, s') = write_org inputs i s in
        let (t, last) = apply_org_loop intents inputs s' in
        let set : Tally × b.State = (report sys i.kind i.name "ok" r t, last) in
        if is_managed i.action then set else skip

    unfoldable pub run_org_apply_phase : List Intent → OrgInputs → Bool → b.State → Tally × b.State
    run_org_apply_phase [] inputs dry_run s = ((0, ""), s)
    run_org_apply_phase (i ∷ intents) inputs dry_run s =
        let skip = run_org_apply_phase intents inputs dry_run s in
        let would_set : Tally × b.State = (announce i.kind i.name "would-set" skip.0, skip.1) in
        let (r, s') = write_org inputs i s in
        let (t, last) = run_org_apply_phase intents inputs dry_run s' in
        let set : Tally × b.State = (report sys i.kind i.name "ok" r t, last) in
        if is_managed i.action then (if dry_run then would_set else set) else skip

    unfoldable pub run_org_delete_phase : List Entry → Bool → b.State → Tally × b.State
    run_org_delete_phase [] dry_run s = ((0, ""), s)
    run_org_delete_phase (e ∷ entries) dry_run s =
        let skip = run_org_delete_phase entries dry_run s in
        let would_delete : Tally × b.State =
          (announce e.kind e.name "would-delete" skip.0, skip.1) in
        let (r, s') = delete_org_one e.kind e.name s in
        let (t, last) = run_org_delete_phase entries dry_run s' in
        let deleted : Tally × b.State = (report sys e.kind e.name "deleted" r t, last) in
        if is_extra e.status then (if dry_run then would_delete else deleted) else skip

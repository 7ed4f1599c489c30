-- ===== src/Tests/OrgScopes.antt =====
-- The org scope of an organization held in memory, and the theorems about it.
use ghsecretman.System.{System}
use ghsecretman.Runner.OrgCommands.DryRun.{enforce_org_scope-dry_run}
use mathlib.Core.Path.{subst}
use ghsecretman.Diff.Organization.{compute-org_verdict, is_org_ignored, is_org_managed, org_verdict}
use ghsecretman.Runner.OrgScope.LookedUp.{resolve_selected_repo_ids-IsUnique}
use ghsecretman.Runner.OrgCommands.Allowed.{apply_org_scope-Keeps, enforce_org_scope-Keeps}
use ghsecretman.Runner.OrgScope.SelectedIds.{
  resolve_selected_repo_ids-plain_repo_ids, plain_repo_ids,
}
use ghsecretman.Runner.OrgCommands.Drift.{audit_org_scope-InOrgStep, InOrgStep}
use ghsecretman.Plan.Organization.{
  for_org-org_planned, org_managed_for, org_planned, effective_org_ignored, for_org,
}
use ghsecretman.Tests.Runs.{token, literal}
use ghsecretman.Runner.OrgCommands.Footprint.{KeptByOrgSets, KeptByOrgDeletes}
use ghsecretman.Base.Maps.{lookup-insert, insert, NodupKeys, lookup}
use ghsecretman.Diff.Verdict.{IsLive}
use ghsecretman.Diff.Rows.{pick}
use ghsecretman.Runner.Target.{resolve_vars}
use ghsecretman.Github.{Backend}
use ghsecretman.Base.Sort.{IsUnique}
use ghsecretman.Runner.OrgCommands.{apply_org_scope, enforce_org_scope, audit_org_scope}
use ghsecretman.Runner.OrgScope.{
  fetch_org_live, apply_org_one, resolve_selected_repo_ids, delete_org_one,
}
use ghsecretman.Config.{Entry, OrgEntry, Org, org_of, Config, OrgScope}
use ghsecretman.Tests.Memory.{lookup-erase, erase, done, memory, system, Memory}
use ghsecretman.Diff.{compute, Live}
use ghsecretman.Base.{
  text_dec, String, Bool, true, false, Option, none, some, [], ◌∷◌, ◌≡◌, ◌≢◌, refl, sym, ap, ◌∙◌,
  arith, ok, ◌↔◌, ℕ, zero, suc, ◌+◌, ◌<>◌, not, List, ◌++◌, Result, err, inl, inr, ◌⊎◌, ◌&&◌, ◌||◌,
  ◌==◌, if◌then◌else◌, contains, Bool-cases, Option-cases, Result-cases,
}
use ghsecretman.Plan.{Kind, select, kind_var, kind_secret, kind_dependabot}

-- The objects of the organization itself. A look at a repo's id is written down among the secrets, which
-- these tests of the ids leave alone.
abbrev org_memory : Backend
org_memory = record memory {
  list_org_variables = λ o s. (ok s.vars, s);
  list_org_secrets = λ o s. (ok s.secrets, s);
  list_org_dependabot_secrets = λ o s. (ok s.dependabot, s);
  set_org_variable = λ o n v z ids s. done (record s { vars = insert n v s.vars });
  delete_org_variable = λ o n s. done (record s { vars = erase n s.vars });
}

abbrev noting : Backend
noting = record memory { get_repo_id = λ o r s. (ok 7, record s { secrets = r ∷ s.secrets }) }

abbrev for_site : Entry → OrgEntry
for_site e = record { entry = e; visibility = "selected"; repos = "site" ∷ "blog" ∷ "site" ∷ [] }

abbrev block : OrgScope
block = record {
  managed = record {
    vars = ("REGION", for_site (literal "REGION" "us")) ∷ [];
    secrets = ("SEED", for_site (literal "SEED" "1")) ∷ [];
    dependabot = [];
  };
  ignored = record { vars = "KEEP" ∷ []; secrets = []; dependabot = [] };
}

abbrev owner : Org
owner = record { org_scope = some block; all_repos = none; per_repo = [] }

abbrev cfg : Config
cfg = record { base_dir = ""; orgs = ("acme", owner) ∷ [] }

abbrev before : Memory
before = record {
  vars = ("KEEP", "1") ∷ ("REGION", "eu") ∷ ("STRAY", "x") ∷ [];
  secrets = [];
  dependabot = [];
}

abbrev org_live : Live
org_live = record { vars = before.vars; secrets = []; dependabot = [] }

org_live-IsLive : IsLive org_live
unfolding text_dec
org_live-IsLive = record { vars = (refl, (refl, (refl, tt))); secrets = tt; dependabot = tt }

maps : (kind : Kind) → NodupKeys (org_managed_for (some block) kind)
maps kind_var = (refl, tt)
maps kind_secret = (refl, tt)
maps kind_dependabot = tt

for_org-org_planned_example :
    select kind_var "REGION" (for_org (some block)) ≡ org_planned (some block) kind_var "REGION"
for_org-org_planned_example = for_org-org_planned (some block) kind_var "REGION" maps

compute-org_verdict_example :
    pick kind_var "STRAY"
      (compute "" (for_org (some block)) [] org_live (effective_org_ignored (some block)))
    ≡ org_verdict kind_var "STRAY" [] org_live
        (is_org_managed (some block) kind_var "STRAY")
        (is_org_ignored (some block) kind_var "STRAY")
compute-org_verdict_example =
    compute-org_verdict (some block) [] org_live maps org_live-IsLive kind_var "STRAY"

here : org_of cfg "acme" ≡ some owner
unfolding org_of text_dec
here = refl

wanted : resolve_vars system (for_org (some block)) ≡ ok (("REGION", "us") ∷ [])
unfolding resolve_vars for_org text_dec ghsecretman.Base.Sort.sort_strings
    ghsecretman.Resolve.resolve
wanted = refl

read : fetch_org_live org_memory "acme" before ≡ (ok org_live, before)
unfolding fetch_org_live
read = refl

audit_org_scope-InOrgStep_example :
    (drift : Bool) × (out : String) × (audit_org_scope system org_memory cfg "acme" true true before
      ≡ (ok (record { drift = drift; failed = 0 }, out), before))
    × ((drift ≡ false) ↔ (
        (k : Kind) (n : String)
        → InOrgStep
            (("REGION", "us") ∷ [])
            org_live
            k
            n
            (is_org_managed (some block) k n)
            (is_org_ignored (some block) k n)))
audit_org_scope-InOrgStep_example =
    audit_org_scope-InOrgStep system org_memory cfg "acme" true true before before owner block
      (("REGION", "us") ∷ []) org_live here refl wanted read maps org_live-IsLive

resolve_selected_repo_ids-plain_repo_ids_example :
    (resolve_selected_repo_ids org_memory "acme" (for_org (some block)) before).0
    ≡ plain_repo_ids "acme" (λ n. ok 7) (for_org (some block)) []
resolve_selected_repo_ids-plain_repo_ids_example =
    resolve_selected_repo_ids-plain_repo_ids org_memory "acme" (λ n. ok 7) (λ n s. refl)
      (for_org (some block)) before

resolve_selected_repo_ids-IsUnique_example :
    IsUnique (resolve_selected_repo_ids noting "acme" (for_org (some block)) before).1.secrets
resolve_selected_repo_ids-IsUnique_example =
    resolve_selected_repo_ids-IsUnique noting "acme" (λ s. s.secrets) (λ n s. refl)
      (for_org (some block)) before refl

-- The variable that the block ignores.
abbrev HasKeep : Memory → Type 0
HasKeep s = lookup "KEEP" s.vars ≡ some "1"

keep_unmanaged : lookup "KEEP" block.managed.vars ≡ none
unfolding text_dec
keep_unmanaged = refl

keep_ignored : is_org_ignored (some block) kind_var "KEEP" ≡ true
unfolding text_dec
keep_ignored = refl

keep_apart :
    (n : String) (oe : OrgEntry)
    → lookup n (org_managed_for (some block) kind_var) ≡ some oe
    → "KEEP" ≢ n
keep_apart n oe managed same =
    let h : Path (Option OrgEntry) none (some oe) =
      sym keep_unmanaged ∙ ap (λ x. lookup x block.managed.vars) same ∙ managed in
    ground arith

keep_kept : (n : String) → is_org_ignored (some block) kind_var n ≡ false → "KEEP" ≢ n
keep_kept n unignored same =
    let h : true ≡ false =
      sym keep_ignored ∙ ap (λ x. is_org_ignored (some block) kind_var x) same ∙ unignored in
    ground arith

lives :
    (live : Live) (s' : Memory)
    → fetch_org_live org_memory "acme" before ≡ (ok live, s')
    → IsLive live
unfolding fetch_org_live
lives live s' e = let same : org_live ≡ live = ground arith in subst IsLive same org_live-IsLive

sets : KeptByOrgSets org_memory "acme" HasKeep (some block)
unfolding apply_org_one
sets kind_var n v oe ids ak dk managed s keep =
    ground (arith, lookup-insert "KEEP" n v s.vars, keep_apart n oe managed)
sets kind_secret n v oe ids ak dk managed s keep = keep
sets kind_dependabot n v oe ids ak dk managed s keep = keep

deletes : KeptByOrgDeletes org_memory "acme" HasKeep (some block) before
unfolding delete_org_one
deletes kind_var n live s0 fetched there unmanaged unignored s keep =
    ground (arith, lookup-erase "KEEP" n s.vars, keep_kept n unignored)
deletes kind_secret n live s0 fetched there unmanaged unignored s keep = keep
deletes kind_dependabot n live s0 fetched there unmanaged unignored s keep = keep

enforce_org_scope-Keeps_example :
    HasKeep
      (enforce_org_scope system org_memory cfg "acme"
        (record { dry_run = false; verbose = false })
        before).1
unfolding text_dec
enforce_org_scope-Keeps_example =
    enforce_org_scope-Keeps org_memory "acme" HasKeep system cfg
      (record { dry_run = false; verbose = false }) owner block before here refl maps lives
      (record { variables = λ s p. p; secrets = λ s p. p; dependabot = λ s p. p })
      (λ e.
        (record { repo_id = λ n s p. p; actions = λ s p. p; dependabot = λ s p. p }, sets, deletes))
      refl

-- Of the block's entries none resolves here.
abbrev unresolved : OrgScope
unresolved = record block {
  managed = record { vars = []; secrets = ("TOKEN", for_site token) ∷ []; dependabot = [] };
}

abbrev bare : System
bare = record system { lookup_env = λ name. none }

abbrev unresolved_owner : Org
unresolved_owner = record { org_scope = some unresolved; all_repos = none; per_repo = [] }

abbrev unresolved_cfg : Config
unresolved_cfg = record { base_dir = ""; orgs = ("acme", unresolved_owner) ∷ [] }

unresolved_here : org_of unresolved_cfg "acme" ≡ some unresolved_owner
unfolding org_of text_dec
unresolved_here = refl

enforce_org_scope-dry_run_example :
    (text : String) × (enforce_org_scope bare org_memory unresolved_cfg "acme"
        (record { dry_run = true; verbose = false })
        before
      ≡ (ok (record { drift = false; failed = 0 }, text), before))
enforce_org_scope-dry_run_example =
    enforce_org_scope-dry_run bare org_memory "acme" unresolved_cfg unresolved_owner unresolved
      false org_live before before unresolved_here refl read

apply_org_scope-Keeps_example :
    HasKeep (apply_org_scope system org_memory cfg "acme" false before).1
unfolding text_dec
apply_org_scope-Keeps_example =
    apply_org_scope-Keeps org_memory "acme" HasKeep system cfg false owner block before here refl
      maps (record { repo_id = λ n s p. p; actions = λ s p. p; dependabot = λ s p. p }) sets refl

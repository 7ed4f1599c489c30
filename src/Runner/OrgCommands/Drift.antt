-- ===== src/Runner/OrgCommands/Drift.antt =====
-- When an audit of the org scope reports drift.
use ghsecretman.Plan.{kind_var, kind_secret, kind_dependabot}
use ghsecretman.Runner.Audit.Drift.{has_drift_iff}
use ghsecretman.Runner.OrgScope.{write_org_stanza, fetch_org_live}
use ghsecretman.Plan.Organization.{effective_org_ignored, org_managed_for, for_org}
use ghsecretman.Runner.Target.{resolve_vars}
use ghsecretman.Config.{org_of, OrgScope, Org, Config}
use ghsecretman.Diff.Organization.{compute-org_verdict, is_org_ignored, is_org_managed, org_verdict}
use ghsecretman.Github.{Backend}
use ghsecretman.Diff.Verdict.{IsLive, is_live}
use ghsecretman.Plan.{Kind}
use ghsecretman.System.{System}
use ghsecretman.Base.Maps.{NodupKeys, get_text, lookup, Map}
use ghsecretman.Diff.{compute, Live, has_drift}
use ghsecretman.Runner.OrgCommands.{audit_org_scope}
use ghsecretman.Base.{String, Bool, true, false, some, ◌≡◌, sym, ap, ◌∙◌, arith, ok, ◌↔◌}

-- A name is in step with the organization's block: a managed one is there, a variable with the value
-- that is wanted, one that the block does not name is not there, and of an ignored one nothing is
-- asked.
abbrev pub InOrgStep : Map String → Live → Kind → String → Bool → Bool → Type 0
InOrgStep desired live k n false false = is_live live k n ≡ false
InOrgStep desired live k n false true = Unit
InOrgStep desired live kind_var n true ignored = lookup n live.vars ≡ some (get_text n desired)
InOrgStep desired live kind_secret n true ignored = is_live live kind_secret n ≡ true
InOrgStep desired live kind_dependabot n true ignored = is_live live kind_dependabot n ≡ true

org_verdict-InOrgStep :
    (k : Kind) (n : String) (desired : Map String) (live : Live) (m ig : Bool)
    → (has_drift (org_verdict k n desired live m ig) ≡ false) ↔ InOrgStep desired live k n m ig
unfolding has_drift
org_verdict-InOrgStep k n desired live false false = ground arith
org_verdict-InOrgStep k n desired live false true = ground arith
org_verdict-InOrgStep kind_var n desired live true ig = ground arith
org_verdict-InOrgStep kind_secret n desired live true ig = ground arith
org_verdict-InOrgStep kind_dependabot n desired live true ig = ground arith

-- An audit of an org scope that the configuration has, and which resolves the desired variables and
-- reads the live state of the organization, succeeds, leaves the state as the three reads left it, and
-- reports no drift exactly when every name of every kind is in step with the organization's block,
-- provided that the managed blocks are maps and no live name is listed twice.
pub audit_org_scope-InOrgStep :
    (sys : System) (b : Backend) (cfg : Config) (org : String) (show_ignored verbose : Bool)
    (s s' : b.State) (o : Org) (scope : OrgScope) (desired : Map String) (live : Live)
    → org_of cfg org ≡ some o
    → o.org_scope ≡ some scope
    → resolve_vars sys (for_org (some scope)) ≡ ok desired
    → fetch_org_live b org s ≡ (ok live, s')
    → ((kind : Kind) → NodupKeys (org_managed_for (some scope) kind))
    → IsLive live
    → (drift : Bool) × (out : String) × (audit_org_scope sys b cfg org show_ignored verbose s
        ≡ (ok (record { drift = drift; failed = 0 }, out), s'))
      × ((drift ≡ false) ↔ (
          (k : Kind) (n : String)
          → InOrgStep desired live k n
              (is_org_managed (some scope) k n)
              (is_org_ignored (some scope) k n)))
unfolding audit_org_scope org_of
audit_org_scope-InOrgStep sys b cfg org show_ignored verbose s s' o scope desired live here
      has_scope resolved fetched u l =
    let sc = some scope in
    let entries = compute "" (for_org sc) desired live (effective_org_ignored sc) in
    let at = λ (k : Kind) (n : String). compute-org_verdict sc desired live u l k n in
    let step = λ (k : Kind) (n : String).
      org_verdict-InOrgStep k n desired live (is_org_managed sc k n) (is_org_ignored sc k n) in
    (
      has_drift entries,
      write_org_stanza sys org entries show_ignored verbose,
      ground arith,
      (
        λ h k n. (step k n).0 (ap has_drift (sym (at k n)) ∙ (has_drift_iff entries).0 h k n),
        λ h. (has_drift_iff entries).1 (λ k n. ap has_drift (at k n) ∙ (step k n).1 (h k n)),
      ),
    )

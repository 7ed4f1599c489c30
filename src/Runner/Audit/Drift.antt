-- ===== src/Runner/Audit/Drift.antt =====
-- When an audit of a repo reports drift.
use ghsecretman.Runner.Keys.{kind_eq_refl}
use ghsecretman.Plan.Cascade.Precedence.{precedence}
use ghsecretman.Base.{
  String, Bool, true, false, Option, none, some, List, [], ◌∷◌, ◌≡◌, ◌↔◌, refl, sym, ap, ◌∙◌, arith,
  ok,
}
use ghsecretman.System.{System}
use ghsecretman.Config.{Org, Config, Repo}
use ghsecretman.Github.{Backend}
use ghsecretman.Base.Maps.{Map, lookup, get_text, NodupKeys}
use ghsecretman.Plan.{Kind, kind_var, kind_secret, kind_dependabot, is_managed, managed_for}
use ghsecretman.Plan.Cascade.{CascadeWinner, for_repo_cascade, effective_ignored}
use ghsecretman.Diff.{Entry, Live, compute, has_drift}
use ghsecretman.Diff.Rows.{pick}
use ghsecretman.Diff.Verdict.{verdict, is_live, IsLive, compute-verdict}
use ghsecretman.Runner.Target.{lookup_target, resolve_vars}
use ghsecretman.Runner.Repo.{fetch_live}
use ghsecretman.Runner.Stanza.{write_stanza}
use ghsecretman.Runner.Audit.{audit_repo}

has_drift-pick :
    (k : Kind) (n : String) (es : List Entry)
    → has_drift es ≡ false
    → has_drift (pick k n es) ≡ false
unfolding has_drift
has_drift-pick k n [] h = refl
has_drift-pick k n (e ∷ es) h = ground (arith, has_drift-pick k n es)

has_drift-of_picks :
    (es : List Entry)
    → ((k : Kind) (n : String) → has_drift (pick k n es) ≡ false)
    → has_drift es ≡ false
unfolding has_drift
has_drift-of_picks [] h = refl
has_drift-of_picks (e ∷ es) h = ground (
  arith,
  h e.kind e.name,
  kind_eq_refl e.kind,
  has_drift-of_picks es (λ k n. ground (arith, h k n)),
)

pub has_drift_iff :
    (es : List Entry)
    → (has_drift es ≡ false) ↔ ((k : Kind) (n : String) → has_drift (pick k n es) ≡ false)
has_drift_iff es = (λ h k n. has_drift-pick k n es h, has_drift-of_picks es)

-- A name is in step with the plan: a managed one is there, a variable with the value that is wanted,
-- one that the plan does not name is not there, and of an ignored one nothing is asked.
abbrev pub InStep : Map String → Live → Kind → String → Option CascadeWinner → Type 0
InStep desired live k n none = is_live live k n ≡ false
InStep desired live kind_var n (some w) =
    is_managed w.action ≡ true → lookup n live.vars ≡ some (get_text n desired)
InStep desired live kind_secret n (some w) =
    is_managed w.action ≡ true → is_live live kind_secret n ≡ true
InStep desired live kind_dependabot n (some w) =
    is_managed w.action ≡ true → is_live live kind_dependabot n ≡ true

pub verdict-InStep :
    (repo : String) (k : Kind) (n : String) (desired : Map String) (live : Live)
    (o : Option CascadeWinner)
    → (has_drift (verdict repo k n desired live o) ≡ false) ↔ InStep desired live k n o
unfolding has_drift
verdict-InStep repo k n desired live none = ground arith
verdict-InStep repo kind_var n desired live (some w) = ground arith
verdict-InStep repo kind_secret n desired live (some w) = ground arith
verdict-InStep repo kind_dependabot n desired live (some w) = ground arith

-- An audit that finds its target, resolves the desired variables and reads the live state succeeds,
-- leaves the state as the three reads left it, and reports no drift exactly when every name of every
-- kind is in step with the plan, provided that the per-repo managed blocks are maps and no live name
-- is listed twice.
pub audit_repo-InStep :
    (sys : System) (b : Backend) (cfg : Config) (org repo : String) (show_ignored verbose : Bool)
    (s s' : b.State) (o : Org) (pr : Option Repo) (desired : Map String) (live : Live)
    → lookup_target sys cfg org repo ≡ ok (o, pr)
    → resolve_vars sys (for_repo_cascade repo o.all_repos pr) ≡ ok desired
    → fetch_live b org repo s ≡ (ok live, s')
    → ((kind : Kind) → NodupKeys (managed_for pr kind))
    → IsLive live
    → (drift : Bool) × (out : String) × (audit_repo sys b cfg org repo show_ignored verbose s
        ≡ (ok (record { drift = drift; failed = 0 }, out), s'))
      × ((drift ≡ false)
          ↔ ((k : Kind) (n : String) → InStep desired live k n (precedence o.all_repos pr k n)))
unfolding audit_repo
audit_repo-InStep sys b cfg org repo show_ignored verbose s s' o pr desired live target resolved
      fetched u l =
    let entries =
      compute repo (for_repo_cascade repo o.all_repos pr) desired live
        (effective_ignored o.all_repos pr) in
    let at = λ (k : Kind) (n : String). compute-verdict repo o.all_repos pr desired live u l k n in
    let step = λ (k : Kind) (n : String).
      verdict-InStep repo k n desired live (precedence o.all_repos pr k n) in
    (
      has_drift entries,
      write_stanza sys org repo entries show_ignored verbose,
      ground arith,
      (
        λ h k n. (step k n).0 (ap has_drift (sym (at k n)) ∙ (has_drift_iff entries).0 h k n),
        λ h. (has_drift_iff entries).1 (λ k n. ap has_drift (at k n) ∙ (step k n).1 (h k n)),
      ),
    )

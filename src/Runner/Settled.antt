-- ===== src/Runner/Settled.antt =====
-- What the two phases of an enforce leave behind of a plan.
-- What should be live under a name, from what the precedence rules say of it, the text of its entry
-- and what was live before.
use ghsecretman.Runner.Allowed.{verdict-not_extra, All-of_not}
use mathlib.Core.Path.{subst}
use ghsecretman.Runner.Target.{desired_vars_from_resolved, key_of}
use ghsecretman.Runner.Phases.{is_extra, run_delete_phase, run_apply_phase}
use ghsecretman.Plan.Cascade.Precedence.{precedence}
use ghsecretman.Plan.Cascade.Intents.{for_repo_cascade-precedence, planned}
use ghsecretman.Runner.Footprint.{All-of_pick, All-of_select, All}
use ghsecretman.Diff.Sets.{any_managed}
use ghsecretman.Diff.Verdict.{compute-verdict, is_live, verdict}
use ghsecretman.Config.{Repo, Org, Config}
use ghsecretman.Runner.Lawful.{
  run_delete_phase-Cleared, run_apply_phase-Wrote, MayClear, MaySpell, live_at, stored, any_extra,
  IsLawful,
}
use ghsecretman.Diff.{compute, Entry, Live}
use ghsecretman.Github.{PublicKey, Backend}
use ghsecretman.Base.Maps.{NodupKeys, get_text, Map}
use ghsecretman.Plan.Cascade.{effective_ignored, for_repo_cascade, CascadeWinner}
use ghsecretman.Plan.{kind_dependabot, managed_for, Intent, kind_secret, kind_var, is_managed, Kind}
use ghsecretman.System.{System}
use ghsecretman.Base.{
  String, true, false, Option, none, some, List, ◌≡◌, refl, ◌∙◌, arith, inl, inr, if◌then◌else◌,
  Bool-cases,
}

abbrev pub settled : Kind → String → Option String → Option CascadeWinner → Option String
settled k text before none = none
settled k text before (some w) = if is_managed w.action then some (stored k text) else before

any_extra-none :
    (repo : String) (k : Kind) (n : String) (desired : Map String) (live : Live)
    → (if any_extra (verdict repo k n desired live none) then none else live_at live k n) ≡ none
any_extra-none repo kind_var n desired live = ground arith
any_extra-none repo kind_secret n desired live = ground arith
any_extra-none repo kind_dependabot n desired live = ground arith

any_extra-some :
    (repo : String) (k : Kind) (n : String) (desired : Map String) (live : Live) (w : CascadeWinner)
    → any_extra (verdict repo k n desired live (some w)) ≡ false
any_extra-some repo kind_var n desired live w = ground arith
any_extra-some repo kind_secret n desired live w = ground arith
any_extra-some repo kind_dependabot n desired live w = ground arith

both_phases :
    (repo : String) (k : Kind) (n text : String) (desired : Map String) (live : Live)
    (o : Option CascadeWinner)
    → (if any_extra (verdict repo k n desired live o)
        then none
        else if any_managed (planned repo k n o)
        then some (stored k text)
        else live_at live k n)
      ≡ settled k text (live_at live k n) o
both_phases repo k n text desired live none = any_extra-none repo k n desired live
both_phases repo k n text desired live (some w) =
    ground (arith, any_extra-some repo k n desired live w)

module _ (sys : System) (b : Backend) (org repo : String) (l : IsLawful b org repo) (cfg : Config)
    (o : Org) (pr : Option Repo) where
  abbrev intents : List Intent
  intents = for_repo_cascade repo o.all_repos pr

  -- A state in which every name has what the plan wants of it.
  abbrev pub Settled : Map String → b.State → b.State → Type 0
  Settled m s s' =
      l.IsValid s'
      × ((k : Kind) (n : String)
          → live_at (l.view s') k n
            ≡ settled k (get_text (key_of k n) m) (live_at (l.view s) k n)
                (precedence o.all_repos pr k n))

  abbrev pub rows : Map String → b.State → List Entry
  rows m s =
      compute repo intents (desired_vars_from_resolved intents m) (l.view s)
        (effective_ignored o.all_repos pr)

  -- The managed names of the plan are spelled as GitHub keeps them.
  abbrev pub AreSpelled : Type 0
  AreSpelled =
      (k : Kind) (n : String) (w : CascadeWinner)
      → precedence o.all_repos pr k n ≡ some w
      → is_managed w.action ≡ true
      → l.IsSpelled k n

  planned-MaySpell :
      (k : Kind) (n : String) (w : Option CascadeWinner)
      → AreSpelled
      → precedence o.all_repos pr k n ≡ w
      → All (MaySpell sys b org repo l) (planned repo k n w)
  planned-MaySpell k n none names p = tt
  planned-MaySpell k n (some w) names p = (λ managed. names k n w p managed, tt)

  intents-MaySpell :
      ((kind : Kind) → NodupKeys (managed_for pr kind))
      → AreSpelled
      → All (MaySpell sys b org repo l) intents
  intents-MaySpell u names = All-of_select _ intents (λ k n.
      rw (for_repo_cascade-precedence repo o.all_repos pr k n u)
        (planned-MaySpell k n _ names refl))

  verdict-MayClear :
      (k : Kind) (n : String) (desired : Map String) (s : b.State) (w : Option CascadeWinner)
      → l.IsValid s
      → All (MayClear sys b org repo l) (verdict repo k n desired (l.view s) w)
  verdict-MayClear k n desired s none valid = elim (Bool-cases (is_live (l.view s) k n)) [
    | inl there ↦ rw there ((λ extra. l.spelled k n s valid there), tt)
    | inr gone ↦ rw gone tt
  ]
  verdict-MayClear k n desired s (some w) valid =
      All-of_not (λ (d : Entry). is_extra d.status) (λ d. l.IsSpelled d.kind d.name) _
        (verdict-not_extra repo k n desired (l.view s) w)

  rows-MayClear :
      (m : Map String) (s : b.State)
      → ((kind : Kind) → NodupKeys (managed_for pr kind))
      → l.IsValid s
      → All (MayClear sys b org repo l) (rows m s)
  rows-MayClear m s u valid =
      let desired = desired_vars_from_resolved intents m in
      All-of_pick _ _ (λ k n.
        rw (compute-verdict repo o.all_repos pr desired (l.view s) u (l.unique s valid) k n)
          (verdict-MayClear k n desired s _ valid))

  -- The two phases, from a state x, on the rows for a state s.
  abbrev pub Run : Map String → Option PublicKey → Option PublicKey → b.State → b.State → Type 0
  Run m ak dk s x =
      let a = run_apply_phase sys b org repo intents m ak dk false x in
      let d = run_delete_phase sys b org repo (rows m s) false a.1 in
      a.0.0 ≡ 0 → d.0.0 ≡ 0 → Settled m s d.1

  two_phases :
      (m : Map String) (ak dk : Option PublicKey) (s : b.State)
      → ((kind : Kind) → NodupKeys (managed_for pr kind))
      → AreSpelled
      → l.IsValid s
      → Run m ak dk s s
  two_phases m ak dk s u names valid za zd =
      let desired = desired_vars_from_resolved intents m in
      let a = run_apply_phase sys b org repo intents m ak dk false s in
      let (v, wrote) =
        run_apply_phase-Wrote sys b org repo l intents m ak dk s (intents-MaySpell u names) valid
          za in
      let (v', cleared) =
        run_delete_phase-Cleared sys b org repo l (rows m s) a.1 (rows-MayClear m s u valid) v zd in
      let verdicts = compute-verdict repo o.all_repos pr desired (l.view s) u (l.unique s valid) in
      (
        v',
        λ k n.
            cleared k n
            ∙ rw (wrote k n, verdicts k n, for_repo_cascade-precedence repo o.all_repos pr k n u)
                (both_phases repo k n (get_text (key_of k n) m) desired (l.view s)
                  (precedence o.all_repos pr k n)),
      )

  pub from_same :
      (m : Map String) (ak dk : Option PublicKey) (s x : b.State)
      → ((kind : Kind) → NodupKeys (managed_for pr kind))
      → AreSpelled
      → l.IsValid s
      → s ≡ x
      → Run m ak dk s x
  from_same m ak dk s x u names valid same =
      subst (Run m ak dk s) same (two_phases m ak dk s u names valid)

-- ===== src/Runner/Convergence.antt =====
-- What an enforce that fails nowhere leaves behind, and what an audit then reports.
use ghsecretman.Runner.Resolved.{resolve_all-Found}
use ghsecretman.Plan.Cascade.Intents.{planned, for_repo_cascade-precedence, intent_of}
use mathlib.Core.Path.{subst}
use ghsecretman.Plan.Cascade.Precedence.{precedence}
use ghsecretman.Diff.{Live}
use ghsecretman.Runner.Audit.Drift.{InStep, audit_repo-InStep}
use ghsecretman.Base.Calls.{call_ok}
use ghsecretman.Runner.ResolvedVars.{resolve_vars-FoundVar, resolve_vars-total}
use ghsecretman.Runner.Audit.{audit_repo}
use ghsecretman.Runner.Settled.{from_same, rows, settled, Settled, AreSpelled}
use ghsecretman.Runner.Allowed.{fetch_keys-Keeps}
use ghsecretman.Base.Maps.{get_text, Map, NodupKeys}
use ghsecretman.Plan.Cascade.{CascadeWinner, for_repo_cascade}
use ghsecretman.Runner.Repo.{fetch_keys}
use ghsecretman.Plan.{kind_dependabot, kind_secret, is_managed, kind_var, managed_for, Kind, Intent}
use ghsecretman.Config.{Repo, Org, Config}
use ghsecretman.Runner.Lawful.{live_at, IsLawful}
use ghsecretman.Runner.Enforce.{enforce_repo, both}
use ghsecretman.Github.{Backend}
use ghsecretman.System.{System}
use ghsecretman.Runner.Phases.{run_delete_phase, run_apply_phase, Tally}
use ghsecretman.Runner.Target.{key_of, resolve_vars, resolve_all, lookup_target, RunResult}
use ghsecretman.Base.{
  String, Bool, true, false, Option, none, some, List, ◌≡◌, refl, sym, ap, ◌∙◌, arith, Result, ok,
  inl, inr, Result-cases,
}

abbrev Outcome : Type 0 → Type 0
Outcome S = Result (RunResult × String) × S

abbrev clean : RunResult
clean = record { drift = false; failed = 0 }

finish :
    {S : Type 0} (a d : Tally) (text out : String) (last s' : S)
    → Path
        (Outcome S)
        (ok (record { drift = false; failed = (both a d).0 }, text), last)
        (ok (clean, out), s')
    → (a.0 ≡ 0) × (d.0 ≡ 0) × (last ≡ s')
finish a d text out last s' h = ground arith

module _ (sys : System) (b : Backend) (org repo : String) (l : IsLawful b org repo) (cfg : Config)
    (o : Org) (pr : Option Repo) where
  abbrev intents : List Intent
  intents = for_repo_cascade repo o.all_repos pr

  keys_kept : (s : b.State) → (fetch_keys b org repo intents s).1 ≡ s
  keys_kept s =
      fetch_keys-Keeps b org repo (λ x. x ≡ s)
        (record {
          actions = λ x p. l.actions_key x ∙ p;
          dependabot = λ x p. l.dependabot_key x ∙ p;
        })
        intents s refl

  -- A real run of `EnforceRepo` that returned and counted no failure has resolved every managed entry
  -- and leaves a valid state, in which every managed variable has the text of its entry, every managed
  -- secret is there, every ignored name is as it was, and no other name is there, provided that the
  -- backend is lawful, the run started in a valid state of which one page of each listing shows all, the
  -- configuration has the target, its managed names are spelled as GitHub keeps them (in upper case), and
  -- its per-repo managed blocks are maps.
  pub enforce_repo-Settled :
      (verbose : Bool) (s s' : b.State) (out : String)
      → lookup_target sys cfg org repo ≡ ok (o, pr)
      → ((kind : Kind) → NodupKeys (managed_for pr kind))
      → AreSpelled sys b org repo l cfg o pr
      → l.IsValid s
      → l.Fits s
      → enforce_repo sys b cfg org repo (record { dry_run = false; verbose = verbose }) s
        ≡ (ok (record { drift = false; failed = 0 }, out), s')
      → (m : Map String) × (resolve_all sys (for_repo_cascade repo o.all_repos pr) ≡ ok m)
        × Settled sys b org repo l cfg o pr m s s'
  unfolding enforce_repo
  enforce_repo-Settled verbose s s' out found u names valid fits =
      rw found (elim (Result-cases (resolve_all sys intents)) [
        | inr (e, failed) ↦ rw failed (λ h. absurd (ground arith))
        | inl (m, held) ↦
            rw (held, l.reads s valid fits)
              (λ h.
                let (keys, s2, fetched, rest) =
                  call_ok (fetch_keys b org repo intents) _ s s' _ h in
                let same : s ≡ s2 = sym (keys_kept s) ∙ ap (λ r. r.1) fetched in
                let a = run_apply_phase sys b org repo intents m keys.0 keys.1 false s2 in
                let d =
                  run_delete_phase sys b org repo (rows sys b org repo l cfg o pr m s) false a.1 in
                let (za, zd, last) = finish a.0 d.0 _ out d.1 s' rest in
                (
                  m,
                  refl,
                  subst (Settled sys b org repo l cfg o pr m s) last (
                      from_same sys b org repo l cfg o pr m keys.0 keys.1 s s2 u names valid same za
                        zd),
                ))
      ])

  module _ (u : (kind : Kind) → NodupKeys (managed_for pr kind)) (m desired : Map String)
      (all : resolve_all sys intents ≡ ok m) (vars : resolve_vars sys intents ≡ ok desired) where
    -- Both maps of resolved values hold the same text for a managed variable.
    same_text :
        (n : String) (w : CascadeWinner)
        → precedence o.all_repos pr kind_var n ≡ some w
        → is_managed w.action ≡ true
        → get_text (key_of kind_var n) m ≡ get_text n desired
    same_text n w p managed =
        let i = intent_of repo kind_var n w in
        let one =
          for_repo_cascade-precedence repo o.all_repos pr kind_var n u
          ∙ ap (planned repo kind_var n) p in
        let (v, read, held) = resolve_all-Found sys kind_var n intents m i all one managed in
        let (v', read', held') = resolve_vars-FoundVar sys n intents desired i vars one managed in
        ground arith

    in_step :
        (live : Live) (before : Option String) (k : Kind) (n : String) (w : Option CascadeWinner)
        → precedence o.all_repos pr k n ≡ w
        → live_at live k n ≡ settled k (get_text (key_of k n) m) before w
        → InStep desired live k n w
    in_step live before kind_var n none p h = ground arith
    in_step live before kind_secret n none p h = ground arith
    in_step live before kind_dependabot n none p h = ground arith
    in_step live before kind_var n (some w) p h = λ managed. ground (arith, same_text n w p managed)
    in_step live before kind_secret n (some w) p h = λ managed. ground arith
    in_step live before kind_dependabot n (some w) p h = λ managed. ground arith

  -- An audit of a repo that follows a real run of `EnforceRepo` on it which returned and counted no
  -- failure succeeds and reports no drift, provided that the backend is lawful, the run started in a
  -- valid state, one page of each listing shows all of that state and of the one it left, the
  -- configuration has the target, its managed names are spelled as GitHub keeps them (in upper case), and
  -- its per-repo managed blocks are maps.
  pub enforce_repo-audit_repo :
      (verbose show_ignored verbose' : Bool) (s s' : b.State) (out : String)
      → lookup_target sys cfg org repo ≡ ok (o, pr)
      → ((kind : Kind) → NodupKeys (managed_for pr kind))
      → AreSpelled sys b org repo l cfg o pr
      → l.IsValid s
      → l.Fits s
      → enforce_repo sys b cfg org repo (record { dry_run = false; verbose = verbose }) s
        ≡ (ok (record { drift = false; failed = 0 }, out), s')
      → l.Fits s'
      → (text : String) × (audit_repo sys b cfg org repo show_ignored verbose' s'
          ≡ (ok (record { drift = false; failed = 0 }, text), s'))
  enforce_repo-audit_repo verbose show_ignored verbose' s s' out found u names valid fits h fits' =
      let (m, all, settled_all) =
        enforce_repo-Settled verbose s s' out found u names valid fits h in
      let (v, at) = settled_all in
      let (desired, vars) = resolve_vars-total sys intents m all in
      let (drift, text, run, iff) =
        audit_repo-InStep sys b cfg org repo show_ignored verbose' s' s' o pr desired (l.view s')
          found vars (l.reads s' v fits') u (l.unique s' v) in
      let clear : drift ≡ false = iff.1 (λ k n.
        in_step u m desired all vars (l.view s') (live_at (l.view s) k n) k n _ refl (at k n)) in
      (
        text,
        subst
            (λ d.
              audit_repo sys b cfg org repo show_ignored verbose' s'
              ≡ (ok (record { drift = d; failed = 0 }, text), s'))
            clear run,
      )

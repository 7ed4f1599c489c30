-- ===== src/CommandLine/EndToEnd.antt =====
-- The commands on one repo, from the arguments to the exit code.
use ghsecretman.Runner.Convergence.{enforce_repo-audit_repo}
use ghsecretman.Runner.Settled.{AreSpelled}
use mathlib.Core.Path.{subst}
use ghsecretman.Runner.Audit.{audit_repo}
use ghsecretman.Runner.Lawful.{IsLawful}
use ghsecretman.Base.Calls.{lift, call_ok}
use ghsecretman.Github.{Backend}
use ghsecretman.System.{System}
use ghsecretman.Runner.Enforce.{keys_for_enforce, resolve_for_enforce, EnforceOptions, enforce_repo}
use ghsecretman.Plan.Cascade.Precedence.{precedence}
use ghsecretman.Runner.Audit.Drift.{audit_repo-InStep, InStep}
use ghsecretman.Diff.Verdict.{IsLive}
use ghsecretman.Runner.Loaded.{load_bytes-target}
use ghsecretman.Runner.Repo.{fetch_live}
use ghsecretman.Plan.Cascade.{for_repo_cascade}
use ghsecretman.Plan.{managed_for, Kind}
use ghsecretman.Diff.{Live}
use ghsecretman.Base.Maps.{NodupKeys, Map}
use ghsecretman.Runner.Target.{RunResult, resolve_vars, lookup_target}
use ghsecretman.Github.Operations.{token_from_env}
use ghsecretman.Config.Load.{load}
use ghsecretman.Config.{Repo, Org, Config}
use ghsecretman.CommandLine.Commands.{run_enforce_repo, run_enforce, run_audit}
use ghsecretman.Base.{
  is_zero, ◌≤◌, bind_ok, ℕ, zero, suc, String, Bool, true, false, not, Option, some, List, ◌≡◌,
  refl, sym, ap, ◌∙◌, arith, Result, ok, err, ◌↔◌, ◌==◌,
}
use ghsecretman.CommandLine.Frame.{
  Exit, enforce_options, entries_failed, end_repo, code_if, prepare, CommandFlags, World, ready,
}

-- A command line that the head of a command accepts: its flags parse, it names a configuration, an
-- organization and a repo, the configuration loads and there is a token.
pub record IsAccepted (w : World) (name : String) (args : List String) (flags : CommandFlags)
    (cfg : Config) : Type 0 where
  pub parsed : w.parse_command name args ≡ some flags
  pub has_config : (flags.config == "") ≡ false
  pub has_org : (flags.org == "") ≡ false
  pub has_repo : (flags.repo == "") ≡ false
  pub loaded : load w.sys w.yaml flags.config ≡ ok cfg
  pub token : (t : String) × (token_from_env w.sys ≡ ok t)

module _ (w : World) (name : String) (args : List String) (flags : CommandFlags) (cfg : Config)
    (a : IsAccepted w name args flags cfg) where
  prepare-ready : prepare w name args (w.parse_command name args) ≡ ready flags cfg
  prepare-ready = rw (a.parsed) (ground (arith, a.has_config, a.has_org, a.loaded, a.token))

  accepted-NodupKeys :
      (o : Org) (pr : Option Repo)
      → lookup_target w.sys cfg flags.org flags.repo ≡ ok (o, pr)
      → (kind : Kind) → NodupKeys (managed_for pr kind)
  unfolding load
  accepted-NodupKeys o pr found =
      let (bytes, read, decoded) = bind_ok (w.sys.read_file flags.config) _ cfg a.loaded in
      (load_bytes-target w.sys w.yaml bytes flags.config cfg flags.org flags.repo o pr decoded
        found).0

code_if-zero : (d : Bool) → (code_if d ≤ 1) × ((code_if d ≡ 0) ↔ (d ≡ false))
code_if-zero true = ground arith
code_if-zero false = ground arith

-- `ghsecretman audit` on one repo, for a command line that is accepted, a target that the configuration
-- has, values that resolve and reads that succeed, exits with 0 exactly when every name of every kind is
-- in step with the configuration, and with 1 otherwise; provided that no live name is listed twice.
pub run_audit-InStep :
    (w : World) (args : List String) (flags : CommandFlags) (cfg : Config) (s s' : w.backend.State)
    (o : Org) (pr : Option Repo) (desired : Map String) (live : Live)
    → IsAccepted w "audit" args flags cfg
    → lookup_target w.sys cfg flags.org flags.repo ≡ ok (o, pr)
    → resolve_vars w.sys (for_repo_cascade flags.repo o.all_repos pr) ≡ ok desired
    → fetch_live w.backend flags.org flags.repo s ≡ (ok live, s')
    → IsLive live
    → ((run_audit w args s).0.code ≤ 1)
      × (((run_audit w args s).0.code ≡ 0)
          ↔ ((k : Kind) (n : String) → InStep desired live k n (precedence o.all_repos pr k n)))
unfolding run_audit
run_audit-InStep w args flags cfg s s' o pr desired live a found resolved fetched l =
    let (drift, out, run, iff) =
      audit_repo-InStep w.sys w.backend cfg flags.org flags.repo flags.show_ignored flags.verbose s
        s' o pr desired live found resolved fetched
        (accepted-NodupKeys w "audit" args flags cfg a o pr found) l in
    rw (prepare-ready w "audit" args flags cfg a) (
      rw (a.has_repo) (
        rw run (
          (code_if-zero drift).0,
          (λ e. iff.0 ((code_if-zero drift).1.0 e), λ h. (code_if-zero drift).1.1 (iff.1 h)),
        )))

none_failed : (n : ℕ) → code_if (not (is_zero n)) ≡ 0 → n ≡ 0
none_failed zero h = refl
none_failed (suc n) h = absurd (omega arith)

drift_of : Result (RunResult × String) → Bool
drift_of (ok (res, out)) = res.drift
drift_of (err e) = false

-- What a run of `EnforceRepo` that returns says.
enforce_repo_ok :
    (sys : System) (b : Backend) (cfg : Config) (org repo : String) (opts : EnforceOptions)
    (s s' : b.State) (res : RunResult) (out : String)
    → enforce_repo sys b cfg org repo opts s ≡ (ok (res, out), s')
    → (t : Org × Option Repo) × (lookup_target sys cfg org repo ≡ ok t) × (res.drift ≡ false)
unfolding enforce_repo drift_of
enforce_repo_ok sys b cfg org repo opts s s' res out h =
    let (t, s1, e1, h1) = call_ok (lift (lookup_target sys cfg org repo)) _ s s' (res, out) h in
    let is = for_repo_cascade repo t.0.all_repos t.1 in
    let (m, s2, e2, h2) =
      call_ok (lift (resolve_for_enforce sys is opts.dry_run)) _ s1 s' (res, out) h1 in
    let (live, s3, e3, h3) = call_ok (fetch_live b org repo) _ s2 s' (res, out) h2 in
    let (keys, s4, e4, h4) =
      call_ok (keys_for_enforce b org repo is opts.dry_run) _ s3 s' (res, out) h3 in
    (
      t,
      ap (λ (x : Result (Org × Option Repo) × b.State). x.0) e1,
      sym (ap (λ (x : Result (RunResult × String) × b.State). drift_of x.0) h4),
    )

module _ (w : World) where
  run_enforce_eq :
      (args : List String) (flags : CommandFlags) (cfg : Config) (s : w.backend.State)
      → IsAccepted w "enforce" args flags cfg
      → run_enforce w args s
        ≡ end_repo w "enforce" entries_failed
            (enforce_repo w.sys w.backend cfg flags.org flags.repo (enforce_options flags) s)
  unfolding run_enforce run_enforce_repo
  run_enforce_eq args flags cfg s a =
      rw (prepare-ready w "enforce" args flags cfg a) (rw (a.has_repo) refl)

  run_audit_eq :
      (args : List String) (flags : CommandFlags) (cfg : Config) (s : w.backend.State)
      → IsAccepted w "audit" args flags cfg
      → run_audit w args s
        ≡ end_repo w "audit"
            (λ res. res.drift)
            (audit_repo w.sys w.backend cfg flags.org flags.repo flags.show_ignored flags.verbose s)
  unfolding run_audit
  run_audit_eq args flags cfg s a =
      rw (prepare-ready w "audit" args flags cfg a) (rw (a.has_repo) refl)

  -- What the code 0 says of a command that writes.
  abbrev Clean : Result (RunResult × String) × w.backend.State → Type 0
  Clean r = (res : RunResult) × (out : String) × (r ≡ (ok (res, out), r.1)) × (res.failed ≡ 0)

  end_repo-Clean :
      (name : String) (r : Result (RunResult × String) × w.backend.State)
      → (end_repo w name entries_failed r).0.code ≡ 0
      → Clean r × ((end_repo w name entries_failed r).1 ≡ r.1)
  end_repo-Clean name (err e, s) h = absurd (omega arith)
  end_repo-Clean name (ok (res, out), s) h = ((res, out, refl, none_failed res.failed h), refl)

  audit-clean :
      (args : List String) (flags : CommandFlags) (cfg : Config) (org repo text : String)
      (s left : w.backend.State)
      → IsAccepted w "audit" args flags cfg
      → flags.org ≡ org
      → flags.repo ≡ repo
      → s ≡ left
      → audit_repo w.sys w.backend cfg org repo flags.show_ignored flags.verbose left
        ≡ (ok (record { drift = false; failed = 0 }, text), left)
      → ((run_audit w args s).0.code ≡ 0) × ((run_audit w args s).1 ≡ s)
  audit-clean args flags cfg org repo text s left a same_org same_repo at run =
      let audited : audit_repo w.sys w.backend cfg flags.org flags.repo flags.show_ignored
            flags.verbose s
          ≡ (ok (record { drift = false; failed = 0 }, text), s) =
        rw (same_org, same_repo, at) run in
      let done =
        run_audit_eq args flags cfg s a ∙ ap (end_repo w "audit" (λ res. res.drift)) audited in
      (
        ap (λ (x : Exit × w.backend.State). x.0.code) done,
        ap (λ (x : Exit × w.backend.State). x.1) done,
      )

  -- If `ghsecretman enforce` on one repo, without a dry run, exits with 0, then `ghsecretman audit` with
  -- the same configuration and repo exits with 0 in the state that it left, and changes nothing; for
  -- command lines that are accepted, managed names that are spelled as GitHub keeps them (in upper case),
  -- and a lawful backend that starts in a valid state, where one page of each listing shows all of that
  -- state and of the one that enforce left.
  pub run_enforce-run_audit :
      (args args' : List String) (flags flags' : CommandFlags) (cfg : Config) (s : w.backend.State)
      → IsAccepted w "enforce" args flags cfg
      → IsAccepted w "audit" args' flags' cfg
      → flags'.org ≡ flags.org
      → flags'.repo ≡ flags.repo
      → flags.dry_run ≡ false
      → (l : IsLawful w.backend flags.org flags.repo)
      → ((o : Org) (pr : Option Repo)
          → lookup_target w.sys cfg flags.org flags.repo ≡ ok (o, pr)
          → AreSpelled w.sys w.backend flags.org flags.repo l cfg o pr)
      → l.IsValid s
      → l.Fits s
      → (run_enforce w args s).0.code ≡ 0
      → l.Fits (run_enforce w args s).1
      → let s' = (run_enforce w args s).1 in
        ((run_audit w args' s').0.code ≡ 0) × ((run_audit w args' s').1 ≡ s')
  run_enforce-run_audit args args' flags flags' cfg s a a' same_org same_repo real l names valid
        fits none_bad fits' =
      let opts = enforce_options flags in
      let r = enforce_repo w.sys w.backend cfg flags.org flags.repo opts s in
      let eq = run_enforce_eq args flags cfg s a in
      let ((res, out, e, f), moved) =
        end_repo-Clean "enforce" r
          (sym (ap (λ (x : Exit × w.backend.State). x.0.code) eq) ∙ none_bad) in
      let (t, found, steady) =
        enforce_repo_ok w.sys w.backend cfg flags.org flags.repo opts s r.1 res out e in
      let ended : res ≡ record { drift = false; failed = 0 } =
        λ i. record { drift = steady i; failed = f i } in
      let wet : opts ≡ record { dry_run = false; verbose = flags.verbose } =
        λ i. record { dry_run = real i; verbose = flags.verbose } in
      let ran =
        sym (
          ap (λ (o : EnforceOptions). enforce_repo w.sys w.backend cfg flags.org flags.repo o s)
            wet)
        ∙ e
        ∙ ap (λ (x : RunResult). (ok (x, out), r.1)) ended in
      let at : (run_enforce w args s).1 ≡ r.1 =
        ap (λ (x : Exit × w.backend.State). x.1) eq ∙ moved in
      let (text, run) =
        enforce_repo-audit_repo w.sys w.backend flags.org flags.repo l cfg t.0 t.1 flags.verbose
          flags'.show_ignored flags'.verbose s r.1 out found
          (accepted-NodupKeys w "enforce" args flags cfg a t.0 t.1 found) (names t.0 t.1 found)
          valid fits ran (subst l.Fits at fits') in
      audit-clean args' flags' cfg flags.org flags.repo text (run_enforce w args s).1 r.1 a'
        same_org same_repo at run

-- ===== src/CommandLine/Codes.antt =====
-- The exit codes.
use ghsecretman.CommandLine.Refusals.{
  refuses_top, refuses, refuses_flags, is_error, refuses_example,
}
use ghsecretman.Runner.Apply.{apply_repo}
use ghsecretman.Runner.Enforce.{enforce_repo}
use ghsecretman.Runner.Audit.{audit_repo}
use ghsecretman.Runner.Owner.{audit, enforce, apply}
use ghsecretman.Github.Operations.{token_from_env}
use ghsecretman.Config.Load.{load}
use ghsecretman.Config.{Config}
use ghsecretman.Runner.Pool.{OrgResult}
use ghsecretman.CommandLine.Dispatch.{version_text, on_files, on_backend, top, run}
use ghsecretman.Runner.Target.{RunResult}
use ghsecretman.CommandLine.Commands.{
  run_enforce_org, run_example, run_enforce_repo, example_with, run_enforce, run_apply, end_example,
  run_audit, example_file,
}
use ghsecretman.Base.{
  ◌≤◌, String, Bool, true, false, not, Option, none, some, List, [], ◌∷◌, ◌≡◌, refl, ap, arith,
  Result, ok, err, inl, inr, ◌&&◌, ◌||◌, ◌==◌, if◌then◌else◌, Bool-cases,
}
use ghsecretman.CommandLine.Frame.{
  usage, exit, enforce_options, entries_failed, owner_failed, owner_drifted, go_on, ready,
  load_config, connect, end_owner, end_repo, stop, prepare, code_if, ExampleFlags, CommandFlags,
  Exit, Prepared, World,
}

module _ (w : World) where
  -- A command that is refused leaves the code 2 and nothing changed, and any other the code 0 or 1.
  unfoldable pub IsCode : {S : Type 0} → Bool → S → Exit × S → Type 0
  IsCode true s (e, s') = (e.code ≡ 2) × (s' ≡ s)
  IsCode false s (e, s') = e.code ≤ 1

  code_if-small : (c : Bool) → code_if c ≤ 1
  code_if-small true = omega arith
  code_if-small false = omega arith

  end_repo-IsCode :
      (name : String) (bad : RunResult → Bool) (s : w.backend.State)
      (r : Result (RunResult × String) × w.backend.State)
      → IsCode false s (end_repo w name bad r)
  unfolding IsCode
  end_repo-IsCode name bad s (err e, s') = omega arith
  end_repo-IsCode name bad s (ok (res, out), s') = code_if-small (bad res)

  end_owner-IsCode :
      (name : String) (bad : OrgResult → Bool) (s : w.backend.State)
      (r : (Result OrgResult × String) × w.backend.State)
      → IsCode false s (end_owner w name bad r)
  unfolding IsCode
  end_owner-IsCode name bad s ((err e, out), s') = omega arith
  end_owner-IsCode name bad s ((ok res, out), s') = code_if-small (bad res)

  -- The head of a command stops with the code 2, and stops exactly where the flags are refused.
  abbrev IsHead : Bool → Prepared → Type 0
  IsHead refused (stop e) = (refused ≡ true) × (e.code ≡ 2)
  IsHead refused (ready flags cfg) = refused ≡ false

  connect-IsHead :
      (flags : CommandFlags) (cfg : Config) (r : Result String)
      → IsHead (is_error r) (connect w flags cfg r)
  connect-IsHead flags cfg (err e) = (refl, refl)
  connect-IsHead flags cfg (ok token) = refl

  load_config-IsHead :
      (flags : CommandFlags) (r : Result Config)
      → IsHead (is_error r || is_error (token_from_env w.sys)) (load_config w flags r)
  load_config-IsHead flags (err e) = (refl, refl)
  load_config-IsHead flags (ok cfg) = connect-IsHead flags cfg (token_from_env w.sys)

  prepare-IsHead :
      (name : String) (args : List String) (f : Option CommandFlags)
      → IsHead (refuses_flags w f) (prepare w name args f)
  prepare-IsHead name args none = (refl, refl)
  prepare-IsHead name args (some flags) =
      elim (Bool-cases (flags.config == "" || flags.org == "")) [
        | inl missing ↦ rw missing (refl, refl)
        | inr given ↦ rw given (load_config-IsHead flags (load w.sys w.yaml flags.config))
      ]

  go_on-IsCode :
      (body : CommandFlags → Config → w.backend.State → Exit × w.backend.State) (refused : Bool)
      (p : Prepared) (s : w.backend.State)
      → IsHead refused p
      → ((flags : CommandFlags) (cfg : Config) → IsCode false s (body flags cfg s))
      → IsCode refused s (go_on w body p s)
  unfolding IsCode
  go_on-IsCode body true (stop e) s (h, two) k = (two, refl)
  go_on-IsCode body false (stop e) s (h, two) k = absurd (ground arith)
  go_on-IsCode body true (ready flags cfg) s h k = absurd (ground arith)
  go_on-IsCode body false (ready flags cfg) s h k = k flags cfg

  either-IsCode :
      {S : Type 0} (c p q : Bool) (s : S) (x y : Exit × S)
      → IsCode p s x
      → IsCode q s y
      → IsCode (if c then p else q) s (if c then x else y)
  either-IsCode true p q s x y h k = h
  either-IsCode false p q s x y h k = k

  neither-IsCode :
      {S : Type 0} (c : Bool) (s : S) (x y : Exit × S)
      → IsCode false s x
      → IsCode false s y
      → IsCode false s (if c then x else y)
  neither-IsCode true s x y h k = h
  neither-IsCode false s x y h k = k

  run_audit-IsCode :
      (args : List String) (s : w.backend.State)
      → IsCode (refuses_flags w (w.parse_command "audit" args)) s (run_audit w args s)
  unfolding run_audit
  run_audit-IsCode args s =
      go_on-IsCode _ _ _ s (prepare-IsHead "audit" args (w.parse_command "audit" args))
        (λ flags cfg.
          neither-IsCode (flags.repo == "") s _ _
            (end_owner-IsCode "audit" owner_drifted s (
              audit w.sys w.backend flags.org w.run_org cfg flags.show_ignored flags.concurrency
                flags.verbose s))
            (end_repo-IsCode "audit" (λ res. res.drift) s
              (audit_repo w.sys w.backend cfg flags.org flags.repo flags.show_ignored flags.verbose
                s)))

  run_apply-IsCode :
      (args : List String) (s : w.backend.State)
      → IsCode (refuses_flags w (w.parse_command "apply" args)) s (run_apply w args s)
  unfolding run_apply
  run_apply-IsCode args s =
      go_on-IsCode _ _ _ s (prepare-IsHead "apply" args (w.parse_command "apply" args))
        (λ flags cfg.
          neither-IsCode (flags.repo == "") s _ _
            (end_owner-IsCode "apply" owner_failed s
              (apply w.sys w.backend flags.org w.run_org cfg flags.concurrency flags.verbose s))
            (end_repo-IsCode "apply" entries_failed s
              (apply_repo w.sys w.backend cfg flags.org flags.repo flags.verbose s)))

  run_enforce-IsCode :
      (args : List String) (s : w.backend.State)
      → IsCode (refuses_flags w (w.parse_command "enforce" args)) s (run_enforce w args s)
  unfolding run_enforce run_enforce_repo run_enforce_org
  run_enforce-IsCode args s =
      go_on-IsCode _ _ _ s (prepare-IsHead "enforce" args (w.parse_command "enforce" args))
        (λ flags cfg.
          neither-IsCode (flags.repo == "") s _ _
            (end_owner-IsCode "enforce" owner_failed s (
              enforce w.sys w.backend flags.org w.run_org cfg (enforce_options flags)
                flags.concurrency s))
            (end_repo-IsCode "enforce" entries_failed s
              (enforce_repo w.sys w.backend cfg flags.org flags.repo (enforce_options flags) s)))

  end_example-small : (out : String) (r : Result (Unit {0})) → (end_example w out r).code ≤ 1
  end_example-small out (ok _) = omega arith
  end_example-small out (err e) = omega arith

  example_file-IsCode :
      (output : String) (there : Bool) (files : w.Files)
      → IsCode there files (example_file w output there files)
  unfolding IsCode
  example_file-IsCode output true files = (refl, refl)
  example_file-IsCode output false files =
      end_example-small "" (w.write_file output w.example files).0

  example_with-IsCode :
      (args : List String) (f : Option ExampleFlags) (files : w.Files)
      → IsCode (refuses_example w f files) files (example_with w args f files)
  unfolding IsCode
  example_with-IsCode args none files = (refl, refl)
  example_with-IsCode args (some flags) files = elim (Bool-cases (flags.output == "")) [
    | inl stdout ↦ rw stdout (end_example-small w.example (w.write_stdout w.example))
    | inr named ↦
        rw named
          (example_file-IsCode flags.output (not flags.force && w.exists flags.output files) files)
  ]

  top-IsCode :
      {S : Type 0} (program version : String) (args : List String) (f : Option Bool) (s : S)
      → IsCode (refuses_top w f) s (top w program version args f, s)
  unfolding IsCode
  top-IsCode program version args none s = (refl, refl)
  top-IsCode program version args (some true) s = omega arith
  top-IsCode program version args (some false) s = (refl, refl)

  on_backend-IsCode :
      (refused : Bool) (files : w.Files) (s : w.backend.State) (r : Exit × w.backend.State)
      → IsCode refused s r
      → IsCode refused (files, s) (on_backend w files r)
  unfolding IsCode
  on_backend-IsCode true files s r (two, same) =
      (two, ap (λ (z : w.backend.State). (files, z)) same)
  on_backend-IsCode false files s r small = small

  on_files-IsCode :
      (refused : Bool) (files : w.Files) (s : w.backend.State) (r : Exit × w.Files)
      → IsCode refused files r
      → IsCode refused (files, s) (on_files w s r)
  unfolding IsCode
  on_files-IsCode true files s r (two, same) = (two, ap (λ (z : w.Files). (z, s)) same)
  on_files-IsCode false files s r small = small

  fine-IsCode : {S : Type 0} (s : S) (out : String) → IsCode false s (exit 0 out "", s)
  unfolding IsCode
  fine-IsCode s out = omega arith

  -- `run` exits with the code 2 where it refuses its arguments, and has then touched neither GitHub nor
  -- the files; otherwise it exits with 0 or 1. It refuses them for flags that do not parse; for a missing
  -- --config or --org, a configuration that does not load, or a missing token, of audit, apply and
  -- enforce; for a file that is already there and not to be overwritten, of example; and for no command or
  -- an unknown one, unless the flags ask for the version.
  pub run-IsCode :
      (program version : String) (args : List String) (places : w.Files × w.backend.State)
      → IsCode (refuses w program args places.0) places (run w program args version places)
  unfolding run run_example
  run-IsCode program version [] places =
      top-IsCode program version [] (w.parse_top program []) places
  run-IsCode program version (command ∷ args) (files, s) =
      either-IsCode (command == "audit") _ _ (files, s) _ _
        (on_backend-IsCode _ files s (run_audit w args s) (run_audit-IsCode args s))
        (either-IsCode (command == "apply") _ _ (files, s) _ _
          (on_backend-IsCode _ files s (run_apply w args s) (run_apply-IsCode args s))
          (either-IsCode (command == "enforce") _ _ (files, s) _ _
            (on_backend-IsCode _ files s (run_enforce w args s) (run_enforce-IsCode args s))
            (either-IsCode (command == "example") _ _ (files, s) _ _
              (on_files-IsCode _ files s (example_with w args (w.parse_example args) files)
                (example_with-IsCode args (w.parse_example args) files))
              (either-IsCode (command == "version") _ _ (files, s) _ _
                (fine-IsCode (files, s) (version_text w version))
                (either-IsCode (command == "-h" || command == "--help" || command == "help") _ _
                  (files, s) _ _ (fine-IsCode (files, s) usage)
                  (top-IsCode program version (command ∷ args)
                    (w.parse_top program (command ∷ args)) (files, s)))))))

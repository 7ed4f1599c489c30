-- ===== src/CommandLine/Commands.antt =====
-- `runAudit`, `runApply`, `runEnforce` and `runExample`.
use ghsecretman.CommandLine.Frame.{
  enforce_options, entries_failed, prepare, owner_failed, owner_drifted, go_on, end_owner, end_repo,
  exit, Exit, ExampleFlags, CommandFlags, World,
}
use ghsecretman.Runner.Apply.{apply_repo}
use ghsecretman.Runner.Audit.{audit_repo}
use ghsecretman.Runner.Owner.{enforce, audit, apply}
use ghsecretman.Runner.Enforce.{enforce_repo}
use ghsecretman.Config.{Config}
use ghsecretman.Github.Operations.{token_from_env}
use ghsecretman.System.{error_text}
use ghsecretman.Base.{
  String, ◌<>◌, Bool, true, false, not, Option, none, some, List, Result, ok, err, ◌&&◌, ◌==◌,
  if◌then◌else◌,
}
use ghsecretman.Config.Load.{load}

module _ (w : World) where
  unfoldable pub run_enforce_repo : CommandFlags → Config → w.backend.State → Exit × w.backend.State
  run_enforce_repo flags cfg s =
      end_repo w "enforce" entries_failed
        (enforce_repo w.sys w.backend cfg flags.org flags.repo (enforce_options flags) s)

  unfoldable pub run_enforce_org : CommandFlags → Config → w.backend.State → Exit × w.backend.State
  run_enforce_org flags cfg s =
      end_owner w "enforce" owner_failed (
        enforce w.sys w.backend flags.org w.run_org cfg (enforce_options flags) flags.concurrency s)

  unfoldable pub run_enforce : List String → w.backend.State → Exit × w.backend.State
  unfolding load token_from_env run_enforce_repo run_enforce_org
  run_enforce args =
      go_on w
        (λ flags cfg s.
          if flags.repo == "" then run_enforce_org flags cfg s else run_enforce_repo flags cfg s)
        (prepare w "enforce" args (w.parse_command "enforce" args))

  unfoldable pub run_audit : List String → w.backend.State → Exit × w.backend.State
  unfolding load token_from_env
  run_audit args =
      go_on w
        (λ flags cfg s.
          if flags.repo == ""
          then end_owner w "audit" owner_drifted (
              audit w.sys w.backend flags.org w.run_org cfg flags.show_ignored flags.concurrency
                flags.verbose s)
          else end_repo w "audit" (λ res. res.drift)
              (audit_repo w.sys w.backend cfg flags.org flags.repo flags.show_ignored flags.verbose
                s))
        (prepare w "audit" args (w.parse_command "audit" args))

  unfoldable pub run_apply : List String → w.backend.State → Exit × w.backend.State
  unfolding load token_from_env
  run_apply args =
      go_on w
        (λ flags cfg s.
          if flags.repo == ""
          then end_owner w "apply" owner_failed
              (apply w.sys w.backend flags.org w.run_org cfg flags.concurrency flags.verbose s)
          else end_repo w "apply" entries_failed
              (apply_repo w.sys w.backend cfg flags.org flags.repo flags.verbose s))
        (prepare w "apply" args (w.parse_command "apply" args))

  abbrev pub end_example : String → Result (Unit {0}) → Exit
  end_example out (ok _) = exit 0 out ""
  end_example out (err e) = exit 1 "" ("example: " <> (error_text w.sys e <> "\n"))

  abbrev pub example_file : String → Bool → w.Files → Exit × w.Files
  example_file output true files =
      (exit 2 "" ("example: " <> (output <> " already exists; pass --force to overwrite\n")), files)
  example_file output false files =
      let (r, files') = w.write_file output w.example files in (end_example "" r, files')

  abbrev pub example_with : List String → Option ExampleFlags → w.Files → Exit × w.Files
  example_with args none files = (exit 2 "" (w.flag_error "example" args), files)
  example_with args (some flags) files =
      if flags.output == ""
      then (end_example w.example (w.write_stdout w.example), files)
      else example_file flags.output (not flags.force && w.exists flags.output files) files

  unfoldable pub run_example : List String → w.Files → Exit × w.Files
  run_example args files = example_with args (w.parse_example args) files

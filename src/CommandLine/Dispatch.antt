-- ===== src/CommandLine/Dispatch.antt =====
-- `run`, which chooses the command.
use ghsecretman.CommandLine.Commands.{run_example, run_enforce, run_apply, run_audit}
use ghsecretman.CommandLine.Frame.{usage, exit, Exit, World}
use ghsecretman.Base.{
  String, ◌<>◌, Bool, true, false, Option, none, some, List, [], ◌∷◌, ◌||◌, ◌==◌, if◌then◌else◌,
}

module _ (w : World) where
  abbrev pub Places : Type 0
  Places = w.Files × w.backend.State

  abbrev pub on_backend : w.Files → Exit × w.backend.State → Exit × Places
  on_backend files (e, s) = (e, (files, s))

  abbrev pub on_files : w.backend.State → Exit × w.Files → Exit × Places
  on_files s (e, files) = (e, (files, s))

  -- The top-level flags, where no command is named.
  abbrev pub top : String → String → List String → Option Bool → Exit
  top program version args none = exit 2 "" (w.flag_error program args)
  top program version args (some true) = exit 0 ("ghsecretman " <> (version <> "\n")) ""
  top program version args (some false) = exit 2 "" usage

  abbrev pub version_text : String → String
  version_text version =
      "ghsecretman " <> (version <> ("\ncommit " <> (w.commit <> ("\nbuilt " <> (w.date <> "\n")))))

  abbrev pub dispatch : String → String → String → List String → Places → Exit × Places
  dispatch program version command args (files, s) =
      if command == "audit"
      then on_backend files (run_audit w args s)
      else if command == "apply"
      then on_backend files (run_apply w args s)
      else if command == "enforce"
      then on_backend files (run_enforce w args s)
      else if command == "example"
      then on_files s (run_example w args files)
      else if command == "version"
      then (exit 0 (version_text version) "", (files, s))
      else if command == "-h" || command == "--help" || command == "help"
      then (exit 0 usage "", (files, s))
      else (top program version (command ∷ args) (w.parse_top program (command ∷ args)), (files, s))

  -- The arguments start with the program's name, which Go always gives.
  unfoldable pub run : String → List String → String → Places → Exit × Places
  unfolding run_audit run_apply run_enforce run_example
  run program [] version places = (top program version [] (w.parse_top program []), places)
  run program (command ∷ args) version places = dispatch program version command args places

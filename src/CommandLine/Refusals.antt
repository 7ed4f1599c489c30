-- ===== src/CommandLine/Refusals.antt =====
-- The command lines that the program refuses.
-- Whether a result is an error.
use ghsecretman.Github.Operations.{token_from_env}
use ghsecretman.Config.Load.{load}
use ghsecretman.CommandLine.Frame.{CommandFlags, ExampleFlags, World}
use ghsecretman.Base.{
  String, Bool, true, false, not, Option, none, some, List, [], ◌∷◌, Result, ok, err, ◌&&◌, ◌||◌,
  ◌==◌, if◌then◌else◌,
}

abbrev pub is_error : {A : Type 0} → Result A → Bool
is_error (ok a) = false
is_error (err e) = true

module _ (w : World) where
  -- What a command line is refused for: by audit, apply and enforce, flags that do not parse, a missing
  -- --config or --org, a configuration that does not load, or a missing token.
  abbrev pub refuses_flags : Option CommandFlags → Bool
  refuses_flags none = true
  refuses_flags (some flags) =
      (flags.config == "" || flags.org == "")
      || (is_error (load w.sys w.yaml flags.config) || is_error (token_from_env w.sys))

  -- By example, flags that do not parse, or a file that is there and not to be overwritten.
  abbrev pub refuses_example : Option ExampleFlags → w.Files → Bool
  refuses_example none files = true
  refuses_example (some flags) files =
      not (flags.output == "") && (not flags.force && w.exists flags.output files)

  -- Without a command that is known, flags that do not parse, or that do not ask for the version.
  abbrev pub refuses_top : Option Bool → Bool
  refuses_top none = true
  refuses_top (some version) = not version

  abbrev pub refuses : String → List String → w.Files → Bool
  refuses program [] files = refuses_top (w.parse_top program [])
  refuses program (command ∷ args) files =
      if command == "audit"
      then refuses_flags (w.parse_command "audit" args)
      else if command == "apply"
      then refuses_flags (w.parse_command "apply" args)
      else if command == "enforce"
      then refuses_flags (w.parse_command "enforce" args)
      else if command == "example"
      then refuses_example (w.parse_example args) files
      else if command == "version"
      then false
      else if command == "-h" || command == "--help" || command == "help"
      then false
      else refuses_top (w.parse_top program (command ∷ args))

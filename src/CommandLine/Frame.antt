-- ===== src/CommandLine/Frame.antt =====
-- What the commands of cmd/ghsecretman/main.go share: their flags, their surroundings, the steps before
-- they call the runner, and their ends.
use ghsecretman.Github.{Backend}
use ghsecretman.Config.Yaml.{Yaml}
use ghsecretman.Runner.Owner.{Scheduler}
use ghsecretman.Runner.Enforce.{EnforceOptions}
use ghsecretman.Config.{Config}
use ghsecretman.Github.Operations.{token_from_env}
use ghsecretman.System.{System, error_text}
use ghsecretman.Runner.Pool.{OrgResult}
use ghsecretman.Runner.Target.{RunResult}
use ghsecretman.Base.{
  Error, is_zero, ℤ, ℕ, String, ◌<>◌, Bool, true, false, not, Option, none, some, List, Result, ok,
  err, ◌||◌, ◌==◌, if◌then◌else◌,
}
use ghsecretman.Config.Load.{load}

-- What a command leaves: its exit code, and what it wrote to stdout and to stderr.
pub record Exit : Type 0 where
  pub code : ℕ
  pub out : String
  pub errors : String

abbrev pub exit : ℕ → String → String → Exit
exit code out errors = record { code = code; out = out; errors = errors }

-- The flags of audit, apply and enforce, each of which reads those that it has.
pub record CommandFlags : Type 0 where
  pub config : String
  pub org : String
  pub repo : String
  pub show_ignored : Bool
  pub dry_run : Bool
  pub concurrency : ℤ
  pub verbose : Bool

pub record ExampleFlags : Type 0 where
  pub output : String
  pub force : Bool

-- What the program takes from outside: the packages of Go and of YAML, the build's version, the example
-- that is embedded, the backend that a token opens, and Go's scheduler. Parsing the arguments by a flag
-- set returns none where the package flag reports an error, of which it writes the text.
pub record World : Type 1 where
  pub sys : System
  pub yaml : Yaml
  pub backend : Backend
  pub run_org : Scheduler backend.State
  pub Files : Type 0
  -- `os.Stat` without an error, `os.WriteFile` and `io.WriteString` to stdout.
  pub exists : String → Files → Bool
  pub write_file : String → String → Files → Result (Unit {0}) × Files
  pub write_stdout : String → Result (Unit {0})
  pub parse_command : String → List String → Option CommandFlags
  pub parse_example : List String → Option ExampleFlags
  pub parse_top : String → List String → Option Bool
  pub flag_error : String → List String → String
  pub example : String
  pub commit : String
  pub date : String

abbrev pub usage : String
usage =
    "ghsecretman: manage GitHub Actions secrets, Actions variables, and\n             Dependabot secrets across an organization from a YAML file.\n\nusage:\n  ghsecretman <command> [flags]\n\ncommands:\n  audit    Read-only diff between YAML config and live state.\n  apply    Write managed values; never delete.\n  enforce  Apply, then delete unlisted values. Supports --dry-run.\n  example  Print an annotated example YAML config (or write it with -o).\n  version  Print version, commit, and build date.\n\nauthentication:\n  Reads GITHUB_TOKEN (preferred) or GH_TOKEN from the environment.\n\noutput:\n  audit/apply/enforce report only changes by default. Pass -v/--verbose\n  to also see per-repo headers and unchanged ('match') entries.\n\nRun 'ghsecretman <command> -h' for command-specific flags.\nSee 'ghsecretman example' for the full schema with annotations.\n"

-- The head of audit, apply and enforce: the code with which it stops, or the flags and the
-- configuration to go on with.
pub data Prepared : Type 0 where
  stop : Exit → Prepared
  ready : CommandFlags → Config → Prepared

-- A command on a repo or an owner that ends in an error.
abbrev pub failure : System → String → String → Error → Exit
failure sys name out e = exit 1 out (name <> (": " <> (error_text sys e <> "\n")))

abbrev pub code_if : Bool → ℕ
code_if true = 1
code_if false = 0

-- When the code of a command that ran is 1.
abbrev pub entries_failed : RunResult → Bool
entries_failed res = not (is_zero res.failed)

abbrev pub owner_failed : OrgResult → Bool
owner_failed res = not (is_zero res.failed_entries) || not (is_zero res.failed_repos)

abbrev pub owner_drifted : OrgResult → Bool
owner_drifted res = res.drift || not (is_zero res.failed_repos)

abbrev pub enforce_options : CommandFlags → EnforceOptions
enforce_options flags = record { dry_run = flags.dry_run; verbose = flags.verbose }

module _ (w : World) where
  abbrev pub connect : CommandFlags → Config → Result String → Prepared
  connect flags cfg (err e) = stop (exit 2 "" ("github: " <> (error_text w.sys e <> "\n")))
  connect flags cfg (ok token) = ready flags cfg

  abbrev pub load_config : CommandFlags → Result Config → Prepared
  load_config flags (err e) = stop (exit 2 "" ("load config: " <> (error_text w.sys e <> "\n")))
  load_config flags (ok cfg) = connect flags cfg (token_from_env w.sys)

  abbrev pub prepare : String → List String → Option CommandFlags → Prepared
  prepare name args none = stop (exit 2 "" (w.flag_error name args))
  prepare name args (some flags) =
      if flags.config == "" || flags.org == ""
      then stop (exit 2 "" (name <> ": --config and --org are required\n"))
      else load_config flags (load w.sys w.yaml flags.config)

  abbrev pub go_on :
      (CommandFlags → Config → w.backend.State → Exit × w.backend.State)
      → Prepared
      → w.backend.State
      → Exit × w.backend.State
  go_on body (stop e) s = (e, s)
  go_on body (ready flags cfg) s = body flags cfg s

  -- The ends of a command on one repo and of one on an owner: `bad` says when the code is 1.
  abbrev pub end_repo :
      String
      → (RunResult → Bool)
      → Result (RunResult × String) × w.backend.State
      → Exit × w.backend.State
  end_repo name bad (err e, s) = (failure w.sys name "" e, s)
  end_repo name bad (ok (res, out), s) = (exit (code_if (bad res)) out "", s)

  abbrev pub end_owner :
      String
      → (OrgResult → Bool)
      → (Result OrgResult × String) × w.backend.State
      → Exit × w.backend.State
  end_owner name bad ((err e, out), s) = (failure w.sys name out e, s)
  end_owner name bad ((ok res, out), s) = (exit (code_if (bad res)) out "", s)

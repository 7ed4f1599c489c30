-- ===== src/Tests/CommandLines.antt =====
-- The program with a document, a backend in memory and a fixed schedule, and the theorems about its commands.
use ghsecretman.Runner.Settled.{AreSpelled}
use ghsecretman.CommandLine.Refusals.{refuses}
use ghsecretman.Github.Client.{variable_map}
use ghsecretman.CommandLine.Codes.{run-IsCode, IsCode}
use ghsecretman.Tests.Sets.{view}
use ghsecretman.Tests.Paged.{AllShouted-of, shouted-of, lawful, IsOnePage, paged}
use mathlib.Core.Path.{subst}
use ghsecretman.Runner.Lawful.{live_at}
use ghsecretman.Config.{Repo, Org}
use ghsecretman.Plan.Cascade.Precedence.{precedence}
use ghsecretman.Runner.Audit.Drift.{InStep}
use ghsecretman.Tests.Schedules.{in_order}
use ghsecretman.Plan.{kind_dependabot, kind_secret, kind_var, Kind}
use ghsecretman.Diff.Verdict.{IsLive}
use ghsecretman.Plan.Cascade.{CascadeWinner, for_repo_cascade}
use ghsecretman.CommandLine.Dispatch.{run}
use ghsecretman.Tests.Loads.{only_site, site, loaded, document}
use ghsecretman.CommandLine.EndToEnd.{run_audit-InStep, IsAccepted, run_enforce-run_audit}
use ghsecretman.Tests.Memory.{system, Memory}
use ghsecretman.Runner.Repo.{fetch_live}
use ghsecretman.Base.Maps.{Map}
use ghsecretman.Github.Operations.{token_from_env}
use ghsecretman.CommandLine.Frame.{World, CommandFlags}
use ghsecretman.Config.Load.{load_bytes, load}
use ghsecretman.System.{System}
use ghsecretman.Runner.Target.{lookup_target, resolve_vars}
use ghsecretman.CommandLine.Commands.{run_audit, run_enforce}
use ghsecretman.Base.{
  is_one, ok_injective, ◌≤◌, pos, text_dec, String, false, none, some, List, [], ◌∷◌, ◌≡◌, refl, ok,
  ◌↔◌, ◌==◌, if◌then◌else◌, contains, ℕ, zero, suc, ◌+◌, ◌<>◌, Bool, true, not, Option, ◌++◌, ◌≢◌,
  sym, ap, ◌∙◌, arith, Result, err, inl, inr, ◌⊎◌, ◌&&◌, ◌||◌, Bool-cases, Option-cases,
  Result-cases,
}

abbrev sys : System
sys = record system {
  read_file = λ path. ok "";
  lookup_env = λ name. if name == "GITHUB_TOKEN" then some "t" else none;
}

abbrev flags : CommandFlags
flags = record {
  config = "c.yml";
  org = "acme";
  repo = "site";
  show_ignored = false;
  dry_run = false;
  concurrency = pos 0;
  verbose = false;
}

abbrev world : World
world = record {
  sys = sys;
  yaml = document;
  backend = paged;
  run_org = in_order sys Memory;
  Files = List String;
  exists = λ path files. contains files path;
  write_file = λ path text files. (ok tt, path ∷ files);
  write_stdout = λ text. ok tt;
  parse_command = λ name args. some flags;
  parse_example = λ args. some (record { output = "example.yml"; force = false });
  parse_top = λ program args. some false;
  flag_error = λ program args. "";
  example = "";
  commit = "";
  date = "";
}

-- A variable of another value, one that no block lists, and an ignored secret.
abbrev before : Memory
before = record {
  vars = ("REGION", "eu") ∷ ("STRAY", "x") ∷ [];
  secrets = "TOKEN" ∷ [];
  dependabot = [];
}

abbrev after : Memory
after = record { vars = ("REGION", "us") ∷ []; secrets = "TOKEN" ∷ []; dependabot = [] }

before-IsLive : IsLive (view before)
unfolding text_dec
before-IsLive = record { vars = (refl, (refl, tt)); secrets = (refl, tt); dependabot = tt }

file_loaded : load sys document "c.yml" ≡ ok loaded
unfolding load load_bytes text_dec ghsecretman.Config.Orgs.decode_org
    ghsecretman.Config.Repos.decode_repo ghsecretman.Config.Repos.decode_managed
    ghsecretman.Config.Entries.decode_entries ghsecretman.Config.Entries.decode_entry
    ghsecretman.Config.Repos.decode_ignored ghsecretman.Config.Repos.decode_string_list
    ghsecretman.Config.Repos.check_managed_ignored_conflict ghsecretman.Config.Orgs.decode_org_scope
    ghsecretman.Config.Orgs.decode_org_managed ghsecretman.Config.Orgs.decode_org_entries
    ghsecretman.Config.Orgs.decode_org_entry
    ghsecretman.Config.Orgs.check_org_managed_ignored_conflict
    ghsecretman.Config.Entries.validate_entry_sources
    ghsecretman.Config.Orgs.validate_org_visibility
file_loaded = refl

token_found : token_from_env sys ≡ ok "t"
unfolding token_from_env text_dec
token_found = refl

accepted : (name : String) (args : List String) → IsAccepted world name args flags loaded
unfolding text_dec
accepted name args = record {
  parsed = refl;
  has_config = refl;
  has_org = refl;
  has_repo = refl;
  loaded = file_loaded;
  token = ("t", token_found);
}

enforced :
    ((run_enforce world ("--config" ∷ []) before).0.code ≡ 0)
    × IsOnePage (run_enforce world ("--config" ∷ []) before).1
unfolding run_enforce text_dec load ghsecretman.CommandLine.Commands.run_enforce_repo load_bytes
    ghsecretman.Config.Orgs.decode_org ghsecretman.Config.Repos.decode_repo
    ghsecretman.Config.Repos.decode_managed ghsecretman.Config.Entries.decode_entries
    ghsecretman.Config.Entries.decode_entry ghsecretman.Config.Repos.decode_ignored
    ghsecretman.Config.Repos.decode_string_list
    ghsecretman.Config.Repos.check_managed_ignored_conflict ghsecretman.Config.Orgs.decode_org_scope
    ghsecretman.Config.Orgs.decode_org_managed ghsecretman.Config.Orgs.decode_org_entries
    ghsecretman.Config.Orgs.decode_org_entry
    ghsecretman.Config.Orgs.check_org_managed_ignored_conflict
    ghsecretman.Config.Entries.validate_entry_sources
    ghsecretman.Config.Orgs.validate_org_visibility ghsecretman.Runner.Enforce.enforce_repo
    lookup_target ghsecretman.Runner.Target.resolve_all for_repo_cascade
    ghsecretman.Plan.Cascade.managed_rows ghsecretman.Base.Sort.sort_strings
    ghsecretman.Plan.Cascade.names_of ghsecretman.Plan.Cascade.shared_ignored
    ghsecretman.Plan.Cascade.shared_managed ghsecretman.Plan.Cascade.own_ignored
    ghsecretman.Plan.Cascade.own_managed ghsecretman.Resolve.resolve
    ghsecretman.Plan.Cascade.ignored_rows fetch_live ghsecretman.Runner.Repo.fetch_keys
    ghsecretman.Runner.Phases.run_apply_phase ghsecretman.Runner.Phases.write_body
    ghsecretman.Runner.Phases.run_delete_phase ghsecretman.Runner.Target.desired_vars_from_resolved
    ghsecretman.Diff.compute ghsecretman.Plan.Cascade.effective_ignored
    ghsecretman.Runner.Repo.apply_one ghsecretman.Runner.Repo.delete_one token_from_env variable_map
enforced = (refl, (refl, refl, refl))

site_there : lookup_target sys loaded "acme" "site" ≡ ok (only_site, some site)
unfolding lookup_target text_dec
site_there = refl

before-IsOnePage : IsOnePage before
unfolding variable_map text_dec
before-IsOnePage = (refl, refl, refl)

absent_token : (k : Kind) → live_at (view before) k "token" ≡ none
unfolding text_dec
absent_token kind_var = refl
absent_token kind_secret = refl
absent_token kind_dependabot = refl

unplanned_token : (k : Kind) → precedence none (some site) k "token" ≡ none
unfolding text_dec
unplanned_token kind_var = refl
unplanned_token kind_secret = refl
unplanned_token kind_dependabot = refl

site_names : AreSpelled sys paged "acme" "site" lawful loaded only_site (some site)
site_names k n w p managed = shouted-of n (λ same.
    let h : Path (Option CascadeWinner) none (some w) =
      sym (unplanned_token k) ∙ ap (precedence none (some site) k) (sym same) ∙ p in
    absurd (ground arith))

names_found :
    (o : Org) (pr : Option Repo)
    → lookup_target sys loaded "acme" "site" ≡ ok (o, pr)
    → AreSpelled sys paged "acme" "site" lawful loaded o pr
names_found o pr found =
    subst (λ (t : Org × Option Repo). AreSpelled sys paged "acme" "site" lawful loaded t.0 t.1)
      (ok_injective _ _ (sym site_there ∙ found)) site_names

run_enforce-run_audit_example :
    let s' = (run_enforce world ("--config" ∷ []) before).1 in
    ((run_audit world ("--org" ∷ []) s').0.code ≡ 0) × ((run_audit world ("--org" ∷ []) s').1 ≡ s')
run_enforce-run_audit_example =
    run_enforce-run_audit world ("--config" ∷ []) ("--org" ∷ []) flags flags loaded before
      (accepted "enforce" ("--config" ∷ [])) (accepted "audit" ("--org" ∷ [])) refl refl refl lawful
      names_found (before-IsLive, AllShouted-of before absent_token) before-IsOnePage enforced.0
      enforced.1

abbrev desired : Map String
desired = ("REGION", "us") ∷ []

vars_resolved : resolve_vars sys (for_repo_cascade "site" none (some site)) ≡ ok desired
unfolding resolve_vars for_repo_cascade ghsecretman.Plan.Cascade.managed_rows
    ghsecretman.Base.Sort.sort_strings ghsecretman.Plan.Cascade.names_of
    ghsecretman.Plan.Cascade.shared_ignored ghsecretman.Plan.Cascade.shared_managed
    ghsecretman.Plan.Cascade.own_ignored ghsecretman.Plan.Cascade.own_managed
    ghsecretman.Resolve.resolve text_dec ghsecretman.Plan.Cascade.ignored_rows
vars_resolved = refl

live_fetched : fetch_live paged "acme" "site" before ≡ (ok (view before), before)
unfolding fetch_live variable_map text_dec
live_fetched = refl

run_audit-InStep_example :
    ((run_audit world [] before).0.code ≤ 1)
    × (((run_audit world [] before).0.code ≡ 0) ↔ (
        (k : Kind) (n : String)
        → InStep desired (view before) k n (precedence none (some site) k n)))
run_audit-InStep_example =
    run_audit-InStep world [] flags loaded before before only_site (some site) desired (view before)
      (accepted "audit" []) site_there vars_resolved live_fetched before-IsLive

run-IsCode_example :
    IsCode world
      (refuses world "ghsecretman" ("example" ∷ []) [])
      ([], before)
      (run world "ghsecretman" ("example" ∷ []) "1.0" ([], before))
run-IsCode_example = run-IsCode world "ghsecretman" "1.0" ("example" ∷ []) ([], before)

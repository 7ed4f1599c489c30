-- ===== src/Tests/Runs.antt =====
-- Runs over `memory`, and the theorems at concrete data.
use ghsecretman.Runner.Phases.{write_body, run_delete_phase, run_apply_phase}
use ghsecretman.Runner.Repo.{delete_one, apply_one, fetch_keys, fetch_live}
use ghsecretman.Resolve.{resolve}
use ghsecretman.Runner.Target.{desired_vars_from_resolved, resolve_all, lookup_target}
use ghsecretman.Plan.Cascade.{
  effective_ignored, ignored_rows, managed_rows, names_of, shared_ignored, shared_managed,
  own_ignored, own_managed, for_repo_cascade,
}
use ghsecretman.Runner.Enforce.{enforce_repo}
use ghsecretman.Tests.Memory.{memory, system, Memory}
use ghsecretman.Config.{Entry, Org, Repo, Config}
use ghsecretman.Plan.{Intent}
use ghsecretman.Diff.{compute, Live}
use ghsecretman.Base.{
  String, true, false, none, some, List, [], ◌∷◌, ◌≡◌, refl, ℕ, zero, suc, ◌+◌, ◌<>◌, Bool, not,
  Option, ◌++◌, ◌≢◌, sym, ap, ◌∙◌, arith, Result, ok, err, inl, inr, ◌⊎◌, ◌↔◌, ◌&&◌, ◌||◌, ◌==◌,
  if◌then◌else◌, contains, Bool-cases, Option-cases, Result-cases,
}

abbrev pub literal : String → String → Entry
literal name value = record {
  name = name;
  value = value;
  env = "";
  file = "";
  file_abs = "";
  has_value = true;
}

abbrev pub token : Entry
token = record {
  name = "TOKEN";
  value = "";
  env = "TOKEN";
  file = "";
  file_abs = "";
  has_value = false;
}

-- All repos have REGION and TOKEN; this repo has its own REGION and leaves KEEP and TOKEN alone.
abbrev pub shared : Repo
shared = record {
  managed = record {
    vars = ("REGION", literal "REGION" "eu") ∷ ("LEVEL", literal "LEVEL" "3") ∷ [];
    secrets = ("TOKEN", token) ∷ ("SEED", token) ∷ [];
    dependabot = [];
  };
  ignored = record { vars = "OLD" ∷ []; secrets = []; dependabot = [] };
}

abbrev pub own : Repo
own = record {
  managed = record {
    vars = ("REGION", literal "REGION" "us") ∷ [];
    secrets = [];
    dependabot = ("BOT", token) ∷ [];
  };
  ignored = record { vars = "KEEP" ∷ []; secrets = "TOKEN" ∷ []; dependabot = [] };
}

abbrev pub acme : Org
acme = record { org_scope = none; all_repos = some shared; per_repo = ("site", own) ∷ [] }

abbrev pub config : Config
config = record { base_dir = "."; orgs = ("acme", acme) ∷ [] }

abbrev pub start : Memory
start = record {
  vars = ("KEEP", "1") ∷ ("REGION", "eu") ∷ ("STRAY", "x") ∷ [];
  secrets = "SPARE" ∷ "TOKEN" ∷ [];
  dependabot = [];
}

abbrev pub live_start : Live
live_start = record { vars = start.vars; secrets = start.secrets; dependabot = start.dependabot }

abbrev pub intents : List Intent
intents = for_repo_cascade "site" (some shared) (some own)

enforced :
    (enforce_repo system memory config "acme" "site"
      (record { dry_run = false; verbose = false })
      start).1
    ≡ record {
      vars = ("KEEP", "1") ∷ ("REGION", "us") ∷ ("LEVEL", "3") ∷ [];
      secrets = "SEED" ∷ "TOKEN" ∷ [];
      dependabot = "BOT" ∷ [];
    }
unfolding enforce_repo lookup_target for_repo_cascade own_managed own_ignored shared_managed
    shared_ignored names_of managed_rows ignored_rows resolve_all resolve fetch_live fetch_keys
    desired_vars_from_resolved compute effective_ignored run_apply_phase run_delete_phase apply_one
    delete_one write_body ghsecretman.Base.text_dec ghsecretman.Base.Sort.sort_strings
enforced = refl

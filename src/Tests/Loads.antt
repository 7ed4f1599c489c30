-- ===== src/Tests/Loads.antt =====
-- A document whose nodes are named by texts, loaded, and the theorems about what is loaded.
use ghsecretman.Plan.Organization.{wanted_intent, for_org, org_managed_for}
use ghsecretman.Config.Orgs.Valid.{decode_org_entry-IsValidOrgEntry, IsValidOrgEntry}
use ghsecretman.Config.Orgs.{decode_org_entry}
use ghsecretman.Runner.Loaded.{load_bytes-org, load_bytes-target}
use ghsecretman.Resolve.Sources.{resolve-one_source}
use ghsecretman.Plan.Cascade.Precedence.{precedence}
use ghsecretman.Resolve.{resolve}
use ghsecretman.Plan.Cascade.{CascadeWinner}
use ghsecretman.Tests.Memory.{system}
use ghsecretman.Tests.Runs.{token, literal}
use ghsecretman.Runner.Target.{lookup_target}
use ghsecretman.Config.Entries.{IsValidEntry, source_count}
use ghsecretman.Config.Yaml.{Yaml}
use ghsecretman.Plan.{select, kind_secret, is_managed, managed_for, Kind}
use ghsecretman.Base.Maps.{NodupKeys, has, Map, lookup}
use ghsecretman.Config.{org_of, OrgScope, OrgEntry, Entry, Repo, Org, Config}
use ghsecretman.Config.Load.{load_bytes-IsValidConfig, IsValidConfig, load_bytes}
use ghsecretman.Base.{
  file_error, Error, env_error, text_dec, String, true, false, not, none, some, List, [], ◌∷◌, ◌≡◌,
  ◌≢◌, refl, ok, ◌⊎◌, ◌==◌, if◌then◌else◌, err,
}

-- A name that starts a row of the table is that of a mapping; any other text is a scalar.
abbrev pub table : Map (List String)
table =
    ("@root", "github.com" ∷ "@orgs" ∷ [])
    ∷ ("@orgs", "acme" ∷ "@acme" ∷ [])
    ∷ ("@acme", "per-repo" ∷ "@repos" ∷ "org" ∷ "@org" ∷ [])
    ∷ ("@org", "managed" ∷ "@owned" ∷ [])
    ∷ ("@owned", "secrets" ∷ "@org_secrets" ∷ [])
    ∷ ("@org_secrets", "SHARED" ∷ "@shared" ∷ [])
    ∷ ("@repos", "site" ∷ "@site" ∷ [])
    ∷ ("@site", "managed" ∷ "@managed" ∷ "ignored" ∷ "@ignored" ∷ [])
    ∷ ("@managed", "vars" ∷ "@vars" ∷ [])
    ∷ ("@vars", "REGION" ∷ "@region" ∷ [])
    ∷ ("@region", "value" ∷ "us" ∷ [])
    ∷ ("@ignored", "secrets" ∷ "@names" ∷ [])
    ∷ ("@shared", "env" ∷ "TOKEN" ∷ "scope" ∷ "selected" ∷ "repos" ∷ "@names" ∷ [])
    ∷ []

abbrev pub row_of : String → List String
row_of n = elim (lookup n table) [ none ↦ [] | some l ↦ l ]

abbrev pub document : Yaml
document = record {
  Node = String;
  is_document = λ n. false;
  is_mapping = λ n. has n table;
  is_sequence = λ n. n == "@names";
  is_scalar = λ n. not (has n table);
  value = λ n. n;
  content = λ n. if n == "@names" then "TOKEN" ∷ [] else row_of n;
  unmarshal = λ text. ok "@root";
}

abbrev pub site : Repo
site = record {
  managed = record { vars = ("REGION", literal "REGION" "us") ∷ []; secrets = []; dependabot = [] };
  ignored = record { vars = []; secrets = "TOKEN" ∷ []; dependabot = [] };
}

abbrev shared_entry : OrgEntry
shared_entry = record {
  entry = record token { name = "SHARED" };
  visibility = "selected";
  repos = "TOKEN" ∷ [];
}

abbrev pub owned : OrgScope
owned = record {
  managed = record { vars = []; secrets = ("SHARED", shared_entry) ∷ []; dependabot = [] };
  ignored = record { vars = []; secrets = []; dependabot = [] };
}

abbrev pub only_site : Org
only_site = record { org_scope = some owned; all_repos = none; per_repo = ("site", site) ∷ [] }

abbrev pub loaded : Config
loaded = record { base_dir = "c.yml"; orgs = ("acme", only_site) ∷ [] }

document_result : load_bytes system document "" "c.yml" ≡ ok loaded
unfolding load_bytes text_dec ghsecretman.Config.Orgs.decode_org
    ghsecretman.Config.Repos.decode_repo ghsecretman.Config.Repos.decode_managed
    ghsecretman.Config.Entries.decode_entries ghsecretman.Config.Entries.decode_entry
    ghsecretman.Config.Repos.decode_ignored ghsecretman.Config.Repos.decode_string_list
    ghsecretman.Config.Repos.check_managed_ignored_conflict ghsecretman.Config.Orgs.decode_org_scope
    ghsecretman.Config.Orgs.decode_org_managed ghsecretman.Config.Orgs.decode_org_entries
    ghsecretman.Config.Orgs.decode_org_entry
    ghsecretman.Config.Orgs.check_org_managed_ignored_conflict
    ghsecretman.Config.Entries.validate_entry_sources
    ghsecretman.Config.Orgs.validate_org_visibility
document_result = refl

load_bytes-IsValidConfig_example : IsValidConfig loaded
load_bytes-IsValidConfig_example =
    load_bytes-IsValidConfig system document "" "c.yml" loaded document_result

site_found : lookup_target system loaded "acme" "site" ≡ ok (only_site, some site)
unfolding lookup_target text_dec
site_found = refl

load_bytes-target_example :
    ((k : Kind) → NodupKeys (managed_for (some site) k))
    × ((k : Kind) (n : String) (w : CascadeWinner)
        → precedence none (some site) k n ≡ some w
        → is_managed w.action ≡ true
        → (e : Entry) × (w.entry ≡ some e) × IsValidEntry n e)
load_bytes-target_example =
    load_bytes-target system document "" "c.yml" loaded "acme" "site" only_site (some site)
      document_result site_found

acme_found : org_of loaded "acme" ≡ some only_site
unfolding org_of text_dec
acme_found = refl

load_bytes-org_example :
    NodupKeys (org_managed_for (some owned) kind_secret)
    × ((n : String) (oe : OrgEntry)
        → lookup n (org_managed_for (some owned) kind_secret) ≡ some oe
        → IsValidOrgEntry n oe
          × (select kind_secret n (for_org (some owned)) ≡ wanted_intent kind_secret n oe ∷ []))
load_bytes-org_example =
    load_bytes-org system document "" "c.yml" loaded "acme" only_site document_result acme_found
      kind_secret

resolve-one_source_example :
    (token.has_value ≡ true)
      × (token.env ≡ "")
      × (token.file ≡ "")
      × (resolve system (some token) ≡ ok token.value)
    ⊎ (token.has_value ≡ false)
      × (token.env ≢ "")
      × (token.file ≡ "")
      × ((v : String) → system.lookup_env token.env ≡ some v → resolve system (some token) ≡ ok v)
      × (system.lookup_env token.env ≡ none
          → resolve system (some token) ≡ err (env_error token.name token.env))
    ⊎ (token.has_value ≡ false)
      × (token.env ≡ "")
      × (token.file ≢ "")
      × (let path = if token.file_abs == "" then token.file else token.file_abs in
          ((d : String) → system.read_file path ≡ ok d → resolve system (some token) ≡ ok d)
          × ((x : Error)
              → system.read_file path ≡ err x
              → resolve system (some token) ≡ err (file_error path x)))
unfolding source_count text_dec
resolve-one_source_example = resolve-one_source system token refl

abbrev org_entry : OrgEntry
org_entry = record { entry = token; visibility = "selected"; repos = "TOKEN" ∷ [] }

org_entry_result :
    decode_org_entry system document "" "acme" "secrets" "TOKEN" "@shared" ≡ ok org_entry
unfolding decode_org_entry text_dec ghsecretman.Config.Repos.decode_string_list
    ghsecretman.Config.Entries.validate_entry_sources
    ghsecretman.Config.Orgs.validate_org_visibility
org_entry_result = refl

decode_org_entry-IsValidOrgEntry_example : IsValidOrgEntry "TOKEN" org_entry
decode_org_entry-IsValidOrgEntry_example =
    decode_org_entry-IsValidOrgEntry system document "" "acme" "secrets" "TOKEN" "@shared" org_entry
      org_entry_result

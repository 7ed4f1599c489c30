-- ===== src/Config.antt =====
-- The parsed configuration of internal/config/config.go. A pointer that may be nil is an `Option`.
pub mod Yaml
pub mod Entries
pub mod Repos
pub mod Orgs
pub mod Load
use ghsecretman.Base.{String, Bool, Option, List}
use ghsecretman.Base.Maps.{Map, lookup}

-- One managed value, from a literal `value:`, an environment variable or a file.
pub record Entry : Type 0 where
  pub name : String
  pub value : String
  pub env : String
  pub file : String
  pub file_abs : String
  pub has_value : Bool

pub record Ignored : Type 0 where
  pub vars : List String
  pub secrets : List String
  pub dependabot : List String

pub record Managed : Type 0 where
  pub vars : Map Entry
  pub secrets : Map Entry
  pub dependabot : Map Entry

pub record Repo : Type 0 where
  pub managed : Managed
  pub ignored : Ignored

pub record OrgEntry : Type 0 where
  pub entry : Entry
  pub visibility : String
  pub repos : List String

pub record OrgManaged : Type 0 where
  pub vars : Map OrgEntry
  pub secrets : Map OrgEntry
  pub dependabot : Map OrgEntry

pub record OrgScope : Type 0 where
  pub managed : OrgManaged
  pub ignored : Ignored

pub record Org : Type 0 where
  pub org_scope : Option OrgScope
  pub all_repos : Option Repo
  pub per_repo : Map Repo

pub record Config : Type 0 where
  pub base_dir : String
  pub orgs : Map Org

-- `func (c *Config) Org`
unfoldable pub org_of : Config → String → Option Org
org_of c name = lookup name c.orgs

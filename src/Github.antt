-- ===== src/Github.antt =====
-- The interface `Backend` of internal/github/github.go, through which the runner reaches GitHub.
pub mod Client
pub mod Operations
pub mod Pages
pub mod Variables
pub mod Secrets
use ghsecretman.Base.{String, List, ℕ}
use ghsecretman.Base.Maps.{Map}
use ghsecretman.Base.Calls.{Call}
use ghsecretman.Base.{Option}

pub data OwnerType : Type 0 where
  owner_org owner_user : OwnerType

pub record PublicKey : Type 0 where
  pub key_id : String
  pub key : String

-- `State` is what the backend keeps and the program does not see: the state of GitHub. A key that is
-- passed on is a pointer, and nil where no key was fetched. The numbers are GitHub's ids of repos.
pub record Backend : Type 1 where
  pub State : Type 0
  pub get_owner_type : String → Call State OwnerType
  pub list_org_repos : String → Call State (List String)
  pub list_user_repos : String → Call State (List String)
  pub list_repo_variables : String → String → Call State (Map String)
  pub list_repo_secrets : String → String → Call State (List String)
  pub list_repo_dependabot_secrets : String → String → Call State (List String)
  pub get_repo_public_key : String → String → Call State PublicKey
  pub get_repo_dependabot_public_key : String → String → Call State PublicKey
  pub set_repo_variable : String → String → String → String → Call State (Unit {0})
  pub set_repo_secret : String → String → String → Option PublicKey → String → Call State (Unit {0})
  pub set_repo_dependabot_secret :
      String → String → String → Option PublicKey → String → Call State (Unit {0})
  pub delete_repo_variable : String → String → String → Call State (Unit {0})
  pub delete_repo_secret : String → String → String → Call State (Unit {0})
  pub delete_repo_dependabot_secret : String → String → String → Call State (Unit {0})
  pub list_org_variables : String → Call State (Map String)
  pub list_org_secrets : String → Call State (List String)
  pub list_org_dependabot_secrets : String → Call State (List String)
  pub get_org_public_key : String → Call State PublicKey
  pub get_org_dependabot_public_key : String → Call State PublicKey
  pub set_org_variable : String → String → String → String → List ℕ → Call State (Unit {0})
  pub set_org_secret :
      String → String → Option PublicKey → String → String → List ℕ → Call State (Unit {0})
  pub set_org_dependabot_secret :
      String → String → Option PublicKey → String → String → List ℕ → Call State (Unit {0})
  pub delete_org_variable : String → String → Call State (Unit {0})
  pub delete_org_secret : String → String → Call State (Unit {0})
  pub delete_org_dependabot_secret : String → String → Call State (Unit {0})
  pub get_repo_id : String → String → Call State ℕ

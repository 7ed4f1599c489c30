-- ===== src/Runner/Repo.antt =====
-- The calls of the backend that the commands for one repo make.
use ghsecretman.Base.{String, Bool, true, false, Option, none, some, ◌&&◌, ◌||◌, List, [], ◌∷◌, ok}
use ghsecretman.Base.Calls.{Call, ◌>>=◌, lift, wrap_call}
use ghsecretman.Plan.{Kind, kind_var, kind_secret, kind_dependabot, kind_eq, is_managed, Intent}
use ghsecretman.Diff.{Live}
use ghsecretman.Github.{Backend, PublicKey}

-- `needsActions` and `needsDep` of `fetchKeys`: whether an entry of a kind is managed.
unfoldable pub needs : Kind → List Intent → Bool
needs kind [] = false
needs kind (i ∷ intents) = is_managed i.action && kind_eq i.kind kind || needs kind intents

-- A key that no entry needs is nil, and is not fetched.
abbrev pub fetch_if : {S : Type 0} → Bool → String → Call S PublicKey → Call S (Option PublicKey)
fetch_if false prefix fetch = lift (ok none)
fetch_if true prefix fetch = do key ← wrap_call prefix fetch; lift (ok (some key))

module _ (b : Backend) (org repo : String) where
  unfoldable pub fetch_live : Call b.State Live
  fetch_live = do
    vars ← b.list_repo_variables org repo
    secrets ← b.list_repo_secrets org repo
    dependabot ← b.list_repo_dependabot_secrets org repo
    lift (ok (record { vars = vars; secrets = secrets; dependabot = dependabot }))

  unfoldable pub fetch_keys : List Intent → Call b.State (Option PublicKey × Option PublicKey)
  unfolding needs
  fetch_keys intents = do
    actions ←
        fetch_if (needs kind_secret intents) "fetch actions public key"
          (b.get_repo_public_key org repo)
    dependabot ←
        fetch_if (needs kind_dependabot intents) "fetch dependabot public key"
          (b.get_repo_dependabot_public_key org repo)
    lift (ok (actions, dependabot))

  unfoldable pub apply_one :
      Kind → String → String → Option PublicKey → Option PublicKey → Call b.State (Unit {0})
  apply_one kind_var name value actions_key dep_key = b.set_repo_variable org repo name value
  apply_one kind_secret name value actions_key dep_key =
      b.set_repo_secret org repo name actions_key value
  apply_one kind_dependabot name value actions_key dep_key =
      b.set_repo_dependabot_secret org repo name dep_key value

  unfoldable pub delete_one : Kind → String → Call b.State (Unit {0})
  delete_one kind_var name = b.delete_repo_variable org repo name
  delete_one kind_secret name = b.delete_repo_secret org repo name
  delete_one kind_dependabot name = b.delete_repo_dependabot_secret org repo name

-- ===== src/Plan.antt =====
-- internal/plan/plan.go: the kinds of object, the actions and the intents, and the plan of a repo
-- from its own block. The cascade and the plan of an organization are in the children.
pub mod Cascade
pub mod Organization
use ghsecretman.Base.{String, Bool, true, false, Option, none, some, List, [], ◌∷◌, ◌++◌}
use ghsecretman.Base.{◌≡◌, refl, ◌∙◌, ◌&&◌, ◌==◌, contains, if◌then◌else◌}
use mathlib.Core.List.{append-nil}
use ghsecretman.Base.Maps.{Map, lookup, keys}
use ghsecretman.Base.Sort.{sort_strings}
use ghsecretman.Config.{Entry, Repo}

pub data Kind : Type 0 where
  kind_var kind_secret kind_dependabot : Kind

-- The text of a kind, which the output shows.
abbrev pub kind_text : Kind → String
kind_text kind_var = "vars"
kind_text kind_secret = "secrets"
kind_text kind_dependabot = "dependabot"

-- `kind_eq` is Go's `==` on kinds.
abbrev pub kind_eq : Kind → Kind → Bool
kind_eq kind_var kind_var = true
kind_eq kind_secret kind_secret = true
kind_eq kind_dependabot kind_dependabot = true
kind_eq _ _ = false

-- `action_unset` is the zero value, the empty text.
pub data Action : Type 0 where
  action_unset action_managed action_ignored : Action

abbrev pub is_managed : Action → Bool
is_managed action_managed = true
is_managed action_unset = false
is_managed action_ignored = false

abbrev pub is_ignoring : Action → Bool
is_ignoring action_ignored = true
is_ignoring action_managed = false
is_ignoring action_unset = false

pub record Intent : Type 0 where
  pub repo : String
  pub kind : Kind
  pub name : String
  pub action : Action
  pub entry : Option Entry
  pub overrides_all_repos : Bool
  pub shields_all_repos_managed : Bool
  pub is_org : Bool
  pub visibility : String
  pub selected_repos : List String

-- The fields that a composite literal leaves out have their zero values.
abbrev pub repo_intent : String → Kind → String → Action → Option Entry → Bool → Bool → Intent
repo_intent repo kind name action entry overrides shields = record {
  repo = repo;
  kind = kind;
  name = name;
  action = action;
  entry = entry;
  overrides_all_repos = overrides;
  shields_all_repos_managed = shields;
  is_org = false;
  visibility = "";
  selected_repos = [];
}

managed_intents : String → Kind → Map Entry → List String → List Intent
managed_intents repo kind m [] = []
managed_intents repo kind m (n ∷ names) =
    repo_intent repo kind n action_managed (lookup n m) false false
    ∷ managed_intents repo kind m names

ignored_intents : String → Kind → List String → List Intent
ignored_intents repo kind [] = []
ignored_intents repo kind (n ∷ names) =
    repo_intent repo kind n action_ignored none false false ∷ ignored_intents repo kind names

pub append_kind : List Intent → String → Kind → Map Entry → List String → List Intent
unfolding managed_intents ignored_intents
append_kind out repo kind m ignored =
    out
    ++ (managed_intents repo kind m (sort_strings (keys m))
        ++ ignored_intents repo kind (sort_strings ignored))

unfoldable pub for_repo : String → Option Repo → List Intent
unfolding append_kind
for_repo repo none = []
for_repo repo (some r) =
    let vars = append_kind [] repo kind_var r.managed.vars r.ignored.vars in
    let secrets = append_kind vars repo kind_secret r.managed.secrets r.ignored.secrets in
    append_kind secrets repo kind_dependabot r.managed.dependabot r.ignored.dependabot

abbrev pub managed_for : Option Repo → Kind → Map Entry
managed_for none kind = []
managed_for (some r) kind_var = r.managed.vars
managed_for (some r) kind_secret = r.managed.secrets
managed_for (some r) kind_dependabot = r.managed.dependabot

abbrev pub ignored_for : Option Repo → Kind → List String
ignored_for none kind = []
ignored_for (some r) kind_var = r.ignored.vars
ignored_for (some r) kind_secret = r.ignored.secrets
ignored_for (some r) kind_dependabot = r.ignored.dependabot

unfoldable pub is_ignored : Option Repo → Kind → String → Bool
is_ignored none kind name = false
is_ignored (some r) kind name = contains (ignored_for (some r) kind) name

-- The intents for one kind and name.
abbrev pub select : Kind → String → List Intent → List Intent
select k n [] = []
select k n (i ∷ intents) =
    let rest = select k n intents in if kind_eq k i.kind && n == i.name then i ∷ rest else rest

-- The three sections of a plan or a diff, of which one is that of a given kind.
pub one_kind {ℓ} :
    {A : Type ℓ} (k : Kind) (f : Kind → List A)
    → ((if kind_eq k kind_var then f kind_var else [])
          ++ (if kind_eq k kind_secret then f kind_secret else []))
        ++ (if kind_eq k kind_dependabot then f kind_dependabot else [])
      ≡ f k
one_kind kind_var f = append-nil _ ∙ append-nil _
one_kind kind_secret f = append-nil _
one_kind kind_dependabot f = refl

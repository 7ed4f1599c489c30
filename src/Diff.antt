-- ===== src/Diff.antt =====
-- internal/diff/diff.go: the comparison of a plan with the live state.
pub mod Sets
pub mod Rows
pub mod Names
pub mod Vars
pub mod Verdict
pub mod Organization
use ghsecretman.Base.{
  String, Bool, true, false, not, none, some, List, [], ◌∷◌, ◌++◌, ◌==◌, contains, if◌then◌else◌,
}
use ghsecretman.Base.Maps.{Map, Set, lookup, has, insert, keys, add_all, get_text}
use ghsecretman.Base.Sort.{sort_strings}
use ghsecretman.Config.{Ignored}
use ghsecretman.Plan.{
  Kind, kind_var, kind_secret, kind_dependabot, kind_eq, Action, action_unset, action_managed,
  action_ignored, Intent,
}

pub data Status : Type 0 where
  status_match status_mismatch status_present status_missing status_extra status_ignored : Status

pub data Override : Type 0 where
  override_none override_managed override_ignored : Override

pub record Live : Type 0 where
  pub vars : Map String
  pub secrets : List String
  pub dependabot : List String

pub record Entry : Type 0 where
  pub repo : String
  pub kind : Kind
  pub name : String
  pub status : Status
  pub desired_value : String
  pub live_value : String
  pub override : Override

-- A row with neither value filled in.
abbrev pub row : String → Kind → String → Status → Override → Entry
row repo kind name status override = record {
  repo = repo;
  kind = kind;
  name = name;
  status = status;
  desired_value = "";
  live_value = "";
  override = override;
}

pub record IntentSets : Type 0 where
  pub intended : Set
  pub intent_names : List String
  pub managed_override : Set
  pub ignored_shield : Set

-- One round of the loop of `collectIntents`, past its test of the kind.
abbrev pub collect_round : Action → Intent → IntentSets → IntentSets
collect_round action_managed i s = record s {
  intended = insert i.name tt s.intended;
  intent_names = s.intent_names ++ i.name ∷ [];
  managed_override =
      if i.overrides_all_repos then insert i.name tt s.managed_override else s.managed_override;
}
collect_round action_ignored i s = record s {
  ignored_shield =
      if i.shields_all_repos_managed then insert i.name tt s.ignored_shield else s.ignored_shield;
}
collect_round action_unset i s = s

unfoldable pub collect_loop : Kind → List Intent → IntentSets → IntentSets
collect_loop kind [] s = s
collect_loop kind (i ∷ intents) s =
    collect_loop kind intents (if kind_eq i.kind kind then collect_round i.action i s else s)

abbrev pub no_intents : IntentSets
no_intents = record { intended = []; intent_names = []; managed_override = []; ignored_shield = [] }

unfoldable pub collect_intents : List Intent → Kind → IntentSets
unfolding collect_loop
collect_intents intents kind =
    let s = collect_loop kind intents no_intents in
    record s { intent_names = sort_strings s.intent_names }

-- The names of the first set that are not in the second.
unfoldable pub not_in : Set → List String → List String
not_in emitted [] = []
not_in emitted (n ∷ names) =
    let rest = not_in emitted names in if has n emitted then rest else n ∷ rest

unfoldable pub shield_only_names : Set → Set → List String
unfolding not_in
shield_only_names shields emitted = sort_strings (not_in emitted (keys shields))

unfoldable pub var_entry : String → String → String → Map String → Set → Entry
var_entry repo name desired live_vars managed_override =
    let override = if has name managed_override then override_managed else override_none in
    elim (lookup name live_vars) [
      | some live_val ↦
          if live_val == desired
          then row repo kind_var name status_match override
          else record (row repo kind_var name status_mismatch override) {
            desired_value = desired;
            live_value = live_val;
          }
      | none ↦ row repo kind_var name status_missing override
    ]

-- The row, and the set of the emitted shields, which the call may extend.
unfoldable pub extra_var_entry : String → String → List String → Set → Set → Entry × Set
extra_var_entry repo name ignored shield emitted =
    if not (contains ignored name)
    then (row repo kind_var name status_extra override_none, emitted)
    else if has name shield
    then (row repo kind_var name status_ignored override_ignored, insert name tt emitted)
    else (row repo kind_var name status_ignored override_none, emitted)

unfoldable pub name_entry : String → Kind → String → Set → Set → Entry
name_entry repo kind name live_set managed_override =
    row repo kind name (if has name live_set then status_present else status_missing)
      (if has name managed_override then override_managed else override_none)

unfoldable pub extra_name_entry : String → Kind → String → List String → Set → Set → Entry × Set
extra_name_entry repo kind name ignored shield emitted =
    if not (contains ignored name)
    then (row repo kind name status_extra override_none, emitted)
    else if has name shield
    then (row repo kind name status_ignored override_ignored, insert name tt emitted)
    else (row repo kind name status_ignored override_none, emitted)

unfoldable pub rows_of : (String → Entry) → List String → List Entry
rows_of entry [] = []
rows_of entry (n ∷ names) = entry n ∷ rows_of entry names

-- The second loop of `computeVars` and of `computeNames`: the live names that are not intended.
unfoldable pub extra_rows :
    (String → Set → Entry × Set) → Set → List String → Set → List Entry × Set
extra_rows extra intended [] emitted = ([], emitted)
extra_rows extra intended (n ∷ names) emitted =
    let (e, emitted') = extra n emitted in
    let (rest, last) =
      extra_rows extra intended names (if has n intended then emitted else emitted') in
    (if has n intended then rest else e ∷ rest, last)

unfoldable pub compute_vars : String → List Intent → Map String → Live → Ignored → List Entry
unfolding collect_intents shield_only_names var_entry extra_var_entry rows_of extra_rows
compute_vars repo intents desired_vars live ignored =
    let s = collect_intents intents kind_var in
    let intended =
      rows_of (λ n. var_entry repo n (get_text n desired_vars) live.vars s.managed_override)
        s.intent_names in
    let (extras, emitted) =
      extra_rows (λ n. extra_var_entry repo n ignored.vars s.ignored_shield) s.intended
        (sort_strings (keys live.vars)) [] in
    let shields =
      rows_of (λ n. row repo kind_var n status_ignored override_ignored)
        (shield_only_names s.ignored_shield emitted) in
    (intended ++ extras) ++ shields

unfoldable pub compute_names : String → Kind → List Intent → List String → List String → List Entry
unfolding collect_intents shield_only_names name_entry extra_name_entry rows_of extra_rows
compute_names repo kind intents live_names ignored =
    let s = collect_intents intents kind in
    let live = add_all live_names [] in
    let intended = rows_of (λ n. name_entry repo kind n live s.managed_override) s.intent_names in
    let (extras, emitted) =
      extra_rows (λ n. extra_name_entry repo kind n ignored s.ignored_shield) s.intended
        (sort_strings live_names) [] in
    let shields =
      rows_of (λ n. row repo kind n status_ignored override_ignored)
        (shield_only_names s.ignored_shield emitted) in
    (intended ++ extras) ++ shields

unfoldable pub compute : String → List Intent → Map String → Live → Ignored → List Entry
unfolding compute_vars compute_names
compute repo intents desired_vars live ignored =
    let vars = compute_vars repo intents desired_vars live ignored in
    let secrets = compute_names repo kind_secret intents live.secrets ignored.secrets in
    let deps = compute_names repo kind_dependabot intents live.dependabot ignored.dependabot in
    (vars ++ secrets) ++ deps

abbrev pub is_clean : Status → Bool
is_clean status_match = true
is_clean status_present = true
is_clean status_ignored = true
is_clean status_mismatch = false
is_clean status_missing = false
is_clean status_extra = false

unfoldable pub has_drift : List Entry → Bool
has_drift [] = false
has_drift (e ∷ entries) = let rest = has_drift entries in if is_clean e.status then rest else true

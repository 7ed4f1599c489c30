-- ===== src/Diff/Verdict.antt =====
-- `Compute` on the plan of a cascade: the verdict on one kind and name.
use ghsecretman.Base.{
  ◌≤◌, String, Bool, Option, none, some, List, [], ◌∷◌, ◌≡◌, ◌∙◌, arith, contains, if◌then◌else◌,
}
use ghsecretman.Base.Maps.{Map, has, keys, lookup, NodupKeys, get_text}
use ghsecretman.Base.Sort.{IsUnique}
use ghsecretman.Config.{Repo, Ignored}
use ghsecretman.Plan.{
  Kind, kind_var, kind_secret, kind_dependabot, is_managed, managed_for, Intent, select, one_kind,
}
use ghsecretman.Plan.Cascade.{CascadeWinner, for_repo_cascade, effective_ignored}
use ghsecretman.Plan.Cascade.Precedence.{precedence}
use ghsecretman.Plan.Cascade.Intents.{
  planned, ignored_at, IsShaped, precedence-IsShaped, for_repo_cascade-precedence,
}
use ghsecretman.Plan.Cascade.EffectiveIgnored.{ignored_list, effective_ignored-precedence}
use ghsecretman.Diff.{
  Entry, Live, row, Override, status_present, status_missing, status_extra, status_ignored,
  override_none, override_managed, override_ignored, compute, compute_vars, compute_names,
}
use ghsecretman.Diff.Sets.{any_managed, any_override, any_shield, count_managed, IsPlain}
use ghsecretman.Diff.Rows.{pick}
use ghsecretman.Diff.Names.{rows_for, pick-compute_names, pick-three}
use ghsecretman.Diff.Vars.{value_row, pick-compute_vars}

-- The live names of a kind.
abbrev pub live_names : Live → Kind → List String
live_names live kind_var = keys live.vars
live_names live kind_secret = live.secrets
live_names live kind_dependabot = live.dependabot

-- What Go's types and GitHub grant of the live state: each name is there once.
pub record IsLive (live : Live) : Type 0 where
  pub vars : NodupKeys live.vars
  pub secrets : IsUnique live.secrets
  pub dependabot : IsUnique live.dependabot

abbrev pub is_live : Live → Kind → String → Bool
is_live live kind_var n = has n live.vars
is_live live kind_secret n = contains live.secrets n
is_live live kind_dependabot n = contains live.dependabot n

-- The row of a managed name: a value is compared for a variable only.
abbrev pub managed_entry : String → Kind → String → Map String → Live → Override → Entry
managed_entry repo kind_var n desired live override =
    value_row repo n (get_text n desired) override (lookup n live.vars)
managed_entry repo kind_secret n desired live override =
    row repo kind_secret n (if contains live.secrets n then status_present else status_missing)
      override
managed_entry repo kind_dependabot n desired live override =
    row repo kind_dependabot n
      (if contains live.dependabot n then status_present else status_missing) override

-- The verdict on a name, from what the precedence rules say of it.
abbrev pub verdict : String → Kind → String → Map String → Live → Option CascadeWinner → List Entry
verdict repo k n desired live none =
    if is_live live k n then row repo k n status_extra override_none ∷ [] else []
verdict repo k n desired live (some w) =
    if is_managed w.action
    then managed_entry repo k n desired live
        (if w.overrides_all_repos then override_managed else override_none)
      ∷ []
    else if w.shields_all_repos_managed
    then row repo k n status_ignored override_ignored ∷ []
    else if is_live live k n
    then row repo k n status_ignored override_none ∷ []
    else []

rows_for-planned :
    (repo : String) (k : Kind) (n : String) (desired : Map String) (live : Live)
    (o : Option CascadeWinner)
    → IsShaped o
    → let is = planned repo k n o in
      rows_for repo k n
        (managed_entry repo k n desired live
            (if any_override is then override_managed else override_none)
          ∷ [])
        (any_managed is)
        (any_shield is)
        (ignored_at o)
        (is_live live k n)
      ≡ verdict repo k n desired live o
rows_for-planned repo k n desired live none h = ground arith
rows_for-planned repo k n desired live (some w) h = ground arith

count_managed-planned :
    (repo : String) (k : Kind) (n : String) (o : Option CascadeWinner)
    → count_managed (planned repo k n o) ≤ 1
count_managed-planned repo k n none = omega arith
count_managed-planned repo k n (some w) = ground arith

module _ (repo : String) (ar pr : Option Repo) (desired : Map String) (live : Live)
    (u : (kind : Kind) → NodupKeys (managed_for pr kind)) (l : IsLive live) where
  abbrev intents : List Intent
  intents = for_repo_cascade repo ar pr

  pub for_repo_cascade-IsPlain : (k : Kind) → IsPlain k intents
  for_repo_cascade-IsPlain k n =
      rw (for_repo_cascade-precedence repo ar pr k n u)
        (count_managed-planned repo k n (precedence ar pr k n))

  abbrev ignored : Ignored
  ignored = effective_ignored ar pr

  abbrev rows_at : Kind → String → List Entry
  rows_at k n =
      let is = select k n intents in
      rows_for repo k n
        (managed_entry repo k n desired live
            (if any_override is then override_managed else override_none)
          ∷ [])
        (any_managed is) (any_shield is) (contains (ignored_list ignored k) n) (is_live live k n)

  rows_at-verdict :
      (k : Kind) (n : String) → rows_at k n ≡ verdict repo k n desired live (precedence ar pr k n)
  rows_at-verdict k n =
      rw (for_repo_cascade-precedence repo ar pr k n u, effective_ignored-precedence ar pr k n u)
        (rows_for-planned repo k n desired live (precedence ar pr k n)
          (precedence-IsShaped ar pr k n))

  -- For every kind and name, the rows of an audit of a repo are the verdict on what the precedence
  -- rules say of that name: at most one row, of the status and the override that belong to it,
  -- provided that the per-repo managed blocks are maps and no live name is listed twice.
  pub compute-verdict :
      (k : Kind) (n : String)
      → pick k n (compute repo intents desired live ignored)
        ≡ verdict repo k n desired live (precedence ar pr k n)
  unfolding compute
  compute-verdict k n =
      pick-three k k n (compute_vars repo intents desired live ignored)
        (compute_names repo kind_secret intents live.secrets ignored.secrets)
        (compute_names repo kind_dependabot intents live.dependabot ignored.dependabot)
      ∙ rw
          (
            pick-compute_vars repo k n intents desired live ignored
                (for_repo_cascade-IsPlain kind_var) l.vars,
            pick-compute_names repo kind_secret k n intents ignored.secrets live.secrets
                (for_repo_cascade-IsPlain kind_secret) l.secrets,
            pick-compute_names repo kind_dependabot k n intents ignored.dependabot live.dependabot
                (for_repo_cascade-IsPlain kind_dependabot) l.dependabot,
          )
          (one_kind k (λ kind. rows_at kind n) ∙ rows_at-verdict k n)

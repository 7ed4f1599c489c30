-- ===== src/Plan/Cascade.antt =====
-- `ForRepoCascade` and what it calls: per-repo entries over all-repos entries. Each `for` over a map
-- is a recursion on the map's list, so its order is the order in which `range` visits the map.
pub mod Precedence
pub mod Intents
pub mod EffectiveIgnored
pub mod Order
use ghsecretman.Base.{String, Bool, true, false, Option, none, some, List, [], ◌∷◌, ◌++◌}
use ghsecretman.Base.{if◌then◌else◌}
use ghsecretman.Base.Maps.{Map, Set, lookup, has, insert, add_all}
use ghsecretman.Base.Sort.{sort_strings}
use ghsecretman.Config.{Entry, Repo, Ignored}
use ghsecretman.Plan.{
  Kind, kind_var, kind_secret, kind_dependabot, Action, action_unset, action_managed,
  action_ignored, is_managed, Intent, repo_intent, managed_for, ignored_for,
}

pub record CascadeWinner : Type 0 where
  pub action : Action
  pub entry : Option Entry
  pub overrides_all_repos : Bool
  pub shields_all_repos_managed : Bool

abbrev pub winner : Action → Option Entry → Bool → Bool → CascadeWinner
winner action entry overrides shields = record {
  action = action;
  entry = entry;
  overrides_all_repos = overrides;
  shields_all_repos_managed = shields;
}

unfoldable pub string_set : List String → Set
unfolding add_all
string_set ss = add_all ss []

-- The four loops of `resolveCascade`, over per-repo and all-repos, managed and ignored.
unfoldable pub own_managed : Map Entry → Map Entry → Map CascadeWinner → Map CascadeWinner
own_managed ar_man [] resolved = resolved
own_managed ar_man ((n, e) ∷ rest) resolved =
    own_managed ar_man rest
      (insert n (winner action_managed (some e) (has n ar_man) false) resolved)

unfoldable pub own_ignored : Map Entry → List String → Map CascadeWinner → Map CascadeWinner
own_ignored ar_man [] resolved = resolved
own_ignored ar_man (n ∷ rest) resolved = own_ignored ar_man rest (
    if has n resolved
    then resolved
    else insert n (winner action_ignored none false (has n ar_man)) resolved)

unfoldable pub shared_managed : Set → Map Entry → Map CascadeWinner → Map CascadeWinner
shared_managed pr_ig [] resolved = resolved
shared_managed pr_ig ((n, e) ∷ rest) resolved = shared_managed pr_ig rest (
    if has n resolved
    then resolved
    else if has n pr_ig
    then resolved
    else insert n (winner action_managed (some e) false false) resolved)

unfoldable pub shared_ignored : List String → Map CascadeWinner → Map CascadeWinner
shared_ignored [] resolved = resolved
shared_ignored (n ∷ rest) resolved = shared_ignored rest (
    if has n resolved then resolved else insert n (winner action_ignored none false false) resolved)

pub resolve_cascade : Option Repo → Option Repo → Kind → Map CascadeWinner
resolve_cascade all_repos per_repo kind =
    let pr_man = managed_for per_repo kind in
    let pr_ig = ignored_for per_repo kind in
    let ar_man = managed_for all_repos kind in
    let ar_ig = ignored_for all_repos kind in
    shared_ignored ar_ig (
      shared_managed (string_set pr_ig) ar_man
        (own_ignored ar_man pr_ig (own_managed ar_man pr_man [])))

-- The loop that splits the names: those of the managed winners, or the others.
unfoldable pub names_of : Bool → Map CascadeWinner → List String
names_of managed [] = []
names_of true ((n, w) ∷ rest) =
    let names = names_of true rest in if is_managed w.action then n ∷ names else names
names_of false ((n, w) ∷ rest) =
    let names = names_of false rest in if is_managed w.action then names else n ∷ names

-- `resolved[n]`, the zero value where the key is missing.
abbrev pub or_zero : Option CascadeWinner → CascadeWinner
or_zero none = winner action_unset none false false
or_zero (some w) = w

abbrev pub winner_at : Map CascadeWinner → String → CascadeWinner
winner_at resolved n = or_zero (lookup n resolved)

unfoldable pub managed_rows : String → Kind → Map CascadeWinner → List String → List Intent
managed_rows repo kind resolved [] = []
managed_rows repo kind resolved (n ∷ names) =
    let w = winner_at resolved n in
    repo_intent repo kind n action_managed w.entry w.overrides_all_repos false
    ∷ managed_rows repo kind resolved names

unfoldable pub ignored_rows : String → Kind → Map CascadeWinner → List String → List Intent
ignored_rows repo kind resolved [] = []
ignored_rows repo kind resolved (n ∷ names) =
    let w = winner_at resolved n in
    repo_intent repo kind n action_ignored none false w.shields_all_repos_managed
    ∷ ignored_rows repo kind resolved names

pub append_cascade_kind : List Intent → String → Kind → Option Repo → Option Repo → List Intent
append_cascade_kind out repo kind all_repos per_repo =
    let resolved = resolve_cascade all_repos per_repo kind in
    out
    ++ (managed_rows repo kind resolved (sort_strings (names_of true resolved))
        ++ ignored_rows repo kind resolved (sort_strings (names_of false resolved)))

unfoldable pub for_repo_cascade : String → Option Repo → Option Repo → List Intent
unfolding append_cascade_kind resolve_cascade string_set
for_repo_cascade repo all_repos per_repo =
    let vars = append_cascade_kind [] repo kind_var all_repos per_repo in
    let secrets = append_cascade_kind vars repo kind_secret all_repos per_repo in
    append_cascade_kind secrets repo kind_dependabot all_repos per_repo

-- One round of the loop of `EffectiveIgnored`.
abbrev pub add_ignored : Action → Kind → String → Ignored → Ignored
add_ignored action_ignored kind_var n out = record out { vars = out.vars ++ n ∷ [] }
add_ignored action_ignored kind_secret n out = record out { secrets = out.secrets ++ n ∷ [] }
add_ignored action_ignored kind_dependabot n out = record out {
  dependabot = out.dependabot ++ n ∷ [];
}
add_ignored action_managed kind n out = out
add_ignored action_unset kind n out = out

abbrev pub no_ignored : Ignored
no_ignored = record { vars = []; secrets = []; dependabot = [] }

unfoldable pub collect_ignored : List Intent → Ignored → Ignored
collect_ignored [] out = out
collect_ignored (i ∷ intents) out = collect_ignored intents (add_ignored i.action i.kind i.name out)

unfoldable pub effective_ignored : Option Repo → Option Repo → Ignored
unfolding collect_ignored for_repo_cascade
effective_ignored all_repos per_repo =
    collect_ignored (for_repo_cascade "" all_repos per_repo) no_ignored

-- ===== src/Plan/Cascade/Precedence.antt =====
-- What `resolveCascade` finds for a name, against the precedence rules that plan.go states in prose.
use ghsecretman.Base.{
  String, Option, none, some, List, [], ◌∷◌, ◌≡◌, refl, arith, contains, false, if◌then◌else◌,
}
use ghsecretman.Base.Maps.{
  Map, Set, lookup, has, insert, NodupKeys, lookup-insert, insert-NodupKeys, has-add_all,
}
use ghsecretman.Config.{Entry, Repo}
use ghsecretman.Plan.{Kind, action_managed, action_ignored, managed_for, ignored_for}
use ghsecretman.Plan.Cascade.{
  CascadeWinner, winner, string_set, own_managed, own_ignored, shared_managed, shared_ignored,
  resolve_cascade,
}

-- The rules, for one name: the per-repo entry, then the per-repo ignored list, then the all-repos
-- entry, then the all-repos ignored list.
abbrev pub precedence : Option Repo → Option Repo → Kind → String → Option CascadeWinner
precedence all_repos per_repo kind n = elim (lookup n (managed_for per_repo kind)) [
  | some e ↦ some (winner action_managed (some e) (has n (managed_for all_repos kind)) false)
  | none ↦
      if contains (ignored_for per_repo kind) n
      then some (winner action_ignored none false (has n (managed_for all_repos kind)))
      else elim (lookup n (managed_for all_repos kind)) [
        | some e ↦ some (winner action_managed (some e) false false)
        | none ↦
            if contains (ignored_for all_repos kind) n
            then some (winner action_ignored none false false)
            else none
      ]
]

has-string_set : (l : List String) (k : String) → has k (string_set l) ≡ contains l k
unfolding string_set
has-string_set l k = ground (arith, has-add_all l [] k)

lookup-own_managed :
    (ar pr : Map Entry) (acc : Map CascadeWinner) (k : String)
    → NodupKeys pr
    → lookup k (own_managed ar pr acc) ≡ elim (lookup k pr) [
      | none ↦ lookup k acc
      | some e ↦ some (winner action_managed (some e) (has k ar) false)
    ]
unfolding own_managed
lookup-own_managed ar [] acc k u = refl
lookup-own_managed ar ((n, e) ∷ pr) acc k (fresh, u) =
    let w = winner action_managed (some e) (has n ar) false in
    ground (arith, lookup-own_managed ar pr (insert n w acc) k u, lookup-insert k n w acc)

lookup-own_ignored :
    (ar : Map Entry) (l : List String) (acc : Map CascadeWinner) (k : String)
    → lookup k (own_ignored ar l acc) ≡ elim (lookup k acc) [
      | some w ↦ some w
      | none ↦ if contains l k then some (winner action_ignored none false (has k ar)) else none
    ]
unfolding own_ignored
lookup-own_ignored ar [] acc k = ground arith
lookup-own_ignored ar (n ∷ l) acc k =
    let w = winner action_ignored none false (has n ar) in
    ground (
      arith,
      lookup-own_ignored ar l acc k,
      lookup-own_ignored ar l (insert n w acc) k,
      lookup-insert k n w acc,
    )

lookup-shared_managed :
    (ig : Set) (ar : Map Entry) (acc : Map CascadeWinner) (k : String)
    → lookup k (shared_managed ig ar acc) ≡ elim (lookup k acc) [
      | some w ↦ some w
      | none ↦ if has k ig then none else elim (lookup k ar) [
        | some e ↦ some (winner action_managed (some e) false false)
        | none ↦ none
      ]
    ]
unfolding shared_managed
lookup-shared_managed ig [] acc k = ground arith
lookup-shared_managed ig ((n, e) ∷ ar) acc k =
    let w = winner action_managed (some e) false false in
    ground (
      arith,
      lookup-shared_managed ig ar acc k,
      lookup-shared_managed ig ar (insert n w acc) k,
      lookup-insert k n w acc,
    )

lookup-shared_ignored :
    (l : List String) (acc : Map CascadeWinner) (k : String)
    → lookup k (shared_ignored l acc) ≡ elim (lookup k acc) [
      | some w ↦ some w
      | none ↦ if contains l k then some (winner action_ignored none false false) else none
    ]
unfolding shared_ignored
lookup-shared_ignored [] acc k = ground arith
lookup-shared_ignored (n ∷ l) acc k =
    let w = winner action_ignored none false false in
    ground (
      arith,
      lookup-shared_ignored l acc k,
      lookup-shared_ignored l (insert n w acc) k,
      lookup-insert k n w acc,
    )

-- For every kind and name, the map that the four loops of `resolveCascade` build holds exactly what
-- the precedence rules name, provided that the per-repo managed block is a map (no key twice).
pub resolve_cascade-precedence :
    (all_repos per_repo : Option Repo) (kind : Kind) (n : String)
    → NodupKeys (managed_for per_repo kind)
    → lookup n (resolve_cascade all_repos per_repo kind) ≡ precedence all_repos per_repo kind n
unfolding resolve_cascade
resolve_cascade-precedence all_repos per_repo kind n u =
    let ar = managed_for all_repos kind in
    let pr = managed_for per_repo kind in
    let ig = ignored_for per_repo kind in
    let first = own_managed ar pr [] in
    let second = own_ignored ar ig first in
    let third = shared_managed (string_set ig) ar second in
    ground (
      arith,
      lookup-own_managed ar pr [] n u,
      lookup-own_ignored ar ig first n,
      lookup-shared_managed (string_set ig) ar second n,
      lookup-shared_ignored (ignored_for all_repos kind) third n,
      has-string_set ig n,
    )

own_managed-NodupKeys :
    (ar pr : Map Entry) (acc : Map CascadeWinner)
    → NodupKeys acc
    → NodupKeys (own_managed ar pr acc)
unfolding own_managed
own_managed-NodupKeys ar [] acc u = u
own_managed-NodupKeys ar ((n, e) ∷ pr) acc u =
    own_managed-NodupKeys ar pr _ (insert-NodupKeys n _ acc u)

own_ignored-NodupKeys :
    (ar : Map Entry) (l : List String) (acc : Map CascadeWinner)
    → NodupKeys acc
    → NodupKeys (own_ignored ar l acc)
unfolding own_ignored
own_ignored-NodupKeys ar [] acc u = u
own_ignored-NodupKeys ar (n ∷ l) acc u =
    own_ignored-NodupKeys ar l _
      (ground (arith, insert-NodupKeys n (winner action_ignored none false (has n ar)) acc u))

shared_managed-NodupKeys :
    (ig : Set) (ar : Map Entry) (acc : Map CascadeWinner)
    → NodupKeys acc
    → NodupKeys (shared_managed ig ar acc)
unfolding shared_managed
shared_managed-NodupKeys ig [] acc u = u
shared_managed-NodupKeys ig ((n, e) ∷ ar) acc u =
    shared_managed-NodupKeys ig ar _
      (ground (arith, insert-NodupKeys n (winner action_managed (some e) false false) acc u))

shared_ignored-NodupKeys :
    (l : List String) (acc : Map CascadeWinner) → NodupKeys acc → NodupKeys (shared_ignored l acc)
unfolding shared_ignored
shared_ignored-NodupKeys [] acc u = u
shared_ignored-NodupKeys (n ∷ l) acc u =
    shared_ignored-NodupKeys l _
      (ground (arith, insert-NodupKeys n (winner action_ignored none false false) acc u))

pub resolve_cascade-NodupKeys :
    (all_repos per_repo : Option Repo) (kind : Kind)
    → NodupKeys (resolve_cascade all_repos per_repo kind)
unfolding resolve_cascade
resolve_cascade-NodupKeys all_repos per_repo kind =
    shared_ignored-NodupKeys _ _ (
      shared_managed-NodupKeys _ _ _
        (own_ignored-NodupKeys _ _ _ (own_managed-NodupKeys _ _ [] tt)))

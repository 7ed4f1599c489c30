-- ===== src/Plan/Cascade/Order.antt =====
-- The order in which `range` visits a map, which Go leaves open, does not show in a plan.
use ghsecretman.Plan.Cascade.Intents.{contains-names_of, names_of-IsUnique}
use ghsecretman.Base.Sort.{sort_strings-eq_of_same, sort_strings}
use ghsecretman.Plan.Cascade.Precedence.{
  resolve_cascade-precedence, resolve_cascade-NodupKeys, precedence,
}
use ghsecretman.Config.{Repo}
use ghsecretman.Base.Maps.{SameMap, Map}
use ghsecretman.Plan.Cascade.{
  names_of, ignored_rows, resolve_cascade, managed_rows, CascadeWinner, append_cascade_kind,
  for_repo_cascade,
}
use ghsecretman.Base.{
  String, Bool, true, false, Option, List, [], ◌∷◌, ◌≡◌, refl, sym, ◌∙◌, contains, arith,
}
use ghsecretman.Plan.{
  ignored_for, managed_for, Intent, Kind, kind_var, kind_secret, kind_dependabot,
}

-- Blocks that hold the same maps, and ignored lists with the same names.
pub record SameRepo (r r' : Option Repo) : Type 0 where
  pub managed : (k : Kind) → SameMap (managed_for r k) (managed_for r' k)
  pub ignored :
      (k : Kind) (n : String) → contains (ignored_for r k) n ≡ contains (ignored_for r' k) n

precedence-SameRepo :
    {ar ar' pr pr' : Option Repo}
    → SameRepo ar ar'
    → SameRepo pr pr'
    → (k : Kind) (n : String) → precedence ar pr k n ≡ precedence ar' pr' k n
precedence-SameRepo a p k n =
    ground (arith, (p.managed k).same n, (a.managed k).same n, a.ignored k n, p.ignored k n)

resolve_cascade-SameMap :
    {ar ar' pr pr' : Option Repo}
    → SameRepo ar ar'
    → SameRepo pr pr'
    → (k : Kind) → SameMap (resolve_cascade ar pr k) (resolve_cascade ar' pr' k)
resolve_cascade-SameMap {ar} {ar'} {pr} {pr'} a p k = record {
  left_keys = resolve_cascade-NodupKeys ar pr k;
  right_keys = resolve_cascade-NodupKeys ar' pr' k;
  same = λ n.
      resolve_cascade-precedence ar pr k n (p.managed k).left_keys
      ∙ precedence-SameRepo a p k n
      ∙ sym (resolve_cascade-precedence ar' pr' k n (p.managed k).right_keys);
}

names_of-SameMap :
    (c : Bool) {m m' : Map CascadeWinner}
    → SameMap m m'
    → sort_strings (names_of c m) ≡ sort_strings (names_of c m')
names_of-SameMap c {m} {m'} s =
    sort_strings-eq_of_same (names_of c m) (names_of c m') (names_of-IsUnique c m s.left_keys)
      (names_of-IsUnique c m' s.right_keys)
      (λ n.
        contains-names_of c m n s.left_keys
        ∙ rw (s.same n) (sym (contains-names_of c m' n s.right_keys)))

module _ (repo : String) (kind : Kind) {m m' : Map CascadeWinner} (s : SameMap m m') where
  managed_rows-SameMap :
      (names : List String) → managed_rows repo kind m names ≡ managed_rows repo kind m' names
  unfolding managed_rows
  managed_rows-SameMap [] = refl
  managed_rows-SameMap (n ∷ names) = rw (s.same n, managed_rows-SameMap names) refl

  ignored_rows-SameMap :
      (names : List String) → ignored_rows repo kind m names ≡ ignored_rows repo kind m' names
  unfolding ignored_rows
  ignored_rows-SameMap [] = refl
  ignored_rows-SameMap (n ∷ names) = rw (s.same n, ignored_rows-SameMap names) refl

append_cascade_kind-SameRepo :
    (out : List Intent) (repo : String) (k : Kind) {ar ar' pr pr' : Option Repo}
    → SameRepo ar ar'
    → SameRepo pr pr'
    → append_cascade_kind out repo k ar pr ≡ append_cascade_kind out repo k ar' pr'
unfolding append_cascade_kind
append_cascade_kind-SameRepo out repo k a p =
    let s = resolve_cascade-SameMap a p k in
    rw
      (
        names_of-SameMap true s,
        names_of-SameMap false s,
        managed_rows-SameMap repo k s _,
        ignored_rows-SameMap repo k s _,
      )
      refl

-- `ForRepoCascade` gives the same list of intents for blocks whose managed maps are the same Go maps
-- and whose ignored lists have the same names, in whatever order the maps are visited and the lists
-- are written.
pub for_repo_cascade-SameRepo :
    (repo : String) {ar ar' pr pr' : Option Repo}
    → SameRepo ar ar'
    → SameRepo pr pr'
    → for_repo_cascade repo ar pr ≡ for_repo_cascade repo ar' pr'
unfolding for_repo_cascade
for_repo_cascade-SameRepo repo a p =
    rw
      (
        append_cascade_kind-SameRepo [] repo kind_var a p,
        append_cascade_kind-SameRepo _ repo kind_secret a p,
        append_cascade_kind-SameRepo _ repo kind_dependabot a p,
      )
      refl

-- ===== src/Plan/Cascade/Intents.antt =====
-- The intents of `ForRepoCascade`, name by name.
use ghsecretman.Base.{
  String, Bool, true, false, not, Option, none, some, List, [], ◌∷◌, ◌++◌, ◌≡◌, refl, ◌∙◌, ap,
  arith, contains, ◌&&◌, ◌⊎◌, inl, inr, Option-cases, if◌then◌else◌,
}
use ghsecretman.Base.Maps.{Map, lookup, NodupKeys}
use ghsecretman.Base.Sort.{sort_strings, IsUnique, sort_strings-IsUnique, contains-sort_strings}
use ghsecretman.Config.{Repo}
use ghsecretman.Plan.{
  Kind, kind_var, kind_secret, kind_dependabot, kind_eq, action_managed, action_ignored, is_managed,
  Intent, repo_intent, managed_for, select, one_kind,
}
use ghsecretman.Plan.Cascade.{
  CascadeWinner, or_zero, winner_at, names_of, managed_rows, ignored_rows, resolve_cascade,
  append_cascade_kind, for_repo_cascade,
}
use ghsecretman.Plan.Cascade.Precedence.{
  precedence, resolve_cascade-precedence, resolve_cascade-NodupKeys,
}

pub select-append :
    (k : Kind) (n : String) (is js : List Intent)
    → select k n (is ++ js) ≡ select k n is ++ select k n js
select-append k n [] js = refl
select-append k n (i ∷ is) js = ground (arith, select-append k n is js)

abbrev pub managed_at : Option CascadeWinner → Bool
managed_at none = false
managed_at (some w) = is_managed w.action

abbrev pub ignored_at : Option CascadeWinner → Bool
ignored_at none = false
ignored_at (some w) = not (is_managed w.action)

pub contains-names_of :
    (b : Bool) (m : Map CascadeWinner) (n : String)
    → NodupKeys m
    → contains (names_of b m) n ≡ (if b then managed_at (lookup n m) else ignored_at (lookup n m))
unfolding names_of
contains-names_of true [] n u = refl
contains-names_of false [] n u = refl
contains-names_of true ((j, w) ∷ m) n (fresh, u) =
    ground (arith, contains-names_of true m n u, contains-names_of true m j u)
contains-names_of false ((j, w) ∷ m) n (fresh, u) =
    ground (arith, contains-names_of false m n u, contains-names_of false m j u)

pub names_of-IsUnique : (b : Bool) (m : Map CascadeWinner) → NodupKeys m → IsUnique (names_of b m)
unfolding names_of
names_of-IsUnique true [] u = tt
names_of-IsUnique false [] u = tt
names_of-IsUnique true ((j, w) ∷ m) (fresh, u) =
    ground (arith, names_of-IsUnique true m u, contains-names_of true m j u)
names_of-IsUnique false ((j, w) ∷ m) (fresh, u) =
    ground (arith, names_of-IsUnique false m u, contains-names_of false m j u)

abbrev managed_row : String → Kind → String → CascadeWinner → Intent
managed_row repo kind n w =
    repo_intent repo kind n action_managed w.entry w.overrides_all_repos false

abbrev ignored_row : String → Kind → String → CascadeWinner → Intent
ignored_row repo kind n w =
    repo_intent repo kind n action_ignored none false w.shields_all_repos_managed

module _ (repo : String) (kind : Kind) (r : Map CascadeWinner) (k : Kind) (n : String) where
  select-managed_rows :
      (names : List String)
      → IsUnique names
      → select k n (managed_rows repo kind r names) ≡ (
          if kind_eq k kind && contains names n
          then managed_row repo kind n (winner_at r n) ∷ []
          else [])
  unfolding managed_rows
  select-managed_rows [] u = ground arith
  select-managed_rows (x ∷ names) (fresh, u) = ground (arith, select-managed_rows names u)

  select-ignored_rows :
      (names : List String)
      → IsUnique names
      → select k n (ignored_rows repo kind r names) ≡ (
          if kind_eq k kind && contains names n
          then ignored_row repo kind n (winner_at r n) ∷ []
          else [])
  unfolding ignored_rows
  select-ignored_rows [] u = ground arith
  select-ignored_rows (x ∷ names) (fresh, u) = ground (arith, select-ignored_rows names u)

-- The intent that carries a winner out.
abbrev pub intent_of : String → Kind → String → CascadeWinner → Intent
intent_of repo k n w =
    repo_intent repo k n w.action w.entry w.overrides_all_repos w.shields_all_repos_managed

abbrev pub planned : String → Kind → String → Option CascadeWinner → List Intent
planned repo k n none = []
planned repo k n (some w) = intent_of repo k n w ∷ []

-- The fields that a winner of either action leaves at their zero values.
abbrev pub IsShaped : Option CascadeWinner → Type 0
IsShaped none = Unit
IsShaped (some w) =
    (w.action ≡ action_managed) × (w.shields_all_repos_managed ≡ false)
    ⊎ (w.action ≡ action_ignored) × (w.entry ≡ none) × (w.overrides_all_repos ≡ false)

pub precedence-IsShaped :
    (ar pr : Option Repo) (k : Kind) (n : String) → IsShaped (precedence ar pr k n)
precedence-IsShaped ar pr k n = elim (Option-cases (lookup n (managed_for pr k))) [
  | inl absent ↦ rw (absent, precedence) (ground arith)
  | inr (e, found) ↦ rw (found, precedence) (inl (refl, refl))
]

two_rows :
    (repo : String) (kind : Kind) (n : String) (b : Bool) (o : Option CascadeWinner)
    → IsShaped o
    → (if b && managed_at o then managed_row repo kind n (or_zero o) ∷ [] else [])
        ++ (if b && ignored_at o then ignored_row repo kind n (or_zero o) ∷ [] else [])
      ≡ (if b then planned repo kind n o else [])
two_rows repo kind n b none h = ground arith
two_rows repo kind n b (some w) h = ground arith

module _ (repo : String) (kind : Kind) (ar pr : Option Repo) (k : Kind) (n : String) where
  abbrev rows : Map CascadeWinner → List Intent
  rows r =
      managed_rows repo kind r (sort_strings (names_of true r))
      ++ ignored_rows repo kind r (sort_strings (names_of false r))

  select-rows :
      NodupKeys (managed_for pr kind)
      → select k n (rows (resolve_cascade ar pr kind))
        ≡ (if kind_eq k kind then planned repo kind n (precedence ar pr kind n) else [])
  select-rows u =
      let r = resolve_cascade ar pr kind in
      let nodup = resolve_cascade-NodupKeys ar pr kind in
      let own = names_of true r in
      let others = names_of false r in
      select-append k n (managed_rows repo kind r (sort_strings own)) _
      ∙ rw
          (
            select-managed_rows repo kind r k n (sort_strings own)
                (sort_strings-IsUnique own (names_of-IsUnique true r nodup)),
            select-ignored_rows repo kind r k n (sort_strings others)
                (sort_strings-IsUnique others (names_of-IsUnique false r nodup)),
            contains-sort_strings own n,
            contains-sort_strings others n,
            contains-names_of true r n nodup,
            contains-names_of false r n nodup,
            resolve_cascade-precedence ar pr kind n u,
          )
          (two_rows repo kind n (kind_eq k kind) _ (precedence-IsShaped ar pr kind n))

  -- The rows that one call of `appendCascadeKind` adds, for one kind and name.
  select-append_cascade_kind :
      (out : List Intent)
      → NodupKeys (managed_for pr kind)
      → select k n (append_cascade_kind out repo kind ar pr)
        ≡ select k n out
          ++ (if kind_eq k kind then planned repo kind n (precedence ar pr kind n) else [])
  unfolding append_cascade_kind
  select-append_cascade_kind out u =
      select-append k n out (rows (resolve_cascade ar pr kind))
      ∙ ap (λ is. select k n out ++ is) (select-rows u)

-- For every kind and name, `ForRepoCascade` returns the one intent that the precedence rules name,
-- and none where they name none, provided that the per-repo managed blocks are maps.
pub for_repo_cascade-precedence :
    (repo : String) (ar pr : Option Repo) (k : Kind) (n : String)
    → ((kind : Kind) → NodupKeys (managed_for pr kind))
    → select k n (for_repo_cascade repo ar pr) ≡ planned repo k n (precedence ar pr k n)
unfolding for_repo_cascade
for_repo_cascade-precedence repo ar pr k n u =
    let vars = append_cascade_kind [] repo kind_var ar pr in
    let secrets = append_cascade_kind vars repo kind_secret ar pr in
    rw
      (
        select-append_cascade_kind repo kind_dependabot ar pr k n secrets (u kind_dependabot),
        select-append_cascade_kind repo kind_secret ar pr k n vars (u kind_secret),
        select-append_cascade_kind repo kind_var ar pr k n [] (u kind_var),
      )
      (one_kind k (λ kind. planned repo kind n (precedence ar pr kind n)))

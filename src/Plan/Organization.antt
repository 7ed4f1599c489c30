-- ===== src/Plan/Organization.antt =====
-- internal/plan/plan.go: the plan of an organization's own objects.
use ghsecretman.Base.{
  ℕ, zero, suc, String, true, false, Option, none, some, List, [], ◌∷◌, ◌++◌, ◌≡◌, refl, ◌∙◌, ap,
  arith, contains, ◌&&◌, ◌==◌, if◌then◌else◌,
}
use ghsecretman.Base.Maps.{Map, lookup, keys, NodupKeys, contains-keys, keys-IsUnique}
use ghsecretman.Base.Sort.{
  sort_strings, put_in, IsUnique, sort_strings-IsUnique, contains-sort_strings,
}
use ghsecretman.Config.{Ignored, OrgEntry, OrgScope}
use ghsecretman.Plan.{
  Kind, kind_var, kind_secret, kind_dependabot, kind_eq, action_managed, action_ignored, Intent,
  select, one_kind,
}
use ghsecretman.Plan.Cascade.Intents.{select-append}

abbrev pub org_managed_intent : Kind → String → OrgEntry → Intent
org_managed_intent kind n oe = record {
  repo = "";
  kind = kind;
  name = n;
  action = action_managed;
  entry = some oe.entry;
  overrides_all_repos = false;
  shields_all_repos_managed = false;
  is_org = true;
  visibility = oe.visibility;
  selected_repos = oe.repos;
}

abbrev pub org_ignored_intent : Kind → String → Intent
org_ignored_intent kind n = record {
  repo = "";
  kind = kind;
  name = n;
  action = action_ignored;
  entry = none;
  overrides_all_repos = false;
  shields_all_repos_managed = false;
  is_org = true;
  visibility = "";
  selected_repos = [];
}

-- The names are keys of the map, so that the second case does not occur.
org_managed_intents : Kind → Map OrgEntry → List String → List Intent
org_managed_intents kind m [] = []
org_managed_intents kind m (n ∷ names) =
    let rest = org_managed_intents kind m names in
    elim (lookup n m) [ some oe ↦ org_managed_intent kind n oe ∷ rest | none ↦ rest ]

org_ignored_intents : Kind → List String → List Intent
org_ignored_intents kind [] = []
org_ignored_intents kind (n ∷ names) = org_ignored_intent kind n ∷ org_ignored_intents kind names

unfoldable pub append_org_kind : List Intent → Kind → Map OrgEntry → List String → List Intent
unfolding org_managed_intents org_ignored_intents
append_org_kind out kind m ignored =
    out
    ++ (org_managed_intents kind m (sort_strings (keys m))
        ++ org_ignored_intents kind (sort_strings ignored))

unfoldable pub for_org : Option OrgScope → List Intent
unfolding append_org_kind
for_org none = []
for_org (some s) =
    let vars = append_org_kind [] kind_var s.managed.vars s.ignored.vars in
    let secrets = append_org_kind vars kind_secret s.managed.secrets s.ignored.secrets in
    append_org_kind secrets kind_dependabot s.managed.dependabot s.ignored.dependabot

abbrev pub effective_org_ignored : Option OrgScope → Ignored
effective_org_ignored none = record { vars = []; secrets = []; dependabot = [] }
effective_org_ignored (some s) = s.ignored

abbrev pub org_managed_for : Option OrgScope → Kind → Map OrgEntry
org_managed_for none kind = []
org_managed_for (some s) kind_var = s.managed.vars
org_managed_for (some s) kind_secret = s.managed.secrets
org_managed_for (some s) kind_dependabot = s.managed.dependabot

abbrev pub org_ignored_for : Option OrgScope → Kind → List String
org_ignored_for none kind = []
org_ignored_for (some s) kind_var = s.ignored.vars
org_ignored_for (some s) kind_secret = s.ignored.secrets
org_ignored_for (some s) kind_dependabot = s.ignored.dependabot

-- How often a list names a text.
abbrev pub occurrences : String → List String → ℕ
occurrences n [] = 0
occurrences n (x ∷ xs) = let rest = occurrences n xs in if n == x then suc rest else rest

abbrev pub repeat : ℕ → Intent → List Intent
repeat zero i = []
repeat (suc m) i = i ∷ repeat m i

-- What an organization's block wants of a managed name: the entry, the visibility and the repos that
-- the configuration gives, as an object of the organization and of no repo.
abbrev pub wanted_intent : Kind → String → OrgEntry → Intent
wanted_intent k n oe = record {
  repo = "";
  kind = k;
  name = n;
  action = action_managed;
  entry = some oe.entry;
  overrides_all_repos = false;
  shields_all_repos_managed = false;
  is_org = true;
  visibility = oe.visibility;
  selected_repos = oe.repos;
}

-- And of an ignored one.
abbrev pub unwanted_intent : Kind → String → Intent
unwanted_intent k n = record {
  repo = "";
  kind = k;
  name = n;
  action = action_ignored;
  entry = none;
  overrides_all_repos = false;
  shields_all_repos_managed = false;
  is_org = true;
  visibility = "";
  selected_repos = [];
}

-- What the rules of an organization say of one name: an intent with the settings of its entry where
-- the name is managed, and an intent for each time that it is ignored.
abbrev pub org_planned : Option OrgScope → Kind → String → List Intent
org_planned s k n =
    elim (lookup n (org_managed_for s k)) [ none ↦ [] | some oe ↦ wanted_intent k n oe ∷ [] ]
    ++ repeat (occurrences n (org_ignored_for s k)) (unwanted_intent k n)

occurrences-put_in :
    (n x : String) (l : List String) → occurrences n (put_in x l) ≡ occurrences n (x ∷ l)
unfolding put_in
occurrences-put_in n x [] = refl
occurrences-put_in n x (y ∷ l) = ground (arith, occurrences-put_in n x l)

occurrences-sort_strings :
    (n : String) (l : List String) → occurrences n (sort_strings l) ≡ occurrences n l
unfolding sort_strings
occurrences-sort_strings n [] = refl
occurrences-sort_strings n (x ∷ l) =
    occurrences-put_in n x (sort_strings l)
    ∙ ap (λ m. if n == x then suc m else m) (occurrences-sort_strings n l)

abbrev managed_row : Map OrgEntry → Kind → String → List Intent
managed_row m k n = elim (lookup n m) [ none ↦ [] | some oe ↦ org_managed_intent k n oe ∷ [] ]

module _ (kind k : Kind) (n : String) where
  select-org_managed_intents :
      (m : Map OrgEntry) (names : List String)
      → IsUnique names
      → select k n (org_managed_intents kind m names)
        ≡ (if kind_eq k kind && contains names n then managed_row m kind n else [])
  unfolding org_managed_intents
  select-org_managed_intents m [] u = ground arith
  select-org_managed_intents m (x ∷ names) (fresh, u) =
      ground (arith, select-org_managed_intents m names u)

  select-org_ignored_intents :
      (names : List String)
      → select k n (org_ignored_intents kind names)
        ≡ (if kind_eq k kind then repeat (occurrences n names) (org_ignored_intent kind n) else [])
  unfolding org_ignored_intents
  select-org_ignored_intents [] = ground arith
  select-org_ignored_intents (x ∷ names) = ground (arith, select-org_ignored_intents names)

  abbrev rows : Map OrgEntry → List String → List Intent
  rows m ignored =
      org_managed_intents kind m (sort_strings (keys m))
      ++ org_ignored_intents kind (sort_strings ignored)

  row_eq :
      (m : Map OrgEntry) (ignored : List String)
      → NodupKeys m
      → select k n (rows m ignored) ≡ (
          if kind_eq k kind
          then managed_row m kind n ++ repeat (occurrences n ignored) (org_ignored_intent kind n)
          else [])
  row_eq m ignored u =
      select-append k n (org_managed_intents kind m (sort_strings (keys m))) _
      ∙ rw
          (
            select-org_managed_intents m (sort_strings (keys m))
                (sort_strings-IsUnique (keys m) (keys-IsUnique m u)),
            select-org_ignored_intents (sort_strings ignored),
            contains-sort_strings (keys m) n,
            contains-keys m n,
            occurrences-sort_strings n ignored,
          )
          (ground arith)

  select-append_org_kind :
      (out : List Intent) (m : Map OrgEntry) (ignored : List String)
      → NodupKeys m
      → select k n (append_org_kind out kind m ignored)
        ≡ select k n out
          ++ (if kind_eq k kind
              then managed_row m kind n
                ++ repeat (occurrences n ignored) (org_ignored_intent kind n)
              else [])
  unfolding append_org_kind
  select-append_org_kind out m ignored u =
      select-append k n out (rows m ignored) ∙ ap (λ is. select k n out ++ is) (row_eq m ignored u)

-- For every kind and name, `ForOrg` returns the intents that the organization's block calls for: one
-- with the entry, the visibility and the repos of a managed name, and one for each time that the name
-- is in the ignored list, provided that the managed blocks are maps.
pub for_org-org_planned :
    (s : Option OrgScope) (k : Kind) (n : String)
    → ((kind : Kind) → NodupKeys (org_managed_for s kind))
    → select k n (for_org s) ≡ org_planned s k n
unfolding for_org
for_org-org_planned none k n u = refl
for_org-org_planned (some s) k n u =
    let vars = append_org_kind [] kind_var s.managed.vars s.ignored.vars in
    let secrets = append_org_kind vars kind_secret s.managed.secrets s.ignored.secrets in
    rw
      (
        select-append_org_kind kind_dependabot k n secrets s.managed.dependabot s.ignored.dependabot
            (u kind_dependabot),
        select-append_org_kind kind_secret k n vars s.managed.secrets s.ignored.secrets
            (u kind_secret),
        select-append_org_kind kind_var k n [] s.managed.vars s.ignored.vars (u kind_var),
      )
      (one_kind k (λ kind. org_planned (some s) kind n))

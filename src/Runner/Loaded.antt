-- ===== src/Runner/Loaded.antt =====
-- What the plans of a repo and of an organization of a loaded configuration can rely on.
use ghsecretman.Config.Orgs.Blocks.{IsValidOrgEntries}
use ghsecretman.Config.Orgs.Valid.{IsValidOrgEntry}
use ghsecretman.Config.Repos.Valid.{IsApart}
use ghsecretman.Plan.Organization.{
  for_org-org_planned, org_planned, occurrences, wanted_intent, for_org, org_ignored_for,
  org_managed_for,
}
use ghsecretman.Base.Maps.{lookup, empty-IsMapOf, NodupKeys}
use ghsecretman.Plan.Cascade.Precedence.{precedence}
use ghsecretman.Config.Entries.{IsValidEntry, IsValidEntries}
use ghsecretman.Plan.Cascade.{CascadeWinner}
use ghsecretman.Config.Load.{
  IsValidScope, IsValidOrg, load_bytes-IsValidConfig, load_bytes, IsValidConfig, IsValidShared,
}
use ghsecretman.Config.Yaml.{Yaml}
use ghsecretman.Config.{OrgEntry, OrgScope, org_of, Entry, Org, Config, Repo}
use ghsecretman.Runner.Target.{find_repo, lookup_target}
use ghsecretman.System.{System}
use ghsecretman.Base.{
  Returns, Returns-ok, String, true, Option, none, some, ◌≡◌, arith, ok, inl, inr, Option-cases,
  false, List, [], ◌∷◌, refl, ◌∙◌, contains, Bool-cases,
}
use ghsecretman.Plan.{select, managed_for, is_managed, Kind, kind_var, kind_secret, kind_dependabot}

abbrev IsValidTarget : Org × Option Repo → Type 0
IsValidTarget t = IsValidShared t.0.all_repos × IsValidShared t.1

find_repo-IsValidTarget :
    (sys : System) (org repo : String) (o : Org)
    → IsValidOrg o
    → Returns IsValidTarget (find_repo sys org repo o)
unfolding find_repo
find_repo-IsValidTarget sys org repo o valid = elim (Option-cases (lookup repo o.per_repo)) [
  | inr (r, found) ↦ rw (found, Returns) (valid.shared, valid.per_repo.each repo r found)
  | inl absent ↦ elim (Option-cases o.all_repos) [
    | inr (r, some_shared) ↦ rw (absent, Returns) (rw some_shared (valid.shared, tt))
    | inl no_shared ↦ rw (absent, no_shared, Returns) tt
  ]
]

target-IsValid :
    (sys : System) (cfg : Config) (org repo : String) (o : Org) (pr : Option Repo)
    → IsValidConfig cfg
    → lookup_target sys cfg org repo ≡ ok (o, pr)
    → IsValidShared o.all_repos × IsValidShared pr
unfolding lookup_target org_of
target-IsValid sys cfg org repo o pr valid found = elim (Option-cases (lookup org cfg.orgs)) [
  | inl absent ↦ absurd (ground arith)
  | inr (o', here) ↦
      Returns-ok IsValidTarget (find_repo sys org repo o') (o, pr)
        (find_repo-IsValidTarget sys org repo o' (valid.each org o' here)) (ground arith)
]

shared-managed_for :
    (r : Option Repo) (k : Kind) → IsValidShared r → IsValidEntries (managed_for r k)
shared-managed_for none k h = empty-IsMapOf IsValidEntry
shared-managed_for (some r) kind_var h = h.managed.vars
shared-managed_for (some r) kind_secret h = h.managed.secrets
shared-managed_for (some r) kind_dependabot h = h.managed.dependabot

-- A name that the precedence rules have managed carries its entry: that of the repo or that of all
-- repos, valid either way.
precedence-IsValidEntry :
    (ar pr : Option Repo) (k : Kind) (n : String) (w : CascadeWinner)
    → IsValidShared ar
    → IsValidShared pr
    → precedence ar pr k n ≡ some w
    → is_managed w.action ≡ true
    → (e : Entry) × (w.entry ≡ some e) × IsValidEntry n e
precedence-IsValidEntry ar pr k n w shared own p m =
    elim (Option-cases (lookup n (managed_for pr k))) [
      | inr (e, found) ↦ (e, ground arith, (shared-managed_for pr k own).each n e found)
      | inl absent ↦ elim (Option-cases (lookup n (managed_for ar k))) [
        | inr (e, found) ↦ (e, ground arith, (shared-managed_for ar k shared).each n e found)
        | inl absent' ↦ absurd (ground arith)
      ]
    ]

-- For a repo that is found in a loaded configuration, the per-repo managed blocks are maps, and
-- whatever name the precedence rules have managed comes with an entry that carries that name and has
-- exactly one source.
pub load_bytes-target :
    (sys : System) (y : Yaml) (bytes path : String) (cfg : Config) (org repo : String) (o : Org)
    (pr : Option Repo)
    → load_bytes sys y bytes path ≡ ok cfg
    → lookup_target sys cfg org repo ≡ ok (o, pr)
    → ((k : Kind) → NodupKeys (managed_for pr k))
      × ((k : Kind) (n : String) (w : CascadeWinner)
          → precedence o.all_repos pr k n ≡ some w
          → is_managed w.action ≡ true
          → (e : Entry) × (w.entry ≡ some e) × IsValidEntry n e)
load_bytes-target sys y bytes path cfg org repo o pr loaded found =
    let (shared, own) =
      target-IsValid sys cfg org repo o pr (load_bytes-IsValidConfig sys y bytes path cfg loaded)
        found in
    (
      λ k. (shared-managed_for pr k own).nodup,
      λ k n w p m. precedence-IsValidEntry o.all_repos pr k n w shared own p m,
    )

org_managed_for-IsValid :
    (s : Option OrgScope) (k : Kind) → IsValidScope s → IsValidOrgEntries (org_managed_for s k)
org_managed_for-IsValid none k h = empty-IsMapOf IsValidOrgEntry
org_managed_for-IsValid (some s) kind_var h = h.managed.vars
org_managed_for-IsValid (some s) kind_secret h = h.managed.secrets
org_managed_for-IsValid (some s) kind_dependabot h = h.managed.dependabot

org_managed_for-IsApart :
    (s : Option OrgScope) (k : Kind)
    → IsValidScope s
    → IsApart (org_managed_for s k) (org_ignored_for s k)
org_managed_for-IsApart none k h = λ n e. refl
org_managed_for-IsApart (some s) kind_var h = h.vars
org_managed_for-IsApart (some s) kind_secret h = h.secrets
org_managed_for-IsApart (some s) kind_dependabot h = h.dependabot

occurrences-absent : (n : String) (l : List String) → contains l n ≡ false → occurrences n l ≡ 0
occurrences-absent n [] h = refl
occurrences-absent n (x ∷ l) h = ground (arith, occurrences-absent n l)

-- A managed name of a block whose names are apart is planned once.
org_planned-managed :
    (s : Option OrgScope) (k : Kind) (n : String) (oe : OrgEntry)
    → IsApart (org_managed_for s k) (org_ignored_for s k)
    → lookup n (org_managed_for s k) ≡ some oe
    → org_planned s k n ≡ wanted_intent k n oe ∷ []
org_planned-managed s k n oe apart e = elim (Bool-cases (contains (org_ignored_for s k) n)) [
  | inl both ↦ absurd (ground (arith, apart n both))
  | inr free ↦ rw (e, occurrences-absent n (org_ignored_for s k) free) refl
]

-- For an organization of a loaded configuration, the managed blocks of its `org:` block are maps, each
-- entry of them carries its name and has exactly one source and a visibility that fits its list of
-- repos; and the plan that `ForOrg` makes of the block has for a managed name that name's one intent,
-- with its entry, visibility and repos.
pub load_bytes-org :
    (sys : System) (y : Yaml) (bytes path : String) (cfg : Config) (org : String) (o : Org)
    → load_bytes sys y bytes path ≡ ok cfg
    → org_of cfg org ≡ some o
    → (k : Kind)
    → NodupKeys (org_managed_for o.org_scope k)
      × ((n : String) (oe : OrgEntry)
          → lookup n (org_managed_for o.org_scope k) ≡ some oe
          → IsValidOrgEntry n oe × (select k n (for_org o.org_scope) ≡ wanted_intent k n oe ∷ []))
unfolding org_of
load_bytes-org sys y bytes path cfg org o loaded found k =
    let valid = ((load_bytes-IsValidConfig sys y bytes path cfg loaded).each org o found).scope in
    let entries = org_managed_for-IsValid o.org_scope k valid in
    let planned = for_org-org_planned o.org_scope k in
    let nodup : (j : Kind) → NodupKeys (org_managed_for o.org_scope j) =
      λ j. (org_managed_for-IsValid o.org_scope j valid).nodup in
    let apart = org_managed_for-IsApart o.org_scope k valid in
    (
      entries.nodup,
      λ n oe e.
          (entries.each n oe e, planned n nodup ∙ org_planned-managed o.org_scope k n oe apart e),
    )

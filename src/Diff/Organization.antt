-- ===== src/Diff/Organization.antt =====
-- `Compute` on the plan of an organization: the verdict on one kind and name.
use ghsecretman.Plan.Cascade.EffectiveIgnored.{ignored_list}
use ghsecretman.Plan.{kind_var, kind_secret, kind_dependabot}
use ghsecretman.Diff.{Entry}
use ghsecretman.Diff.Vars.{pick-compute_vars}
use ghsecretman.Diff.Rows.{pick}
use ghsecretman.Diff.Verdict.{is_live, managed_entry, IsLive}
use ghsecretman.Diff.Names.{pick-compute_names, pick-three, rows_for}
use ghsecretman.Diff.{
  compute_names, compute_vars, status_extra, status_ignored, override_managed, row, override_none,
  compute, Entry, Live,
}
use ghsecretman.Diff.Sets.{IsPlain, count_managed, any_shield, any_override, any_managed}
use ghsecretman.Base.Maps.{lookup, NodupKeys, has, Map}
use ghsecretman.Plan.Organization.{
  occurrences, org_managed_intent, effective_org_ignored, for_org, for_org-org_planned,
  org_managed_for, org_ignored_intent, org_ignored_for, repeat,
}
use ghsecretman.Plan.{one_kind, kind_var, kind_dependabot, kind_secret, select, Intent, Kind}
use ghsecretman.Config.{OrgEntry, OrgScope}
use ghsecretman.Base.{
  ◌≤◌, ℕ, zero, suc, String, Bool, true, false, not, Option, none, some, List, [], ◌∷◌, ◌++◌, ◌≡◌,
  refl, ◌∙◌, arith, if◌then◌else◌, contains,
}

-- What the organization's block says of a name: whether it is managed, and whether it is ignored.
abbrev pub is_org_managed : Option OrgScope → Kind → String → Bool
is_org_managed s k n = has n (org_managed_for s k)

abbrev pub is_org_ignored : Option OrgScope → Kind → String → Bool
is_org_ignored s k n = contains (org_ignored_for s k) n

-- The verdict on a name.
abbrev pub org_verdict : Kind → String → Map String → Live → Bool → Bool → List Entry
org_verdict k n desired live managed ignored =
    if managed
    then managed_entry "" k n desired live override_none ∷ []
    else if not (is_live live k n)
    then []
    else if ignored
    then row "" k n status_ignored override_none ∷ []
    else row "" k n status_extra override_none ∷ []

module _ (k : Kind) (n : String) where
  -- Ignored intents say nothing of managed ones, and shield nothing.
  abbrev IsSilent : List Intent → Type 0
  IsSilent is =
      (any_managed is ≡ false)
      × (any_override is ≡ false)
      × (any_shield is ≡ false)
      × (count_managed is ≡ 0)

  repeat-IsSilent : (m : ℕ) → IsSilent (repeat m (org_ignored_intent k n))
  repeat-IsSilent zero = (refl, refl, refl, refl)
  repeat-IsSilent (suc m) = repeat-IsSilent m

  facts_of :
      (o : Option OrgEntry) (m : ℕ)
      → let is =
          elim o [ none ↦ [] | some oe ↦ org_managed_intent k n oe ∷ [] ]
          ++ repeat m (org_ignored_intent k n) in
        (any_managed is ≡ elim o [ none ↦ false | some _ ↦ true ])
        × (any_override is ≡ false)
        × (any_shield is ≡ false)
        × (count_managed is ≤ 1)
  facts_of none m = let (a, b, c, d) = repeat-IsSilent m in (a, b, c, rw d (omega arith))
  facts_of (some oe) m = let (a, b, c, d) = repeat-IsSilent m in (refl, b, c, rw d (omega arith))

ignored_list-org :
    (s : Option OrgScope) (k : Kind)
    → ignored_list (effective_org_ignored s) k ≡ org_ignored_for s k
ignored_list-org none kind_var = refl
ignored_list-org none kind_secret = refl
ignored_list-org none kind_dependabot = refl
ignored_list-org (some s) kind_var = refl
ignored_list-org (some s) kind_secret = refl
ignored_list-org (some s) kind_dependabot = refl

rows_for-org_verdict :
    (k : Kind) (n : String) (desired : Map String) (live : Live) (m ig : Bool)
    → rows_for "" k n
        (managed_entry "" k n desired live override_none ∷ [])
        m
        false
        ig
        (is_live live k n)
      ≡ org_verdict k n desired live m ig
rows_for-org_verdict k n desired live m ig = ground arith

module _ (s : Option OrgScope) (desired : Map String) (live : Live)
    (u : (kind : Kind) → NodupKeys (org_managed_for s kind)) (l : IsLive live) where
  for_org-IsPlain : (k : Kind) → IsPlain k (for_org s)
  for_org-IsPlain k n =
      rw (for_org-org_planned s k n u)
        (facts_of k n (lookup n (org_managed_for s k)) (occurrences n (org_ignored_for s k))).3

  abbrev rows_at : Kind → String → List Entry
  rows_at k n =
      let is = select k n (for_org s) in
      rows_for "" k n
        (managed_entry "" k n desired live
            (if any_override is then override_managed else override_none)
          ∷ [])
        (any_managed is) (any_shield is) (contains (ignored_list (effective_org_ignored s) k) n)
        (is_live live k n)

  rows_at-org_verdict :
      (k : Kind) (n : String)
      → rows_at k n ≡ org_verdict k n desired live (is_org_managed s k n) (is_org_ignored s k n)
  rows_at-org_verdict k n =
      let (m, o, sh, c) =
        facts_of k n (lookup n (org_managed_for s k)) (occurrences n (org_ignored_for s k)) in
      rw (for_org-org_planned s k n u, m, o, sh, ignored_list-org s k)
        (rows_for-org_verdict k n desired live (is_org_managed s k n) (is_org_ignored s k n))

  -- For every kind and name, the rows of an audit of the org scope are the verdict on what the
  -- organization's own block says of that name, and no other block bears on it, provided that the
  -- managed blocks are maps and no live name is listed twice.
  pub compute-org_verdict :
      (k : Kind) (n : String)
      → pick k n (compute "" (for_org s) desired live (effective_org_ignored s))
        ≡ org_verdict k n desired live (is_org_managed s k n) (is_org_ignored s k n)
  unfolding compute
  compute-org_verdict k n =
      let is = for_org s in
      let ig = effective_org_ignored s in
      pick-three k k n (compute_vars "" is desired live ig)
        (compute_names "" kind_secret is live.secrets ig.secrets)
        (compute_names "" kind_dependabot is live.dependabot ig.dependabot)
      ∙ rw
          (
            pick-compute_vars "" k n is desired live ig (for_org-IsPlain kind_var) l.vars,
            pick-compute_names "" kind_secret k n is ig.secrets live.secrets
                (for_org-IsPlain kind_secret) l.secrets,
            pick-compute_names "" kind_dependabot k n is ig.dependabot live.dependabot
                (for_org-IsPlain kind_dependabot) l.dependabot,
          )
          (one_kind k (λ kind. rows_at kind n) ∙ rows_at-org_verdict k n)

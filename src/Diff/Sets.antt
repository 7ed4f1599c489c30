-- ===== src/Diff/Sets.antt =====
-- What `collectIntents` gathers, name by name.
use ghsecretman.Base.{
  ℕ, suc, ◌≤◌, String, Bool, false, List, [], ◌∷◌, ◌++◌, ◌≡◌, refl, ◌∙◌, arith, contains, ◌&&◌,
  ◌||◌, if◌then◌else◌,
}
use mathlib.Core.List.{append-nil, append_assoc}
use ghsecretman.Base.Maps.{has, NodupKeys, lookup-insert, insert-NodupKeys}
use ghsecretman.Base.Sort.{IsUnique, sort_strings-IsUnique, contains-sort_strings}
use ghsecretman.Plan.{Kind, kind_eq, is_managed, is_ignoring, Intent, select}
use ghsecretman.Diff.{IntentSets, collect_round, collect_loop, collect_intents, no_intents}

-- What the intents for one name say, in any order.
abbrev pub any_managed : List Intent → Bool
any_managed [] = false
any_managed (i ∷ is) = is_managed i.action || any_managed is

abbrev pub any_override : List Intent → Bool
any_override [] = false
any_override (i ∷ is) = is_managed i.action && i.overrides_all_repos || any_override is

abbrev pub any_shield : List Intent → Bool
any_shield [] = false
any_shield (i ∷ is) = is_ignoring i.action && i.shields_all_repos_managed || any_shield is

abbrev pub count_managed : List Intent → ℕ
count_managed [] = 0
count_managed (i ∷ is) = if is_managed i.action then suc (count_managed is) else count_managed is

-- No name is managed twice.
abbrev pub IsPlain : Kind → List Intent → Type 0
IsPlain kind intents = (n : String) → count_managed (select kind n intents) ≤ 1

module _ (kind : Kind) (n : String) where
  has-collect_loop_intended :
      (is : List Intent) (s : IntentSets)
      → has n (collect_loop kind is s).intended
        ≡ (has n s.intended || any_managed (select kind n is))
  unfolding collect_loop
  has-collect_loop_intended [] s = ground arith
  has-collect_loop_intended (i ∷ is) s = ground (
    arith,
    has-collect_loop_intended is s,
    has-collect_loop_intended is (collect_round i.action i s),
    lookup-insert n i.name tt s.intended,
  )

  has-collect_loop_override :
      (is : List Intent) (s : IntentSets)
      → has n (collect_loop kind is s).managed_override
        ≡ (has n s.managed_override || any_override (select kind n is))
  unfolding collect_loop
  has-collect_loop_override [] s = ground arith
  has-collect_loop_override (i ∷ is) s = ground (
    arith,
    has-collect_loop_override is s,
    has-collect_loop_override is (collect_round i.action i s),
    lookup-insert n i.name tt s.managed_override,
  )

  has-collect_loop_shield :
      (is : List Intent) (s : IntentSets)
      → has n (collect_loop kind is s).ignored_shield
        ≡ (has n s.ignored_shield || any_shield (select kind n is))
  unfolding collect_loop
  has-collect_loop_shield [] s = ground arith
  has-collect_loop_shield (i ∷ is) s = ground (
    arith,
    has-collect_loop_shield is s,
    has-collect_loop_shield is (collect_round i.action i s),
    lookup-insert n i.name tt s.ignored_shield,
  )

module _ (kind : Kind) where
  abbrev managed_names : List Intent → List String
  managed_names [] = []
  managed_names (i ∷ is) =
      let rest = managed_names is in
      if kind_eq i.kind kind && is_managed i.action then i.name ∷ rest else rest

  collect_loop-names :
      (is : List Intent) (s : IntentSets)
      → (collect_loop kind is s).intent_names ≡ s.intent_names ++ managed_names is
  unfolding collect_loop
  collect_loop-names [] s = rw append-nil
  collect_loop-names (i ∷ is) s = ground (
    arith,
    collect_loop-names is s,
    collect_loop-names is (collect_round i.action i s),
    append_assoc s.intent_names (i.name ∷ []) (managed_names is),
  )

  contains-managed_names :
      (is : List Intent) (n : String)
      → contains (managed_names is) n ≡ any_managed (select kind n is)
  contains-managed_names [] n = refl
  contains-managed_names (i ∷ is) n = ground (arith, contains-managed_names is n)

  any_managed-eq_of_count : (is : List Intent) → count_managed is ≤ 0 → any_managed is ≡ false
  any_managed-eq_of_count [] h = refl
  any_managed-eq_of_count (i ∷ is) h = ground (arith, any_managed-eq_of_count is)

  managed_names-IsUnique : (is : List Intent) → IsPlain kind is → IsUnique (managed_names is)
  managed_names-IsUnique [] h = tt
  managed_names-IsUnique (i ∷ is) h = ground (
    arith,
    h i.name,
    contains-managed_names is i.name,
    any_managed-eq_of_count (select kind i.name is),
    managed_names-IsUnique is (λ n. ground (arith, h n)),
  )

  collect_loop-shield_NodupKeys :
      (is : List Intent) (s : IntentSets)
      → NodupKeys s.ignored_shield
      → NodupKeys (collect_loop kind is s).ignored_shield
  unfolding collect_loop
  collect_loop-shield_NodupKeys [] s u = u
  collect_loop-shield_NodupKeys (i ∷ is) s u =
      collect_loop-shield_NodupKeys is _
        (ground (arith, insert-NodupKeys i.name tt s.ignored_shield u))

module _ (is : List Intent) (kind : Kind) where
  pub has-intended :
      (n : String) → has n (collect_intents is kind).intended ≡ any_managed (select kind n is)
  unfolding collect_intents
  has-intended n = has-collect_loop_intended kind n is no_intents

  pub has-managed_override :
      (n : String)
      → has n (collect_intents is kind).managed_override ≡ any_override (select kind n is)
  unfolding collect_intents
  has-managed_override n = has-collect_loop_override kind n is no_intents

  pub has-ignored_shield :
      (n : String) → has n (collect_intents is kind).ignored_shield ≡ any_shield (select kind n is)
  unfolding collect_intents
  has-ignored_shield n = has-collect_loop_shield kind n is no_intents

  pub ignored_shield-NodupKeys : NodupKeys (collect_intents is kind).ignored_shield
  unfolding collect_intents
  ignored_shield-NodupKeys = collect_loop-shield_NodupKeys kind is no_intents tt

  pub contains-intent_names :
      (n : String)
      → contains (collect_intents is kind).intent_names n ≡ any_managed (select kind n is)
  unfolding collect_intents
  contains-intent_names n =
      contains-sort_strings (collect_loop kind is no_intents).intent_names n
      ∙ rw (collect_loop-names kind is no_intents) (contains-managed_names kind is n)

  pub intent_names-IsUnique : IsPlain kind is → IsUnique (collect_intents is kind).intent_names
  unfolding collect_intents
  intent_names-IsUnique h =
      sort_strings-IsUnique (collect_loop kind is no_intents).intent_names
        (rw (collect_loop-names kind is no_intents) (managed_names-IsUnique kind is h))

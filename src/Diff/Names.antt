-- ===== src/Diff/Names.antt =====
-- `computeNames`, name by name: what a name of a kind gets, from what the plan and the live state
-- say of that name.
use ghsecretman.Base.{
  String, Bool, not, List, [], ◌∷◌, ◌++◌, ◌≡◌, ◌∙◌, ap, arith, contains, ◌&&◌, if◌then◌else◌,
}
use ghsecretman.Base.Maps.{Set, has, keys, add_all, has-add_all, contains-keys, keys-IsUnique}
use ghsecretman.Base.Sort.{sort_strings, IsUnique, sort_strings-IsUnique, contains-sort_strings}
use ghsecretman.Plan.{Kind, kind_eq, Intent, select}
use ghsecretman.Diff.{
  Entry, row, status_present, status_missing, status_extra, status_ignored, override_none,
  override_managed, override_ignored, not_in, shield_only_names, extra_name_entry, name_entry,
  rows_of, extra_rows, collect_intents, compute_names,
}
use ghsecretman.Diff.Sets.{
  any_managed, any_override, any_shield, IsPlain, has-intended, has-managed_override,
  has-ignored_shield, ignored_shield-NodupKeys, contains-intent_names, intent_names-IsUnique,
}
use ghsecretman.Diff.Rows.{
  pick, pick-append, pick-rows_of, contains-not_in, not_in-IsUnique, extra_row, extra_rows-rows_of,
  has-extra_rows,
}

-- The row of a name that is not intended: `ig` says that it is ignored, `sh` that it is shielded.
abbrev pub unplanned : String → Kind → String → Bool → Bool → Entry
unplanned repo kind n ig sh =
    if not ig
    then row repo kind n status_extra override_none
    else row repo kind n status_ignored (if sh then override_ignored else override_none)

-- The row of a shield that no live name has shown.
abbrev pub shield_row : String → Kind → String → Entry
shield_row repo kind n = row repo kind n status_ignored override_ignored

module _ (repo : String) (kind : Kind) (n : String) (intended : List Entry)
    (m sh ig live : Bool) where
  -- The rows for one name: the row of its intent, or that of a live name which no intent manages,
  -- and then the row of a shield that the second pass has not emitted.
  abbrev pub rows_for : List Entry
  rows_for =
      ((if m then intended else [])
        ++ (if live && not m then unplanned repo kind n ig sh ∷ [] else []))
      ++ (if sh && not (live && not m && ig && sh) then shield_row repo kind n ∷ [] else [])

-- The second and third loop of either function, over the sorted live names.
module _ (repo : String) (kind k : Kind) (n : String) (ignored : List String) (is : List Intent)
    (live : List String) where
  abbrev pub extra : String → Set → Entry × Set
  extra x = extra_name_entry repo kind x ignored (collect_intents is kind).ignored_shield

  abbrev pub tail : List Entry × Set
  tail = extra_rows extra (collect_intents is kind).intended (sort_strings live) []

  pub pick-tail :
      IsUnique live
      → pick k n tail.0 ≡ (
          if kind_eq k kind
          then (if contains live n && not (any_managed (select kind n is))
              then unplanned repo kind n (contains ignored n) (any_shield (select kind n is)) ∷ []
              else [])
          else [])
  pick-tail u =
      let s = collect_intents is kind in
      let names = not_in s.intended (sort_strings live) in
      let row_at = extra_row repo kind ignored s.ignored_shield s.intended in
      rw (extra_rows-rows_of repo kind ignored s.ignored_shield s.intended (sort_strings live) []) (
        pick-rows_of k kind n row_at names (λ x. ground arith)
          (not_in-IsUnique s.intended (sort_strings live) (sort_strings-IsUnique live u))
        ∙ ground (
          arith,
          contains-not_in s.intended (sort_strings live) n,
          contains-sort_strings live n,
          has-intended is kind n,
          has-ignored_shield is kind n,
        ))

  pub has-tail : has n tail.1 ≡ (
      contains live n
      && not (any_managed (select kind n is))
      && contains ignored n
      && any_shield (select kind n is))
  has-tail =
      let s = collect_intents is kind in
      has-extra_rows repo kind ignored s.ignored_shield s.intended n (sort_strings live) []
      ∙ rw (contains-sort_strings live n, has-intended is kind n, has-ignored_shield is kind n)

  abbrev pub shields : List String
  shields = shield_only_names (collect_intents is kind).ignored_shield tail.1

  pub pick-shields : pick k n (rows_of (shield_row repo kind) shields) ≡ (
      if kind_eq k kind
      then (if any_shield (select kind n is) && not (has n tail.1)
          then shield_row repo kind n ∷ []
          else [])
      else [])
  unfolding shield_only_names
  pick-shields =
      let s = collect_intents is kind in
      let left = not_in tail.1 (keys s.ignored_shield) in
      let unique =
        not_in-IsUnique tail.1 (keys s.ignored_shield)
          (keys-IsUnique s.ignored_shield (ignored_shield-NodupKeys is kind)) in
      pick-rows_of k kind n (shield_row repo kind) (sort_strings left) (λ x. ground arith)
        (sort_strings-IsUnique left unique)
      ∙ ground (
        arith,
        contains-sort_strings left n,
        contains-not_in tail.1 (keys s.ignored_shield) n,
        contains-keys s.ignored_shield n,
        has-ignored_shield is kind n,
      )

-- The three parts of the result, for one kind and name.
pub pick-three :
    (k kind : Kind) (n : String) (a b c : List Entry)
    → pick k n ((a ++ b) ++ c) ≡ (pick k n a ++ pick k n b) ++ pick k n c
pick-three k kind n a b c =
    pick-append k n (a ++ b) c ∙ ap (λ l. l ++ pick k n c) (pick-append k n a b)

module _ (repo : String) (kind k : Kind) (n : String) (is : List Intent)
    (ignored live : List String) where
  -- The row that the intent for a name gets.
  abbrev pub intended_row : List Entry
  intended_row =
      row repo kind n (if contains live n then status_present else status_missing)
        (if any_override (select kind n is) then override_managed else override_none)
      ∷ []

  abbrev intended_rows : List Entry
  intended_rows =
      let s = collect_intents is kind in
      rows_of (λ x. name_entry repo kind x (add_all live []) s.managed_override) s.intent_names

  pick-intended :
      IsPlain kind is
      → pick k n intended_rows ≡ (
          if kind_eq k kind
          then (if any_managed (select kind n is) then intended_row else [])
          else [])
  unfolding name_entry
  pick-intended p =
      let s = collect_intents is kind in
      pick-rows_of k kind n (λ x. name_entry repo kind x (add_all live []) s.managed_override)
        s.intent_names (λ x. ground arith) (intent_names-IsUnique is kind p)
      ∙ ground (
        arith,
        contains-intent_names is kind n,
        has-managed_override is kind n,
        has-add_all live [] n,
      )

  -- The rows of `computeNames` for any kind and name are given by what the intents for that name
  -- say, whether it is live and whether it is ignored, provided that no name is managed twice and
  -- no live name is listed twice.
  pub pick-compute_names :
      IsPlain kind is
      → IsUnique live
      → pick k n (compute_names repo kind is live ignored) ≡ (
          if kind_eq k kind
          then rows_for repo kind n intended_row
              (any_managed (select kind n is))
              (any_shield (select kind n is))
              (contains ignored n)
              (contains live n)
          else [])
  unfolding compute_names
  pick-compute_names p u =
      pick-three k kind n intended_rows (tail repo kind k n ignored is live).0
        (rows_of (shield_row repo kind) (shields repo kind k n ignored is live))
      ∙ rw
          (
            pick-intended p,
            pick-tail repo kind k n ignored is live u,
            pick-shields repo kind k n ignored is live,
            has-tail repo kind k n ignored is live,
          )
          (ground arith)

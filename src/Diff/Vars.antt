-- ===== src/Diff/Vars.antt =====
-- `computeVars`, name by name.
use ghsecretman.Base.{
  String, Option, none, some, List, [], ◌∷◌, ◌≡◌, ◌∙◌, arith, contains, ◌==◌, if◌then◌else◌,
}
use ghsecretman.Base.Maps.{
  Map, lookup, has, keys, NodupKeys, get_text, contains-keys, keys-IsUnique,
}
use ghsecretman.Config.{Ignored}
use ghsecretman.Plan.{Kind, kind_var, kind_eq, Intent, select}
use ghsecretman.Diff.{
  Entry, Live, row, Override, status_match, status_mismatch, status_missing, override_none,
  override_managed, extra_name_entry, extra_var_entry, var_entry, rows_of, collect_intents,
  compute_vars,
}
use ghsecretman.Diff.Sets.{
  any_managed, any_override, any_shield, IsPlain, has-managed_override, contains-intent_names,
  intent_names-IsUnique,
}
use ghsecretman.Diff.Rows.{pick, pick-rows_of}
use ghsecretman.Diff.Names.{
  rows_for, shield_row, pick-three, tail, shields, pick-tail, pick-shields, has-tail,
}

-- The row of a managed variable, from its desired and its live value.
abbrev pub value_row : String → String → String → Override → Option String → Entry
value_row repo n desired override none = row repo kind_var n status_missing override
value_row repo n desired override (some live) =
    if live == desired
    then row repo kind_var n status_match override
    else record (row repo kind_var n status_mismatch override) {
      desired_value = desired;
      live_value = live;
    }

module _ (repo : String) (k : Kind) (n : String) (is : List Intent) (desired : Map String)
    (live : Live) (ignored : Ignored) where
  abbrev pub intended_var : List Entry
  intended_var =
      value_row repo n (get_text n desired)
        (if any_override (select kind_var n is) then override_managed else override_none)
        (lookup n live.vars)
      ∷ []

  abbrev intended_vars : List Entry
  intended_vars =
      let s = collect_intents is kind_var in
      rows_of (λ x. var_entry repo x (get_text x desired) live.vars s.managed_override)
        s.intent_names

  pick-intended_vars :
      IsPlain kind_var is
      → pick k n intended_vars ≡ (
          if kind_eq k kind_var
          then (if any_managed (select kind_var n is) then intended_var else [])
          else [])
  unfolding var_entry
  pick-intended_vars p =
      let s = collect_intents is kind_var in
      pick-rows_of k kind_var n
        (λ x. var_entry repo x (get_text x desired) live.vars s.managed_override) s.intent_names
        (λ x. ground arith) (intent_names-IsUnique is kind_var p)
      ∙ ground (arith, contains-intent_names is kind_var n, has-managed_override is kind_var n)

  -- The rows of `computeVars` for any kind and name are given by what the intents for that variable
  -- say, its desired value, its live value and whether it is ignored, provided that no variable is
  -- managed twice and the live variables are a map.
  pub pick-compute_vars :
      IsPlain kind_var is
      → NodupKeys live.vars
      → pick k n (compute_vars repo is desired live ignored) ≡ (
          if kind_eq k kind_var
          then rows_for repo kind_var n intended_var
              (any_managed (select kind_var n is))
              (any_shield (select kind_var n is))
              (contains ignored.vars n)
              (has n live.vars)
          else [])
  unfolding compute_vars extra_name_entry extra_var_entry
  pick-compute_vars p u =
      let names = keys live.vars in
      pick-three k kind_var n intended_vars (tail repo kind_var k n ignored.vars is names).0
        (rows_of (shield_row repo kind_var) (shields repo kind_var k n ignored.vars is names))
      ∙ rw
          (
            pick-intended_vars p,
            pick-tail repo kind_var k n ignored.vars is names (keys-IsUnique live.vars u),
            pick-shields repo kind_var k n ignored.vars is names,
            has-tail repo kind_var k n ignored.vars is names,
            contains-keys live.vars n,
          )
          (ground arith)

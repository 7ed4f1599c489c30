-- ===== src/Config/Orgs/Valid.antt =====
-- What decoding an entry of an organization promises.
use mathlib.Core.Path.{subst}
use ghsecretman.Config.Yaml.{each_pair-kept, each_pair, Yaml}
use ghsecretman.Config.Entries.{validate_entry_sources-one, validate_entry_sources, IsValidEntry}
use ghsecretman.Config.Orgs.{
  empty_draft, decode_org_entry, org_entry_round, OrgDraft, with_scope, validate_org_visibility,
}
use ghsecretman.System.{System}
use ghsecretman.Config.{OrgEntry}
use ghsecretman.Base.{ok_injective, bind_ok, String, [], ◌≡◌, ◌≢◌, refl, sym, arith, ok, ◌⊎◌}

-- The visibility is one of three, and only a selected one comes with a list of repos, which is not
-- empty.
abbrev pub IsScoped : OrgEntry → Type 0
IsScoped oe =
    ((oe.visibility ≡ "all") ⊎ (oe.visibility ≡ "private")) × (oe.repos ≡ [])
    ⊎ (oe.visibility ≡ "selected") × (oe.repos ≢ [])

pub record IsValidOrgEntry (name : String) (oe : OrgEntry) : Type 0 where
  pub entry : IsValidEntry name oe.entry
  pub scoped : IsScoped oe

validate_org_visibility-IsScoped :
    (sys : System) (org section name : String) (oe : OrgEntry) (r : Unit)
    → validate_org_visibility sys org section name oe ≡ ok r
    → IsScoped oe
unfolding validate_org_visibility
validate_org_visibility-IsScoped sys org section name oe r h = ground arith

with_scope-entry : (d : OrgDraft) → (with_scope d).entry ≡ d.org_entry.entry
unfolding with_scope
with_scope-entry d = ground arith

module _ (sys : System) (y : Yaml) (base_dir org section name : String) where
  abbrev Named : OrgDraft → Type 0
  Named d = d.org_entry.entry.name ≡ name

  org_entry_round-Named :
      (k v : y.Node) (a b : OrgDraft)
      → Named a
      → org_entry_round sys y base_dir org section name k v a ≡ ok b
      → Named b
  org_entry_round-Named k v a b named h = ground arith

  -- An entry of an organization that is decoded carries its name and has exactly one source, and its
  -- visibility is all or private with no repos, or selected with at least one repo.
  pub decode_org_entry-IsValidOrgEntry :
      (n : y.Node) (oe : OrgEntry)
      → decode_org_entry sys y base_dir org section name n ≡ ok oe
      → IsValidOrgEntry name oe
  unfolding decode_org_entry
  decode_org_entry-IsValidOrgEntry n oe h =
      let round = org_entry_round sys y base_dir org section name in
      let (d, loop, rest) = bind_ok (each_pair round (y.content n) (empty_draft name)) _ oe h in
      let (r, one, rest') =
        bind_ok (validate_entry_sources sys _ _ name d.org_entry.entry) _ oe rest in
      let (r', seen, last) =
        bind_ok (validate_org_visibility sys org section name (with_scope d)) _ oe rest' in
      let named =
        each_pair-kept Named round org_entry_round-Named (y.content n) (empty_draft name) d refl
          loop in
      let valid : IsValidEntry name d.org_entry.entry = record {
        named = named;
        one_source = validate_entry_sources-one sys _ _ name d.org_entry.entry r one;
      } in
      let made : IsValidOrgEntry name (with_scope d) = record {
        entry = subst (IsValidEntry name) (sym (with_scope-entry d)) valid;
        scoped = validate_org_visibility-IsScoped sys org section name (with_scope d) r' seen;
      } in
      subst (IsValidOrgEntry name) (ok_injective (with_scope d) oe last) made

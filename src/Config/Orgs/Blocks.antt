-- ===== src/Config/Orgs/Blocks.antt =====
-- What decoding the `org:` block of an organization promises.
use mathlib.Core.Path.{subst}
use ghsecretman.Config.Repos.{conflict_loop, decode_ignored, no_names}
use ghsecretman.Config.Orgs.{
  org_conflict, org_entries_round, org_scope_round, check_org_managed_ignored_conflict,
  org_managed_round, decode_org_scope, decode_org_entries, decode_org_managed,
}
use ghsecretman.Config.Repos.Valid.{conflict_loop-IsApart, IsApart}
use ghsecretman.Config.Yaml.{each_pair, Returns-each_pair, Yaml}
use ghsecretman.Config.Orgs.Valid.{decode_org_entry-IsValidOrgEntry, IsValidOrgEntry}
use ghsecretman.System.{System}
use ghsecretman.Base.Maps.{insert-IsMapOf, IsMapOf, Map, empty-IsMapOf}
use ghsecretman.Config.{OrgEntry, OrgManaged, OrgScope}
use ghsecretman.Base.{
  ok_injective, Returns-ok, guard_ok, Returns-of, bind_ok, Returns-then, Returns-bind, Returns-if,
  Returns, String, ◌<>◌, not, [], ◌≡◌, ok, ◌==◌,
}

abbrev pub IsValidOrgEntries : Map OrgEntry → Type 0
IsValidOrgEntries = IsMapOf IsValidOrgEntry

pub record IsValidOrgManaged (m : OrgManaged) : Type 0 where
  pub vars : IsValidOrgEntries m.vars
  pub secrets : IsValidOrgEntries m.secrets
  pub dependabot : IsValidOrgEntries m.dependabot

pub record IsValidOrgScope (s : OrgScope) : Type 0 where
  pub managed : IsValidOrgManaged s.managed
  pub vars : IsApart s.managed.vars s.ignored.vars
  pub secrets : IsApart s.managed.secrets s.ignored.secrets
  pub dependabot : IsApart s.managed.dependabot s.ignored.dependabot

empty_org_managed-IsValidOrgManaged :
    IsValidOrgManaged (record { vars = []; secrets = []; dependabot = [] })
empty_org_managed-IsValidOrgManaged = record {
  vars = empty-IsMapOf IsValidOrgEntry;
  secrets = empty-IsMapOf IsValidOrgEntry;
  dependabot = empty-IsMapOf IsValidOrgEntry;
}

module _ (sys : System) (y : Yaml) (base_dir org : String) where
  entries_decoded :
      (section : String) (n : y.Node)
      → Returns IsValidOrgEntries (decode_org_entries sys y base_dir org section n)
  unfolding decode_org_entries
  entries_decoded section n =
      Returns-if IsValidOrgEntries (not (y.is_mapping n)) _ _ (λ _. tt)
        (λ _.
          Returns-each_pair IsValidOrgEntries (org_entries_round sys y base_dir org section)
            (λ k v m h.
              Returns-if IsValidOrgEntries (not (y.is_mapping v)) _ _ (λ _. tt)
                (λ _.
                  Returns-bind (IsValidOrgEntry (y.value k)) IsValidOrgEntries _ _
                    (Returns-of (IsValidOrgEntry (y.value k)) _
                      (decode_org_entry-IsValidOrgEntry sys y base_dir org section (y.value k) v))
                    (λ oe _ p. insert-IsMapOf IsValidOrgEntry (y.value k) oe m h p)))
            (y.content n) [] (empty-IsMapOf IsValidOrgEntry))

  org_managed_round-IsValidOrgManaged :
      (k v : y.Node) (a : OrgManaged)
      → IsValidOrgManaged a
      → Returns IsValidOrgManaged (org_managed_round sys y base_dir org k v a)
  org_managed_round-IsValidOrgManaged k v a h =
      Returns-if IsValidOrgManaged (y.value k == "vars") _ _
        (λ _.
          Returns-bind IsValidOrgEntries IsValidOrgManaged _ _ (entries_decoded "vars" v)
            (λ es _ p. record { vars = p; secrets = h.secrets; dependabot = h.dependabot }))
        (λ _.
          Returns-if IsValidOrgManaged (y.value k == "secrets") _ _
            (λ _.
              Returns-bind IsValidOrgEntries IsValidOrgManaged _ _ (entries_decoded "secrets" v)
                (λ es _ p. record { vars = h.vars; secrets = p; dependabot = h.dependabot }))
            (λ _.
              Returns-if IsValidOrgManaged (y.value k == "dependabot") _ _
                (λ _.
                  Returns-bind IsValidOrgEntries IsValidOrgManaged _ _
                    (entries_decoded "dependabot" v)
                    (λ es _ p. record { vars = h.vars; secrets = h.secrets; dependabot = p }))
                (λ _. tt)))

  managed_decoded :
      (n : y.Node) → Returns IsValidOrgManaged (decode_org_managed sys y base_dir org n)
  unfolding decode_org_managed
  managed_decoded n =
      Returns-if IsValidOrgManaged (not (y.is_mapping n)) _ _ (λ _. tt)
        (λ _.
          Returns-each_pair IsValidOrgManaged (org_managed_round sys y base_dir org)
            org_managed_round-IsValidOrgManaged (y.content n) _ empty_org_managed-IsValidOrgManaged)

  abbrev IsManaged : OrgScope → Type 0
  IsManaged s = IsValidOrgManaged s.managed

  org_scope_round-IsManaged :
      (k v : y.Node) (a : OrgScope)
      → IsManaged a
      → Returns IsManaged (org_scope_round sys y base_dir org k v a)
  org_scope_round-IsManaged k v a h =
      Returns-if IsManaged (y.value k == "managed") _ _
        (λ _. Returns-bind IsValidOrgManaged IsManaged _ _ (managed_decoded v) (λ m _ p. p))
        (λ _.
          Returns-if IsManaged (y.value k == "ignored") _ _
            (λ _.
              Returns-then IsManaged (decode_ignored sys y ("org " <> sys.quote org) v)
                (λ ig. ok (record a { ignored = ig })) (λ ig. h))
            (λ _. tt))

  pub decode_org_scope-IsValidOrgScope :
      (n : y.Node) (s : OrgScope) → decode_org_scope sys y base_dir org n ≡ ok s → IsValidOrgScope s
  unfolding decode_org_scope check_org_managed_ignored_conflict
  decode_org_scope-IsValidOrgScope n s h =
      let start : OrgScope = record {
        managed = record { vars = []; secrets = []; dependabot = [] };
        ignored = no_names;
      } in
      let (a, loop, rest) =
        bind_ok (each_pair (org_scope_round sys y base_dir org) (y.content n) start) _ s
          (guard_ok (not (y.is_mapping n)) _ _ s h) in
      let (u, checked, last) = bind_ok (check_org_managed_ignored_conflict sys org a) _ s rest in
      let (u1, vars, two) =
        bind_ok (conflict_loop (org_conflict sys org "vars") a.managed.vars a.ignored.vars) _ u
          checked in
      let (u2, secrets, dependabot) =
        bind_ok (conflict_loop (org_conflict sys org "secrets") a.managed.secrets a.ignored.secrets)
          _ u two in
      let made : IsValidOrgScope a = record {
        managed =
            Returns-ok IsManaged _ a
              (Returns-each_pair IsManaged (org_scope_round sys y base_dir org)
                org_scope_round-IsManaged (y.content n) start empty_org_managed-IsValidOrgManaged)
              loop;
        vars = conflict_loop-IsApart _ _ _ u1 vars;
        secrets = conflict_loop-IsApart _ _ _ u2 secrets;
        dependabot = conflict_loop-IsApart _ _ _ u dependabot;
      } in
      subst IsValidOrgScope (ok_injective a s last) made

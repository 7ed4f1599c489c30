-- ===== src/Config/Orgs.antt =====
-- The block of an organization: `decodeOrgEntry`, `decodeOrgEntries`, `decodeOrgManaged`,
-- `decodeOrgScope` and `decodeOrg`.
pub mod Valid
pub mod Blocks
use ghsecretman.Base.Maps.{insert, Map}
use ghsecretman.Config.Repos.{
  decode_string_list, decode_repo, decode_ignored, no_names, conflict_loop,
}
use ghsecretman.Config.Yaml.{each_pair, Yaml}
use ghsecretman.Config.Entries.{set_file, validate_entry_sources, set_env, set_value, empty_entry}
use ghsecretman.System.{System}
use ghsecretman.Config.{OrgManaged, Org, OrgScope, OrgEntry, Entry}
use ghsecretman.Base.{
  message, ◌>>=◌, Error, String, ◌<>◌, Bool, true, false, not, none, some, List, [], ◌∷◌, Result,
  ok, err, ◌||◌, ◌==◌, if◌then◌else◌,
}

-- The variables of `decodeOrgEntry`.
pub record OrgDraft : Type 0 where
  pub org_entry : OrgEntry
  pub has_scope : Bool

abbrev pub empty_draft : String → OrgDraft
empty_draft name = record {
  org_entry = record { entry = empty_entry name; visibility = ""; repos = [] };
  has_scope = false;
}

abbrev pub on_entry : (Entry → Entry) → OrgDraft → OrgDraft
on_entry f d = record d { org_entry = record d.org_entry { entry = f d.org_entry.entry } }

-- `len(xs) > 0`.
abbrev pub nonempty : {A : Type 0} → List A → Bool
nonempty [] = false
nonempty (x ∷ xs) = true

-- The last lines of `decodeOrgEntry` before its check of the visibility.
unfoldable pub with_scope : OrgDraft → OrgEntry
with_scope d = if d.has_scope then d.org_entry else record d.org_entry { visibility = "all" }

module _ (sys : System) where
  abbrev pub in_org : String → String → String
  in_org org text = "org " <> (sys.quote org <> (": " <> text))

  abbrev pub in_entry : String → String → String → String → Error
  in_entry org section name text =
      message (in_org org ("org.managed." <> (section <> ("." <> (name <> (": " <> text))))))

  unfoldable pub validate_org_visibility : String → String → String → OrgEntry → Result (Unit {0})
  validate_org_visibility org section name oe =
      if oe.visibility == "all" || oe.visibility == "private"
      then (if nonempty oe.repos
          then err (
              in_entry org section name
                ("repos may only be set when scope is " <> sys.quote "selected"))
          else ok tt)
      else if oe.visibility == "selected"
      then (if nonempty oe.repos
          then ok tt
          else err (
              in_entry org section name
                ("scope " <> (sys.quote "selected" <> " requires a non-empty repos list"))))
      else err (
          in_entry org section name
            ("scope must be one of all|private|selected (got " <> (sys.quote oe.visibility <> ")")))

  abbrev pub org_conflict : String → String → String → Error
  org_conflict org section name = message (
      in_org org (
        sys.quote name
        <> (" appears in both org.managed." <> (section <> (" and org.ignored." <> section)))))

  unfoldable pub check_org_managed_ignored_conflict : String → OrgScope → Result (Unit {0})
  check_org_managed_ignored_conflict org s =
      conflict_loop (org_conflict org "vars") s.managed.vars s.ignored.vars >>= λ _.
      conflict_loop (org_conflict org "secrets") s.managed.secrets s.ignored.secrets >>= λ _.
      conflict_loop (org_conflict org "dependabot") s.managed.dependabot s.ignored.dependabot

module _ (sys : System) (y : Yaml) where
  abbrev pub org_entry_round :
      String → String → String → String → y.Node → y.Node → OrgDraft → Result OrgDraft
  org_entry_round base_dir org section name k v d =
      if y.value k == "value"
      then ok (on_entry (set_value sys y v) d)
      else if y.value k == "env"
      then ok (on_entry (set_env sys y v) d)
      else if y.value k == "file"
      then ok (on_entry (set_file sys y base_dir v) d)
      else if y.value k == "scope"
      then ok
          (record { org_entry = record d.org_entry { visibility = y.value v }; has_scope = true })
      else if y.value k == "repos"
      then (decode_string_list sys y ("org " <> sys.quote org)
            ("org.managed." <> (section <> ("." <> (name <> ".repos")))) v
          >>= λ list. ok (record d { org_entry = record d.org_entry { repos = list } }))
      else err (in_entry sys org section name ("unknown key " <> sys.quote (y.value k)))

  unfoldable pub decode_org_entry : String → String → String → String → y.Node → Result OrgEntry
  unfolding with_scope
  decode_org_entry base_dir org section name n =
      each_pair (org_entry_round base_dir org section name) (y.content n) (empty_draft name)
      >>= λ d.
          validate_entry_sources sys ("org " <> sys.quote org) ("org.managed." <> section) name
            d.org_entry.entry
          >>= λ _.
              validate_org_visibility sys org section name (with_scope d) >>= λ _. ok (with_scope d)

  abbrev pub org_entries_round :
      String → String → String → y.Node → y.Node → Map OrgEntry → Result (Map OrgEntry)
  org_entries_round base_dir org section k v out =
      let name = y.value k in
      if not (y.is_mapping v)
      then err (
          message (
            in_org sys org (
              "org.managed."
              <> (section <> ("." <> (name <> " must use object form (got scalar)"))))))
      else decode_org_entry base_dir org section name v >>= λ oe. ok (insert name oe out)

  unfoldable pub decode_org_entries : String → String → String → y.Node → Result (Map OrgEntry)
  decode_org_entries base_dir org section n =
      if not (y.is_mapping n)
      then err (message (in_org sys org ("org.managed." <> (section <> " must be a mapping"))))
      else each_pair (org_entries_round base_dir org section) (y.content n) []

  abbrev pub org_managed_round : String → String → y.Node → y.Node → OrgManaged → Result OrgManaged
  org_managed_round base_dir org k v m =
      if y.value k == "vars"
      then (decode_org_entries base_dir org "vars" v >>= λ es. ok (record m { vars = es }))
      else if y.value k == "secrets"
      then (decode_org_entries base_dir org "secrets" v >>= λ es. ok (record m { secrets = es }))
      else if y.value k == "dependabot"
      then (decode_org_entries base_dir org "dependabot" v >>= λ es.
          ok (record m { dependabot = es }))
      else err (message (in_org sys org ("org.managed: unknown key " <> sys.quote (y.value k))))

  unfoldable pub decode_org_managed : String → String → y.Node → Result OrgManaged
  decode_org_managed base_dir org n =
      if not (y.is_mapping n)
      then err (message (in_org sys org "org.managed must be a mapping"))
      else each_pair (org_managed_round base_dir org) (y.content n)
          (record { vars = []; secrets = []; dependabot = [] })

  abbrev pub org_scope_round : String → String → y.Node → y.Node → OrgScope → Result OrgScope
  org_scope_round base_dir org k v s =
      if y.value k == "managed"
      then (decode_org_managed base_dir org v >>= λ m. ok (record s { managed = m }))
      else if y.value k == "ignored"
      then (decode_ignored sys y ("org " <> sys.quote org) v >>= λ ig.
          ok (record s { ignored = ig }))
      else err (message (in_org sys org ("org: unknown key " <> sys.quote (y.value k))))

  unfoldable pub decode_org_scope : String → String → y.Node → Result OrgScope
  decode_org_scope base_dir org n =
      if not (y.is_mapping n)
      then err (message (in_org sys org "org must be a mapping"))
      else (each_pair (org_scope_round base_dir org) (y.content n) (record {
        managed = record { vars = []; secrets = []; dependabot = [] };
        ignored = no_names;
      })
          >>= λ s. check_org_managed_ignored_conflict sys org s >>= λ _. ok s)

  -- The loop over the repos of `per-repo`.
  abbrev pub per_repo_round : String → y.Node → y.Node → Org → Result Org
  per_repo_round base_dir k v o = decode_repo sys y base_dir (y.value k) v >>= λ r.
      ok (record o { per_repo = insert (y.value k) r o.per_repo })

  abbrev pub org_round : String → String → y.Node → y.Node → Org → Result Org
  org_round base_dir org k v o =
      if y.value k == "per-repo"
      then (if not (y.is_mapping v)
          then err (message (in_org sys org "per-repo must be a mapping"))
          else each_pair (per_repo_round base_dir) (y.content v) o)
      else if y.value k == "all-repos"
      then (decode_repo sys y base_dir "all-repos" v >>= λ r. ok (record o { all_repos = some r }))
      else if y.value k == "org"
      then (decode_org_scope base_dir org v >>= λ s. ok (record o { org_scope = some s }))
      else err (message (in_org sys org ("unknown key " <> sys.quote (y.value k))))

  abbrev pub empty_org : Org
  empty_org = record { org_scope = none; all_repos = none; per_repo = [] }

  unfoldable pub decode_org : String → String → y.Node → Result Org
  decode_org base_dir org n =
      if not (y.is_mapping n)
      then err (message ("org " <> (sys.quote org <> " must be a mapping")))
      else each_pair (org_round base_dir org) (y.content n) empty_org

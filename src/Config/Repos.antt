-- ===== src/Config/Repos.antt =====
-- The blocks of a repo: `decodeStringList`, `decodeIgnored`, `decodeManaged`, the check that the two
-- blocks name no name twice, and `decodeRepo`.
pub mod Valid
use ghsecretman.Config.Entries.{decode_entries, in_repo}
use ghsecretman.Config.Yaml.{each_pair, Yaml}
use ghsecretman.Base.Maps.{has, Map}
use ghsecretman.System.{System}
use ghsecretman.Config.{Managed, Ignored, Repo}
use ghsecretman.Base.{
  ◌>>=◌, message, Error, String, ◌<>◌, not, List, [], ◌∷◌, ◌++◌, Result, ok, err, ◌==◌,
  if◌then◌else◌,
}

abbrev pub no_names : Ignored
no_names = record { vars = []; secrets = []; dependabot = [] }

abbrev pub empty_repo : Repo
empty_repo = record {
  managed = record { vars = []; secrets = []; dependabot = [] };
  ignored = no_names;
}

-- The loop over the names of one ignored list.
unfoldable pub conflict_loop :
    {V : Type 0} → (String → Error) → Map V → List String → Result (Unit {0})
conflict_loop conflict managed [] = ok tt
conflict_loop conflict managed (name ∷ names) =
    let rest = conflict_loop conflict managed names in
    if has name managed then err (conflict name) else rest

module _ (sys : System) where
  abbrev pub repo_conflict : String → String → String → Error
  repo_conflict repo section name = message (
      in_repo sys repo (
        sys.quote name
        <> (" appears in both managed." <> (section <> (" and ignored." <> section)))))

  unfoldable pub check_managed_ignored_conflict : String → Repo → Result (Unit {0})
  unfolding conflict_loop
  check_managed_ignored_conflict repo r =
      conflict_loop (repo_conflict repo "vars") r.managed.vars r.ignored.vars >>= λ _.
      conflict_loop (repo_conflict repo "secrets") r.managed.secrets r.ignored.secrets >>= λ _.
      conflict_loop (repo_conflict repo "dependabot") r.managed.dependabot r.ignored.dependabot

module _ (sys : System) (y : Yaml) where
  abbrev pub not_strings : String → String → Error
  not_strings ctx what = message (ctx <> (": " <> (what <> " must be a list of strings")))

  unfoldable pub string_list_loop :
      String → String → List y.Node → List String → Result (List String)
  string_list_loop ctx what [] out = ok out
  string_list_loop ctx what (item ∷ items) out =
      let rest = string_list_loop ctx what items (out ++ y.value item ∷ []) in
      if not (y.is_scalar item) then err (not_strings ctx what) else rest

  unfoldable pub decode_string_list : String → String → y.Node → Result (List String)
  unfolding string_list_loop
  decode_string_list ctx what n =
      if not (y.is_sequence n)
      then err (not_strings ctx what)
      else string_list_loop ctx what (y.content n) []

  -- The list is decoded before the key is looked at.
  abbrev pub set_ignored : String → String → List String → Ignored → Result Ignored
  set_ignored ctx key list ig =
      if key == "vars"
      then ok (record ig { vars = list })
      else if key == "secrets"
      then ok (record ig { secrets = list })
      else if key == "dependabot"
      then ok (record ig { dependabot = list })
      else err (message (ctx <> (": ignored: unknown key " <> sys.quote key)))

  abbrev pub ignored_round : String → y.Node → y.Node → Ignored → Result Ignored
  ignored_round ctx k v ig = decode_string_list ctx ("ignored." <> y.value k) v >>= λ list.
      set_ignored ctx (y.value k) list ig

  unfoldable pub decode_ignored : String → y.Node → Result Ignored
  decode_ignored ctx n =
      if not (y.is_mapping n)
      then err (message (ctx <> ": ignored must be a mapping"))
      else each_pair (ignored_round ctx) (y.content n) no_names

  abbrev pub managed_round : String → String → y.Node → y.Node → Managed → Result Managed
  managed_round base_dir repo k v m =
      if y.value k == "vars"
      then (decode_entries sys y base_dir repo "vars" v >>= λ es. ok (record m { vars = es }))
      else if y.value k == "secrets"
      then (decode_entries sys y base_dir repo "secrets" v >>= λ es. ok (record m { secrets = es }))
      else if y.value k == "dependabot"
      then (decode_entries sys y base_dir repo "dependabot" v >>= λ es.
          ok (record m { dependabot = es }))
      else err (message (in_repo sys repo ("managed: unknown key " <> sys.quote (y.value k))))

  unfoldable pub decode_managed : String → String → y.Node → Result Managed
  decode_managed base_dir repo n =
      if not (y.is_mapping n)
      then err (message (in_repo sys repo "managed must be a mapping"))
      else each_pair (managed_round base_dir repo) (y.content n)
          (record { vars = []; secrets = []; dependabot = [] })

  abbrev pub repo_round : String → String → y.Node → y.Node → Repo → Result Repo
  repo_round base_dir repo k v r =
      if y.value k == "managed"
      then (decode_managed base_dir repo v >>= λ m. ok (record r { managed = m }))
      else if y.value k == "ignored"
      then (decode_ignored ("repo " <> sys.quote repo) v >>= λ ig. ok (record r { ignored = ig }))
      else err (message (in_repo sys repo ("unknown key " <> sys.quote (y.value k))))

  unfoldable pub decode_repo : String → String → y.Node → Result Repo
  decode_repo base_dir repo n =
      if not (y.is_mapping n)
      then err (message ("repo " <> (sys.quote repo <> " must be a mapping")))
      else (each_pair (repo_round base_dir repo) (y.content n) empty_repo >>= λ r.
          check_managed_ignored_conflict sys repo r >>= λ _. ok r)

-- ===== src/Runner/Stanza.antt =====
-- The text that an audit writes.
use ghsecretman.Base.{String, ◌<>◌, Bool, true, false, List, [], ◌∷◌, if◌then◌else◌}
use ghsecretman.System.{System}
use ghsecretman.Plan.{kind_text}
use ghsecretman.Diff.{
  Entry, Status, status_match, status_mismatch, status_present, status_missing, status_extra,
  status_ignored, Override, override_none, override_managed, override_ignored,
}

abbrev pub status_text : Status → String
status_text status_match = "match"
status_text status_mismatch = "mismatch"
status_text status_present = "present"
status_text status_missing = "missing"
status_text status_extra = "extra"
status_text status_ignored = "ignored"

-- The test by which the first loop of `writeStanza` keeps a row.
abbrev pub is_visible : Bool → Bool → Status → Bool
is_visible show_ignored verbose status_ignored = show_ignored
is_visible show_ignored verbose status_match = verbose
is_visible show_ignored verbose status_mismatch = true
is_visible show_ignored verbose status_present = true
is_visible show_ignored verbose status_missing = true
is_visible show_ignored verbose status_extra = true

unfoldable pub visible_rows : Bool → Bool → List Entry → List Entry
visible_rows show_ignored verbose [] = []
visible_rows show_ignored verbose (e ∷ entries) =
    let rest = visible_rows show_ignored verbose entries in
    if is_visible show_ignored verbose e.status then e ∷ rest else rest

unfoldable pub override_suffix : Override → String
override_suffix override_managed = " override(per-repo>all-repos)"
override_suffix override_none = ""
override_suffix override_ignored = ""

abbrev pub label : Entry → String
label e = "  " <> (kind_text e.kind <> ("/" <> e.name))

module _ (sys : System) where
  unfoldable pub mismatch_text : Entry → String
  mismatch_text e =
      ": mismatch (yaml="
      <> (sys.quote e.desired_value <> (" live=" <> (sys.quote e.live_value <> ")")))

  entry_text : Status → Override → Entry → String
  entry_text status_ignored override_ignored e = ": override (ignored) (per-repo>all-repos.managed)"
  entry_text status_mismatch override e = mismatch_text e <> override_suffix override
  entry_text status override e = ": " <> (status_text status <> override_suffix override)

  unfoldable pub write_entry_line : Entry → String
  unfolding entry_text mismatch_text override_suffix
  write_entry_line e = label e <> (entry_text e.status e.override e <> "\n")

  unfoldable pub write_lines : List Entry → String
  write_lines [] = ""
  write_lines (e ∷ entries) = write_entry_line e <> write_lines entries

  -- An empty list of rows writes nothing, not even the header, unless the run is verbose.
  header_and_rows : String → List Entry → Bool → String
  header_and_rows header [] false = ""
  header_and_rows header [] true = header
  header_and_rows header (e ∷ entries) verbose = header <> write_lines (e ∷ entries)

  unfoldable pub write_stanza : String → String → List Entry → Bool → Bool → String
  unfolding header_and_rows visible_rows write_lines write_entry_line
  write_stanza org repo entries show_ignored verbose =
      header_and_rows ("org: " <> (org <> ("\nrepo: " <> (repo <> "\n"))))
        (visible_rows show_ignored verbose entries) verbose

-- ===== src/Runner/Phases.antt =====
-- The loops that write and delete. A loop returns the number of failures and the text for its body.
use ghsecretman.Base.{
  ℕ, suc, String, ◌<>◌, Bool, true, false, not, is_zero, ◌||◌, Option, List, [], ◌∷◌, ok, err, ◌==◌,
  if◌then◌else◌, Result,
}
use ghsecretman.Base.Maps.{Map, get_text}
use ghsecretman.System.{System, error_text}
use ghsecretman.Plan.{Kind, kind_text, is_managed, Intent}
use ghsecretman.Diff.{
  Entry, Status, status_match, status_mismatch, status_present, status_missing, status_extra,
  status_ignored,
}
use ghsecretman.Github.{Backend, PublicKey}
use ghsecretman.Runner.Target.{entry_key}
use ghsecretman.Runner.Repo.{apply_one, delete_one}

abbrev pub line : Kind → String → String → String
line kind name what = "  " <> (kind_text kind <> ("/" <> (name <> (": " <> (what <> "\n")))))

abbrev pub Tally : Type 0
Tally = ℕ × String

-- A round that made a call: its line, and whether it failed.
abbrev pub report : System → Kind → String → String → Result (Unit {0}) → Tally → Tally
report sys kind name done (ok _) (failed, body) = (failed, line kind name done <> body)
report sys kind name done (err e) (failed, body) =
    (suc failed, line kind name ("FAILED: " <> error_text sys e) <> body)

-- A round of a dry run: its line.
abbrev pub announce : Kind → String → String → Tally → Tally
announce kind name what (failed, body) = (failed, line kind name what <> body)

abbrev pub is_extra : Status → Bool
is_extra status_extra = true
is_extra status_match = false
is_extra status_mismatch = false
is_extra status_present = false
is_extra status_missing = false
is_extra status_ignored = false

module _ (sys : System) (b : Backend) (org repo : String) where
  -- The loop of `ApplyRepo`.
  unfoldable pub apply_loop :
      List Intent → Map String → Option PublicKey → Option PublicKey → b.State → Tally × b.State
  apply_loop [] resolved actions_key dep_key s = ((0, ""), s)
  apply_loop (i ∷ intents) resolved actions_key dep_key s =
      let skip = apply_loop intents resolved actions_key dep_key s in
      let value = get_text (entry_key i) resolved in
      let (r, s') = apply_one b org repo i.kind i.name value actions_key dep_key s in
      let (t, last) = apply_loop intents resolved actions_key dep_key s' in
      let set : Tally × b.State = (report sys i.kind i.name "ok" r t, last) in
      if is_managed i.action then set else skip

  unfoldable pub run_apply_phase :
      List Intent
      → Map String
      → Option PublicKey
      → Option PublicKey
      → Bool
      → b.State
      → Tally × b.State
  run_apply_phase [] resolved actions_key dep_key dry_run s = ((0, ""), s)
  run_apply_phase (i ∷ intents) resolved actions_key dep_key dry_run s =
      let skip = run_apply_phase intents resolved actions_key dep_key dry_run s in
      let would_set : Tally × b.State = (announce i.kind i.name "would-set" skip.0, skip.1) in
      let value = get_text (entry_key i) resolved in
      let (r, s') = apply_one b org repo i.kind i.name value actions_key dep_key s in
      let (t, last) = run_apply_phase intents resolved actions_key dep_key dry_run s' in
      let set : Tally × b.State = (report sys i.kind i.name "ok" r t, last) in
      if is_managed i.action then (if dry_run then would_set else set) else skip

  unfoldable pub run_delete_phase : List Entry → Bool → b.State → Tally × b.State
  run_delete_phase [] dry_run s = ((0, ""), s)
  run_delete_phase (e ∷ entries) dry_run s =
      let skip = run_delete_phase entries dry_run s in
      let would_delete : Tally × b.State = (announce e.kind e.name "would-delete" skip.0, skip.1) in
      let (r, s') = delete_one b org repo e.kind e.name s in
      let (t, last) = run_delete_phase entries dry_run s' in
      let deleted : Tally × b.State = (report sys e.kind e.name "deleted" r t, last) in
      if is_extra e.status then (if dry_run then would_delete else deleted) else skip

-- What `ApplyRepo` and `EnforceRepo` write: the header and the body if there is a body or the run is
-- verbose, and the summary if an entry failed.
unfoldable pub write_body : System → String → Tally → Bool → String
write_body sys header (failed, body) verbose =
    (if not (body == "") || verbose then header <> body else "")
    <> (if is_zero failed then "" else "summary: " <> (sys.decimal failed <> " failed\n"))

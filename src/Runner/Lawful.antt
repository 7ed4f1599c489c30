-- ===== src/Runner/Lawful.antt =====
-- A backend that does what GitHub's documentation says of one repo, and what the two phases of
-- `EnforceRepo` then leave behind.
use ghsecretman.Runner.Footprint.{All}
use ghsecretman.Runner.Keys.{kind_eq→eq}
use ghsecretman.Runner.Target.{entry_key, key_of}
use ghsecretman.Diff.Sets.{any_managed}
use ghsecretman.Diff.Verdict.{is_live, IsLive}
use ghsecretman.Diff.Rows.{pick}
use ghsecretman.Runner.Repo.{delete_one, apply_one, fetch_live}
use ghsecretman.Base.Maps.{get_text, Map, lookup}
use ghsecretman.Runner.Phases.{report, Tally, run_apply_phase, run_delete_phase, is_extra}
use ghsecretman.System.{System}
use ghsecretman.Github.{PublicKey, Backend}
use ghsecretman.Base.{
  String, Bool, false, Option, none, some, List, [], ◌∷◌, ◌≡◌, refl, ap, ◌∙◌, arith, Result, ok,
  err, inl, inr, ◌&&◌, ◌||◌, ◌==◌, if◌then◌else◌, contains, Bool-cases, true,
}
use ghsecretman.Plan.{
  is_managed, select, kind_eq, Intent, Kind, kind_var, kind_secret, kind_dependabot,
}
use ghsecretman.Diff.{Live, Entry}

-- What is live under a kind and name: the value of a variable, the presence of a secret.
abbrev pub live_at : Live → Kind → String → Option String
live_at live kind_var n = lookup n live.vars
live_at live kind_secret n = if contains live.secrets n then some "" else none
live_at live kind_dependabot n = if contains live.dependabot n then some "" else none

abbrev pub stored : Kind → String → String
stored kind_var v = v
stored kind_secret v = ""
stored kind_dependabot v = ""

-- GitHub keeps the names of secrets and variables in upper case, however a call spells them: `IsSpelled`
-- holds of the names that it keeps as they are spelled, which all names are that it lists. `Fits` holds of
-- the states in which GitHub answers the three listings, and one page of each has room for all that there
-- is; the three reads then see everything. A set that is ok, of a name that GitHub keeps as it is spelled, sets that name and no
-- other, a deletion that is ok deletes its name and no other, and a key is only read.
pub record IsLawful (b : Backend) (org repo : String) : Type 1 where
  pub view : b.State → Live
  pub IsValid : b.State → Type 0
  pub Fits : b.State → Type 0
  pub IsSpelled : Kind → String → Type 0
  pub reads : (s : b.State) → IsValid s → Fits s → fetch_live b org repo s ≡ (ok (view s), s)
  pub unique : (s : b.State) → IsValid s → IsLive (view s)
  pub spelled :
      (k : Kind) (n : String) (s : b.State)
      → IsValid s
      → is_live (view s) k n ≡ true
      → IsSpelled k n
  pub actions_key : (s : b.State) → (b.get_repo_public_key org repo s).1 ≡ s
  pub dependabot_key : (s : b.State) → (b.get_repo_dependabot_public_key org repo s).1 ≡ s
  pub sets :
      (k : Kind) (n v : String) (ak dk : Option PublicKey) (s s' : b.State)
      → IsSpelled k n
      → IsValid s
      → apply_one b org repo k n v ak dk s ≡ (ok tt, s')
      → IsValid s'
        × ((j : Kind) (m : String)
            → live_at (view s') j m
              ≡ (if kind_eq j k && m == n then some (stored k v) else live_at (view s) j m))
  pub deletes :
      (k : Kind) (n : String) (s s' : b.State)
      → IsSpelled k n
      → IsValid s
      → delete_one b org repo k n s ≡ (ok tt, s')
      → IsValid s'
        × ((j : Kind) (m : String)
            → live_at (view s') j m
              ≡ (if kind_eq j k && m == n then none else live_at (view s) j m))

abbrev pub any_extra : List Entry → Bool
any_extra [] = false
any_extra (e ∷ es) = is_extra e.status || any_extra es

module _ (sys : System) (b : Backend) (org repo : String) (l : IsLawful b org repo) where
  report-failed :
      (k : Kind) (n what : String) (r : Result (Unit {0})) (t : Tally)
      → (report sys k n what r t).0 ≡ 0
      → (r ≡ ok tt) × (t.0 ≡ 0)
  report-failed k n what (ok tt) t h = (refl, h)
  report-failed k n what (err e) t h = absurd (ground arith)

  -- The names that the two loops set and delete are spelled as GitHub keeps them.
  abbrev pub MaySpell : Intent → Type 0
  MaySpell i = is_managed i.action ≡ true → l.IsSpelled i.kind i.name

  abbrev pub MayClear : Entry → Type 0
  MayClear e = is_extra e.status ≡ true → l.IsSpelled e.kind e.name

  -- What a loop over intents leaves behind where it counts no failure: under the name of a managed
  -- intent its text, and under any other what was there.
  abbrev pub Wrote : List Intent → Map String → b.State → Tally × b.State → Type 0
  Wrote is resolved s r =
      r.0.0 ≡ 0
      → l.IsValid r.1
        × ((k : Kind) (n : String)
            → live_at (l.view r.1) k n ≡ (
                if any_managed (select k n is)
                then some (stored k (get_text (key_of k n) resolved))
                else live_at (l.view s) k n))

  pub run_apply_phase-Wrote :
      (is : List Intent) (resolved : Map String) (ak dk : Option PublicKey) (s : b.State)
      → All MaySpell is
      → l.IsValid s
      → Wrote is resolved s (run_apply_phase sys b org repo is resolved ak dk false s)
  unfolding run_apply_phase
  run_apply_phase-Wrote [] resolved ak dk s may valid = λ h. (valid, λ k n. refl)
  run_apply_phase-Wrote (i ∷ is) resolved ak dk s (may, rest_may) valid =
      elim (Bool-cases (is_managed i.action)) [
        | inr skip ↦ rw skip (λ z.
            let (v, at) = run_apply_phase-Wrote is resolved ak dk s rest_may valid z in
            (v, λ k n. at k n ∙ ground arith))
        | inl take ↦ rw take (λ z.
            let value = get_text (entry_key i) resolved in
            let r = apply_one b org repo i.kind i.name value ak dk s in
            let (fine, rest) = report-failed i.kind i.name "ok" r.0 _ z in
            let (v, here) =
              l.sets i.kind i.name value ak dk s r.1 (may take) valid (ap (λ x. (x, r.1)) fine) in
            let (v', later) = run_apply_phase-Wrote is resolved ak dk r.1 rest_may v rest in
            (v', λ k n. later k n ∙ ground (arith, here k n, kind_eq→eq k i.kind)))
      ]

  -- The same of the loop over rows: under the name of an extra row nothing is left.
  abbrev pub Cleared : List Entry → b.State → Tally × b.State → Type 0
  Cleared es s r =
      r.0.0 ≡ 0
      → l.IsValid r.1
        × ((k : Kind) (n : String)
            → live_at (l.view r.1) k n
              ≡ (if any_extra (pick k n es) then none else live_at (l.view s) k n))

  pub run_delete_phase-Cleared :
      (es : List Entry) (s : b.State)
      → All MayClear es
      → l.IsValid s
      → Cleared es s (run_delete_phase sys b org repo es false s)
  unfolding run_delete_phase
  run_delete_phase-Cleared [] s may valid = λ h. (valid, λ k n. refl)
  run_delete_phase-Cleared (e ∷ es) s (may, rest_may) valid =
      elim (Bool-cases (is_extra e.status)) [
        | inr skip ↦ rw skip (λ z.
            let (v, at) = run_delete_phase-Cleared es s rest_may valid z in
            (v, λ k n. at k n ∙ ground arith))
        | inl take ↦ rw take (λ z.
            let r = delete_one b org repo e.kind e.name s in
            let (fine, rest) = report-failed e.kind e.name "deleted" r.0 _ z in
            let (v, here) =
              l.deletes e.kind e.name s r.1 (may take) valid (ap (λ x. (x, r.1)) fine) in
            let (v', later) = run_delete_phase-Cleared es r.1 rest_may v rest in
            (v', λ k n. later k n ∙ ground (arith, here k n, kind_eq→eq k e.kind)))
      ]

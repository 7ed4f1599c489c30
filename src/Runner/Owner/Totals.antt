-- ===== src/Runner/Owner/Totals.antt =====
-- What the result of a command for an owner is to add up to.
-- The number of repos whose work returned, and of those whose work returned an error.
use ghsecretman.Runner.Owner.Targets.{split_repos-length, occurrences-split_repos}
use mathlib.Core.Path.{subst}
use ghsecretman.Runner.Footprint.{All}
use ghsecretman.Runner.Owner.{merge_org_result, split_repos, is_addressed}
use ghsecretman.Plan.Organization.{occurrences}
use ghsecretman.Config.{Org}
use ghsecretman.Runner.Target.{RunResult}
use ghsecretman.Runner.Pool.{no_result, add_outcome, Worked, OrgResult, Outcome}
use ghsecretman.Runner.Pool.Counts.{names, sum_up}
use ghsecretman.Base.{
  length, ℕ, suc, ◌+◌, String, Bool, false, Option, none, some, List, [], ◌∷◌, ◌≡◌, refl, sym, ap,
  ◌∙◌, arith, Result, ok, err, inl, inr, ◌&&◌, ◌||◌, if◌then◌else◌, Result-cases,
}

abbrev pub returned : List Worked → ℕ
returned [] = 0
returned (w ∷ ws) = elim w.1.returned [ ok r ↦ suc (returned ws) | err e ↦ returned ws ]

abbrev pub errors : List Worked → ℕ
errors [] = 0
errors (w ∷ ws) = elim w.1.returned [ ok r ↦ errors ws | err e ↦ suc (errors ws) ]

-- The writes that failed, over all repos, and whether any repo has drift.
abbrev pub failures : List Worked → ℕ
failures [] = 0
failures (w ∷ ws) = elim w.1.returned [ ok r ↦ r.failed + failures ws | err e ↦ failures ws ]

abbrev pub any_drift : List Worked → Bool
any_drift [] = false
any_drift (w ∷ ws) = elim w.1.returned [ ok r ↦ r.drift || any_drift ws | err e ↦ any_drift ws ]

-- What the sum of outcomes is, field by field.
pub record IsSum (ws : List Worked) (res : OrgResult) : Type 0 where
  pub ok_repos : res.ok_repos ≡ returned ws
  pub failed_repos : res.failed_repos ≡ errors ws
  pub skipped_repos : res.skipped_repos ≡ 0
  pub failed_entries : res.failed_entries ≡ failures ws
  pub drift : res.drift ≡ any_drift ws

add_outcome-IsSum :
    (repo text : String) (r : Result RunResult) (ws : List Worked) (res : OrgResult)
    → IsSum ws res
    → IsSum ((repo, record { written = text; returned = r }) ∷ ws) (add_outcome r res)
add_outcome-IsSum repo text (ok r) ws res h = record {
  ok_repos = ap suc h.ok_repos;
  failed_repos = h.failed_repos;
  skipped_repos = h.skipped_repos;
  failed_entries = ground (arith, h.failed_entries);
  drift = ground (arith, h.drift);
}
add_outcome-IsSum repo text (err e) ws res h = record {
  ok_repos = h.ok_repos;
  failed_repos = ap suc h.failed_repos;
  skipped_repos = h.skipped_repos;
  failed_entries = h.failed_entries;
  drift = h.drift;
}

pub sum_up-IsSum : (ws : List Worked) → IsSum ws (sum_up ws no_result)
unfolding sum_up
sum_up-IsSum [] = record {
  ok_repos = refl;
  failed_repos = refl;
  skipped_repos = refl;
  failed_entries = refl;
  drift = refl;
}
sum_up-IsSum ((repo, o) ∷ ws) =
    add_outcome-IsSum repo o.written o.returned ws (sum_up ws no_result) (sum_up-IsSum ws)

-- What the command for the org scope has come to, none where it did not run.
abbrev pub ScopeEnd : Type 0
ScopeEnd = Option (Result (RunResult × String))

-- One failed repo, where it returned an error.
abbrev pub scope_errors : ScopeEnd → ℕ
scope_errors none = 0
scope_errors (some (ok r)) = 0
scope_errors (some (err e)) = 1

-- Its failed writes, where the command writes, and its drift, where the command is an audit.
abbrev pub scope_failures : Bool → ScopeEnd → ℕ
scope_failures audits none = 0
scope_failures audits (some (ok (r, text))) = if audits then 0 else r.failed
scope_failures audits (some (err e)) = 0

abbrev pub scope_drift : Bool → ScopeEnd → Bool
scope_drift audits none = false
scope_drift audits (some (ok (r, text))) = audits && r.drift
scope_drift audits (some (err e)) = false

-- The result adds up the outcomes `ws` of the work on the addressed repos among those listed in `all`,
-- each listed repo being worked on or skipped, and what the org scope has come to.
pub record IsTotal (audits : Bool) (Ends : String → Outcome → Type 0) (o : Org) (all : List String)
    (scope : ScopeEnd) (ws : List Worked) (res : OrgResult) : Type 0 where
  pub each :
      (n : String) → occurrences n (names ws) ≡ (if is_addressed o n then occurrences n all else 0)
  pub may : All (λ (w : Worked). Ends w.0 w.1) ws
  pub skipped_repos : length ws + res.skipped_repos ≡ length all
  pub ok_repos : res.ok_repos ≡ returned ws
  pub failed_repos : res.failed_repos ≡ errors ws + scope_errors scope
  pub failed_entries : res.failed_entries ≡ failures ws + scope_failures audits scope
  pub drift : res.drift ≡ (any_drift ws || scope_drift audits scope)

-- The result that the org scope leaves.
pub record IsStart (audits : Bool) (scope : ScopeEnd) (res : OrgResult) : Type 0 where
  pub ok_repos : res.ok_repos ≡ 0
  pub skipped_repos : res.skipped_repos ≡ 0
  pub failed_repos : res.failed_repos ≡ scope_errors scope
  pub failed_entries : res.failed_entries ≡ scope_failures audits scope
  pub drift : res.drift ≡ scope_drift audits scope

returned-errors : (ws : List Worked) → returned ws + errors ws ≡ length ws
returned-errors [] = refl
returned-errors ((repo, o) ∷ ws) = elim (Result-cases o.returned) [
  | inl (r, e) ↦ rw e (let rest = returned-errors ws in omega arith)
  | inr (x, e) ↦ rw e (let rest = returned-errors ws in omega arith)
]

module _ (audits : Bool) (Ends : String → Outcome → Type 0) (o : Org) (all : List String)
    (scope : ScopeEnd) (ws : List Worked) where
  pub merge_org_result-IsTotal :
      (start src : OrgResult)
      → IsStart audits scope start
      → src ≡ sum_up ws no_result
      → ((n : String) → occurrences n (names ws) ≡ occurrences n (split_repos o all).0)
      → All (λ (w : Worked). Ends w.0 w.1) ws
      → src.ok_repos + src.failed_repos ≡ length (split_repos o all).0
      → IsTotal audits Ends o all scope ws (merge_org_result start src (split_repos o all).1)
  merge_org_result-IsTotal start src h same each may counted =
      let sum : IsSum ws src = subst (IsSum ws) (sym same) (sum_up-IsSum ws) in
      record {
        each = λ n. each n ∙ occurrences-split_repos o all n;
        may = may;
        skipped_repos = ground (
          arith,
          h.skipped_repos,
          sum.ok_repos,
          sum.failed_repos,
          returned-errors ws,
          counted,
          split_repos-length o all,
        );
        ok_repos = ground (arith, h.ok_repos, sum.ok_repos);
        failed_repos = ground (arith, h.failed_repos, sum.failed_repos);
        failed_entries = ground (arith, h.failed_entries, sum.failed_entries);
        drift = ground (arith, h.drift, sum.drift);
      }

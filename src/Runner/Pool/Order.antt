-- ===== src/Runner/Pool/Order.antt =====
-- The pool against a loop over the repos in their order.
use ghsecretman.Runner.Pool.Counts.{sum_up-Removed, sum_up-add_outcome, with_outcomes, sum_up}
use ghsecretman.System.{System}
use ghsecretman.Base.{ℕ, String, List, [], ◌∷◌, ◌≡◌, refl, sym, ap, ◌∙◌}
use ghsecretman.Runner.Pool.{
  later, ◌followed_by◌, first, no_result, IsFinished, add_outcome, Removed, start_pool, Steps,
  Worked, Step, OrgResult, Pool, Outcome, start, flush, count, still,
}

module _ (sys : System) (limit : ℕ) (f : String → Outcome) (repos : List String) where
  -- The outcome of the work on a repo does not depend on the schedule.
  abbrev pub Ends : String → Outcome → Type 0
  Ends repo o = o ≡ f repo

  -- What is counted, and what the repos that are not counted yet will add.
  abbrev expected : Pool → OrgResult
  expected p =
      sum_up (with_outcomes f p.waiting)
        (sum_up (with_outcomes f p.working) (sum_up p.flushed p.result))

  sum_up-waiting :
      (repo : String) (rest : List Worked) (res : OrgResult)
      → sum_up ((repo, f repo) ∷ rest) res ≡ sum_up rest (sum_up ((repo, f repo) ∷ []) res)
  unfolding sum_up
  sum_up-waiting repo rest res = sym (sum_up-add_outcome rest (f repo).returned res)

  Removed-with_outcomes :
      {repo : String} {working left : List String} (res : OrgResult)
      → Removed repo working left
      → sum_up (with_outcomes f left) (add_outcome (f repo).returned res)
        ≡ sum_up (with_outcomes f working) res
  unfolding sum_up
  Removed-with_outcomes {repo} res (first {xs}) =
      sum_up-add_outcome (with_outcomes f xs) (f repo).returned res
  Removed-with_outcomes {repo} res (later {y} r) =
      ap (add_outcome (f y).returned) (Removed-with_outcomes res r)

  Step-expected : {p q : Pool} → Step sys limit Ends p q → expected p ≡ expected q
  unfolding sum_up
  Step-expected (start {repo} {waiting} {working} {flushed} {out} {res} h) =
      sum_up-waiting repo (with_outcomes f waiting)
        (sum_up (with_outcomes f working) (sum_up flushed res))
  Step-expected (flush {repo} {waiting} {working} {left} {flushed} {out} {res} o m r) =
      ap (sum_up (with_outcomes f waiting))
        (sym (Removed-with_outcomes (sum_up flushed res) r) ∙ rw m refl)
  Step-expected (count {w} {waiting} {working} {flushed} {left} {out} {res} r) =
      ap (λ x. sum_up (with_outcomes f waiting) (sum_up (with_outcomes f working) x))
        (sym (sum_up-Removed res r))

  Steps-expected :
      {p : Pool}
      → Steps sys limit Ends (start_pool repos) p
      → sum_up (with_outcomes f repos) no_result ≡ expected p
  unfolding sum_up
  Steps-expected still = refl
  Steps-expected (steps followed_by step) = Steps-expected steps ∙ Step-expected step

  -- Where the outcome of the work on each repo does not depend on the schedule, a pool that has
  -- finished has counted what a loop over the repos, one after the other, counts, whatever the limit
  -- and the schedule.
  pub run_org-in_order :
      (p : Pool)
      → Steps sys limit Ends (start_pool repos) p
      → IsFinished p
      → p.result ≡ sum_up (with_outcomes f repos) no_result
  unfolding sum_up
  run_org-in_order p steps (waiting, working, flushed) =
      sym (Steps-expected steps ∙ rw (waiting, working, flushed) refl)

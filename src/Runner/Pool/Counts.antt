-- ===== src/Runner/Pool/Counts.antt =====
-- What the pool adds up, and what it writes, in any schedule.
use ghsecretman.Runner.Footprint.{All}
use ghsecretman.Plan.Organization.{occurrences}
use ghsecretman.Runner.Target.{RunResult}
use ghsecretman.System.{System}
use ghsecretman.Runner.Pool.{
  start, flush, count, still, ◌followed_by◌, Steps, start_pool, IsFinished, first, add_outcome,
  Step, no_result, later, buffer, OrgResult, Pool, Removed, Worked, Outcome,
}
use ghsecretman.Base.{
  length, ℕ, suc, ◌+◌, String, ◌<>◌, List, [], ◌∷◌, ◌≡◌, refl, sym, ap, ◌∙◌, arith, Result, ok, err,
}

-- The loop that adds up outcomes one by one, the last of the list first.
unfoldable pub sum_up : List Worked → OrgResult → OrgResult
sum_up [] res = res
sum_up (w ∷ ws) res = add_outcome w.1.returned (sum_up ws res)

abbrev pub names : List Worked → List String
names [] = []
names (w ∷ ws) = w.0 ∷ names ws

-- The buffers of a list that has the latest one first.
abbrev pub texts : System → List Worked → String
texts sys [] = ""
texts sys (w ∷ ws) = texts sys ws <> buffer sys w.0 w.1

abbrev pub with_outcomes : (String → Outcome) → List String → List Worked
with_outcomes f [] = []
with_outcomes f (r ∷ rs) = (r, f r) ∷ with_outcomes f rs

add_outcome_comm :
    (r r' : Result RunResult) (res : OrgResult)
    → add_outcome r (add_outcome r' res) ≡ add_outcome r' (add_outcome r res)
add_outcome_comm (ok a) (ok b) res = ground arith
add_outcome_comm (ok a) (err b) res = refl
add_outcome_comm (err a) (ok b) res = refl
add_outcome_comm (err a) (err b) res = refl

pub sum_up-add_outcome :
    (ws : List Worked) (r : Result RunResult) (res : OrgResult)
    → sum_up ws (add_outcome r res) ≡ add_outcome r (sum_up ws res)
unfolding sum_up
sum_up-add_outcome [] r res = refl
sum_up-add_outcome (w ∷ ws) r res =
    ap (add_outcome w.1.returned) (sum_up-add_outcome ws r res)
    ∙ add_outcome_comm w.1.returned r (sum_up ws res)

pub sum_up-Removed :
    {w : Worked} {ws left : List Worked} (res : OrgResult)
    → Removed w ws left
    → sum_up left (add_outcome w.1.returned res) ≡ sum_up ws res
unfolding sum_up
sum_up-Removed {w} res (first {xs}) = sum_up-add_outcome xs w.1.returned res
sum_up-Removed {w} res (later {y} r) = ap (add_outcome y.1.returned) (sum_up-Removed res r)

occurrences-Removed :
    {x : String} {xs ys : List String} (n : String)
    → Removed x xs ys
    → occurrences n xs ≡ occurrences n (x ∷ ys)
occurrences-Removed n first = refl
occurrences-Removed {x} n (later {y} {xs} {ys} r) = ground (arith, occurrences-Removed n r)

pub length-Removed :
    {A : Type 0} {x : A} {xs ys : List A} → Removed x xs ys → length xs ≡ suc (length ys)
length-Removed first = refl
length-Removed (later r) = ap suc (length-Removed r)

-- What the pool has written and counted, for the repos whose buffers were flushed.
record IsTrace (sys : System) (MayEnd : String → Outcome → Type 0) (repos : List String)
    (ws : List Worked) (p : Pool) : Type 0 where
  text : p.out ≡ texts sys ws
  tally : sum_up ws no_result ≡ sum_up p.flushed p.result
  each :
      (n : String)
      → occurrences n (names ws) + (occurrences n p.working + occurrences n p.waiting)
        ≡ occurrences n repos
  total : length ws + (length p.working + length p.waiting) ≡ length repos
  may : All (λ (w : Worked). MayEnd w.0 w.1) ws

sum_up-count :
    (ws : List Worked) (res : OrgResult)
    → (sum_up ws res).ok_repos + (sum_up ws res).failed_repos
      ≡ length ws + (res.ok_repos + res.failed_repos)
unfolding sum_up
sum_up-count [] res = omega arith
sum_up-count (w ∷ ws) res = ground (arith, sum_up-count ws res)

module _ (sys : System) (limit : ℕ) (MayEnd : String → Outcome → Type 0) (repos : List String) where
  Step-IsTrace :
      {p q : Pool} (ws : List Worked)
      → IsTrace sys MayEnd repos ws p
      → Step sys limit MayEnd p q
      → (ws' : List Worked) × IsTrace sys MayEnd repos ws' q
  unfolding sum_up
  Step-IsTrace ws t (start h) = (
    ws,
    record {
      text = t.text;
      tally = t.tally;
      each = λ n. ground (arith, t.each n);
      total = ground (arith, t.total);
      may = t.may;
    },
  )
  Step-IsTrace ws t (flush {repo} {waiting} {working} {left} {flushed} {out} {res} o m r) = (
    (repo, o) ∷ ws,
    record {
      text = ap (λ x. x <> buffer sys repo o) t.text;
      tally = ap (add_outcome o.returned) t.tally;
      each = λ n. ground (arith, t.each n, occurrences-Removed n r);
      total = ground (arith, t.total, length-Removed r);
      may = (m, t.may);
    },
  )
  Step-IsTrace ws t (count {w} {waiting} {working} {flushed} {left} {out} {res} r) = (
    ws,
    record {
      text = t.text;
      tally = t.tally ∙ sym (sum_up-Removed res r);
      each = t.each;
      total = t.total;
      may = t.may;
    },
  )

  Steps-IsTrace :
      {p : Pool}
      → Steps sys limit MayEnd (start_pool repos) p
      → (ws : List Worked) × IsTrace sys MayEnd repos ws p
  unfolding sum_up
  Steps-IsTrace still = (
    [],
    record { text = refl; tally = refl; each = λ n. omega arith; total = omega arith; may = tt },
  )
  Steps-IsTrace (steps followed_by step) =
      let (ws, t) = Steps-IsTrace steps in Step-IsTrace ws t step

  -- When a pool that started with the repos of a list has finished, whatever the schedule, the shared
  -- writer holds one whole buffer after another, of as many workers for each repo as the list names it,
  -- every buffer that of an outcome the work may come to; the shared result is what a loop over these
  -- outcomes adds up; and the repos that are counted as ok or failed are as many as the list is long.
  pub run_org-any_schedule :
      (p : Pool)
      → Steps sys limit MayEnd (start_pool repos) p
      → IsFinished p
      → (ws : List Worked) × (p.out ≡ texts sys ws)
        × (p.result ≡ sum_up ws no_result)
        × ((n : String) → occurrences n (names ws) ≡ occurrences n repos)
        × All (λ (w : Worked). MayEnd w.0 w.1) ws
        × (p.result.ok_repos + p.result.failed_repos ≡ length repos)
  unfolding sum_up
  run_org-any_schedule p steps (waiting, working, flushed) =
      let (ws, t) = Steps-IsTrace steps in
      let result : p.result ≡ sum_up ws no_result = sym (t.tally ∙ rw flushed refl) in
      (
        ws,
        t.text,
        result,
        λ n. ground (arith, t.each n, waiting, working),
        t.may,
        ground (arith, t.total, waiting, working, result, sum_up-count ws no_result),
      )

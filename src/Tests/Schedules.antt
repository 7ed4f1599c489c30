-- ===== src/Tests/Schedules.antt =====
-- Schedules of the worker pool.
use ghsecretman.Runner.Pool.Progress.{resolve_concurrency-positive}
use ghsecretman.Base.Calls.{Call}
use ghsecretman.Runner.Owner.Accounts.{IsScheduled}
use ghsecretman.Runner.Owner.{Scheduler}
use ghsecretman.System.{System}
use ghsecretman.Runner.Target.{RunResult}
use ghsecretman.Base.{◌<◌, ℤ, String, ◌<>◌, List, [], ◌∷◌, ◌≡◌, refl, arith, Result, ok, err}
use ghsecretman.Runner.Pool.{
  first, IsFinished, start_pool, Steps, resolve_concurrency, buffer, no_result, add_outcome, Pool,
  Outcome, OrgResult, start, flush, count, still, ◌followed_by◌,
}

abbrev outcome_of : Result (RunResult × String) → Outcome
outcome_of (ok (res, text)) = record { written = text; returned = ok res }
outcome_of (err e) = record { written = ""; returned = err e }

-- Work that may end in any way.
abbrev pub Anyhow :
    (S : Type 0) → (String → Call S (RunResult × String)) → String → Outcome → Type 0
Anyhow S work repo o = Unit

abbrev idle : List String → OrgResult → String → Pool
idle repos res out = record { waiting = repos; working = []; flushed = []; out = out; result = res }

module _ (sys : System) (S : Type 0) where
  abbrev one_by_one :
      (String → Call S (RunResult × String))
      → List String
      → OrgResult
      → String
      → S
      → (OrgResult × String) × S
  one_by_one work [] res out s = ((res, out), s)
  one_by_one work (repo ∷ repos) res out s =
      let (r, s') = work repo s in
      let o = outcome_of r in
      one_by_one work repos (add_outcome o.returned res) (out <> buffer sys repo o) s'

  -- One worker after another, which any limit allows.
  abbrev pub in_order : Scheduler S
  in_order c work repos s = one_by_one work repos no_result "" s

  module _ (c : ℤ) (work : String → Call S (RunResult × String)) (all : List String) where
    drain :
        (repos : List String) (res : OrgResult) (out : String) (s : S)
        → 0 < resolve_concurrency c
        → Steps sys (resolve_concurrency c) (Anyhow S work) (start_pool all) (idle repos res out)
        → (p : Pool) × Steps sys (resolve_concurrency c) (Anyhow S work) (start_pool all) p
          × IsFinished p
          × ((one_by_one work repos res out s).0 ≡ (p.result, p.out))
    drain [] res out s room steps = (idle [] res out, steps, (refl, refl, refl), refl)
    drain (repo ∷ repos) res out s room steps =
        let o = outcome_of (work repo s).0 in
        drain repos (add_outcome o.returned res) (out <> buffer sys repo o) (work repo s).1 room (
          steps
          followed_by start (omega arith)
          followed_by flush o tt first
          followed_by count first)

  pub in_order-IsScheduled : IsScheduled sys S (Anyhow S) in_order
  in_order-IsScheduled c work repos s =
      drain c work repos repos no_result "" s (resolve_concurrency-positive c) still

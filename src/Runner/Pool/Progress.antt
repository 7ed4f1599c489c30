-- ===== src/Runner/Pool/Progress.antt =====
-- The pool never runs more workers than its limit, never stops before it has finished, and finishes.
use ghsecretman.Runner.Pool.Counts.{length-Removed}
use ghsecretman.System.{System}
use ghsecretman.Base.{
  length, negsuc, pos, ℤ, ◌*◌, ◌≤◌, ◌<◌, ℕ, suc, ◌+◌, String, List, [], ◌∷◌, ◌≡◌, refl, arith, inl,
  inr, ◌⊎◌, zero, ◌≢◌, ap,
}
use ghsecretman.Runner.Pool.{
  resolve_concurrency, first, OrgResult, Worked, ◌followed_by◌, running, start_pool, IsFinished,
  Steps, Step, Outcome, Pool, start, flush, count, still,
}

-- What is left to do: three steps for a repo that waits, two and one for those under way.
abbrev pub steps_left : Pool → ℕ
steps_left p = 3 * length p.waiting + (2 * length p.working + length p.flushed)

module _ (sys : System) (limit : ℕ) (MayEnd : String → Outcome → Type 0) where
  abbrev pub steps_taken : {p q : Pool} → Steps sys limit MayEnd p q → ℕ
  steps_taken still = 0
  steps_taken (steps followed_by step) = suc (steps_taken steps)

  Step-steps_left : {p q : Pool} → Step sys limit MayEnd p q → suc (steps_left q) ≡ steps_left p
  Step-steps_left (start h) = omega arith
  Step-steps_left (flush o m r) = ground (arith, length-Removed r)
  Step-steps_left (count r) = ground (arith, length-Removed r)

  Steps-steps_left :
      {p q : Pool} (steps : Steps sys limit MayEnd p q)
      → steps_taken steps + steps_left q ≡ steps_left p
  Steps-steps_left still = omega arith
  Steps-steps_left (steps followed_by step) =
      ground (arith, Steps-steps_left steps, Step-steps_left step)

  Step-running : {p q : Pool} → Step sys limit MayEnd p q → running p ≤ limit → running q ≤ limit
  Step-running (start h) k = omega arith
  Step-running (flush o m r) k = ground (arith, length-Removed r)
  Step-running (count r) k = ground (arith, length-Removed r)

  Steps-running :
      (repos : List String) (p : Pool)
      → Steps sys limit MayEnd (start_pool repos) p
      → running p ≤ limit
  Steps-running repos p still = omega arith
  Steps-running repos p (◌followed_by◌ {q} steps step) =
      Step-running step (Steps-running repos q steps)

  module _ (l : 0 < limit) (ends : (repo : String) → (o : Outcome) × MayEnd repo o) where
    -- A pool that has not finished can go on.
    can_go_on :
        (waiting working : List String) (flushed : List Worked) (out : String) (res : OrgResult)
        → let p : Pool = record {
          waiting = waiting;
          working = working;
          flushed = flushed;
          out = out;
          result = res;
        } in
          IsFinished p ⊎ (q : Pool) × Step sys limit MayEnd p q
    can_go_on waiting working (w ∷ flushed) out res = inr (_, count first)
    can_go_on waiting (repo ∷ working) [] out res = inr (_, flush (ends repo).0 (ends repo).1 first)
    can_go_on (repo ∷ waiting) [] [] out res = inr (_, start (omega arith))
    can_go_on [] [] [] out res = inl (refl, refl, refl)

pub resolve_concurrency-positive : (c : ℤ) → 0 < resolve_concurrency c
resolve_concurrency-positive (pos zero) = omega arith
resolve_concurrency-positive (pos (suc n)) = omega arith
resolve_concurrency-positive (negsuc n) = omega arith

resolve_concurrency-default : (c : ℤ) → ((n : ℕ) → c ≢ pos (suc n)) → resolve_concurrency c ≡ 8
resolve_concurrency-default (pos zero) other = refl
resolve_concurrency-default (pos (suc n)) other = absurd (other n refl)
resolve_concurrency-default (negsuc n) other = refl

module _ (sys : System) (c : ℤ) (MayEnd : String → Outcome → Type 0) (repos : List String) where
  -- In no state that a pool reaches do more workers run than the option Concurrency says, where it is
  -- positive, or more than 8, where it is zero or negative.
  pub run_org-running :
      (p : Pool)
      → Steps sys (resolve_concurrency c) MayEnd (start_pool repos) p
      → ((n : ℕ) → c ≡ pos (suc n) → running p ≤ suc n)
        × (((n : ℕ) → c ≢ pos (suc n)) → running p ≤ 8)
  run_org-running p steps =
      let most = Steps-running sys (resolve_concurrency c) MayEnd repos p steps in
      (
        λ n e. let same = ap resolve_concurrency e in omega arith,
        λ other. let same = resolve_concurrency-default c other in omega arith,
      )

  -- Whatever the option Concurrency is, if the work on a repo always comes to some outcome, a pool
  -- takes three steps for each repo and no more, and never stops before it has finished: after any
  -- steps, those taken and those left are three for each repo, and either the pool has finished or
  -- it can take another step.
  pub run_org-finishes :
      (p : Pool) (steps : Steps sys (resolve_concurrency c) MayEnd (start_pool repos) p)
      → ((repo : String) → (o : Outcome) × MayEnd repo o)
      → (steps_taken sys (resolve_concurrency c) MayEnd steps + steps_left p ≡ 3 * length repos)
        × (IsFinished p ⊎ (q : Pool) × Step sys (resolve_concurrency c) MayEnd p q)
  run_org-finishes p steps ends = (
    ground (arith, Steps-steps_left sys (resolve_concurrency c) MayEnd steps),
    can_go_on sys (resolve_concurrency c) MayEnd (resolve_concurrency-positive c) ends p.waiting
        p.working p.flushed p.out p.result,
  )

-- ===== src/Runner/Pool.antt =====
-- The worker pool of `runOrg`, as a step relation, and the results that it adds up.
pub mod Counts
pub mod Order
pub mod Progress
use ghsecretman.System.{error_text, System}
use ghsecretman.Runner.Target.{RunResult}
use ghsecretman.Base.{
  length, negsuc, pos, ℤ, ◌<◌, ℕ, zero, suc, ◌+◌, String, ◌<>◌, Bool, true, false, List, [], ◌∷◌,
  ◌≡◌, Result, ok, err, if◌then◌else◌, not, Option, none, some, ◌++◌, ◌≢◌, refl, sym, ap, ◌∙◌,
  arith, inl, inr, ◌⊎◌, ◌↔◌, ◌&&◌, ◌||◌, ◌==◌, contains, Bool-cases, Option-cases, Result-cases,
}

-- `OrgResult`
pub record OrgResult : Type 0 where
  pub drift : Bool
  pub failed_entries : ℕ
  pub ok_repos : ℕ
  pub skipped_repos : ℕ
  pub failed_repos : ℕ

-- `OrgResult{}`
abbrev pub no_result : OrgResult
no_result = record {
  drift = false;
  failed_entries = 0;
  ok_repos = 0;
  skipped_repos = 0;
  failed_repos = 0;
}

abbrev pub default_concurrency : ℕ
default_concurrency = 8

-- The option is a Go int: a negative one is `negsuc`.
abbrev pub resolve_concurrency : ℤ → ℕ
resolve_concurrency (pos zero) = default_concurrency
resolve_concurrency (pos (suc n)) = suc n
resolve_concurrency (negsuc n) = default_concurrency

-- What the work on a repo has come to: the text in its buffer, and what it returned.
pub record Outcome : Type 0 where
  pub written : String
  pub returned : Result RunResult

-- The text that a worker flushes: its buffer, and on an error one stanza more.
abbrev pub buffer : System → String → Outcome → String
buffer sys repo o = elim o.returned [
  | ok _ ↦ o.written
  | err e ↦ o.written <> ("repo: " <> (repo <> ("\n  ERROR: " <> (error_text sys e <> "\n"))))
]

-- What a worker does to the shared result, while it holds the mutex.
abbrev pub add_outcome : Result RunResult → OrgResult → OrgResult
add_outcome (err e) res = record res { failed_repos = suc res.failed_repos }
add_outcome (ok r) res = record res {
  ok_repos = suc res.ok_repos;
  failed_entries = res.failed_entries + r.failed;
  drift = if r.drift then true else res.drift;
}

-- A repo that has been worked on, with its outcome.
abbrev pub Worked : Type 0
Worked = String × Outcome

-- The repos that no worker has taken yet, those being worked on, those whose buffer has been flushed
-- but which have not been counted, the shared writer and the shared result.
pub record Pool : Type 0 where
  pub waiting : List String
  pub working : List String
  pub flushed : List Worked
  pub out : String
  pub result : OrgResult

abbrev pub start_pool : List String → Pool
start_pool repos = record {
  waiting = repos;
  working = [];
  flushed = [];
  out = "";
  result = no_result;
}

-- The workers that have started and not returned.
abbrev pub running : Pool → ℕ
running p = length p.working + length p.flushed

-- The second list is the first without one occurrence of an element.
pub data Removed {A : Type 0} (x : A) : List A → List A → Type 0 where
  first : {xs : List A} → Removed x (x ∷ xs) xs
  later : {y : A} {xs ys : List A} → Removed x xs ys → Removed x (y ∷ xs) (y ∷ ys)

-- One step of the pool. `Go` starts the next repo in the order of the list, and waits while `limit`
-- workers run. A worker takes the mutex twice, to flush its buffer and then to count its outcome; the
-- workers take their turns in any order. `MayEnd` says what the work on a repo may come to.
pub data Step (sys : System) (limit : ℕ) (MayEnd : String → Outcome → Type 0)
    : Pool → Pool → Type 0 where
  start :
      {repo : String} {waiting working : List String} {flushed : List Worked} {out : String}
      {res : OrgResult}
      → length working + length flushed < limit
      → Step sys limit MayEnd
          (record {
            waiting = repo ∷ waiting;
            working = working;
            flushed = flushed;
            out = out;
            result = res;
          })
          (record {
            waiting = waiting;
            working = repo ∷ working;
            flushed = flushed;
            out = out;
            result = res;
          })
  flush :
      {repo : String} {waiting working left : List String} {flushed : List Worked} {out : String}
      {res : OrgResult} (o : Outcome)
      → MayEnd repo o
      → Removed repo working left
      → Step sys limit MayEnd
          (record {
            waiting = waiting;
            working = working;
            flushed = flushed;
            out = out;
            result = res;
          })
          (record {
            waiting = waiting;
            working = left;
            flushed = (repo, o) ∷ flushed;
            out = out <> buffer sys repo o;
            result = res;
          })
  count :
      {w : Worked} {waiting working : List String} {flushed left : List Worked} {out : String}
      {res : OrgResult}
      → Removed w flushed left
      → Step sys limit MayEnd
          (record {
            waiting = waiting;
            working = working;
            flushed = flushed;
            out = out;
            result = res;
          })
          (record {
            waiting = waiting;
            working = working;
            flushed = left;
            out = out;
            result = add_outcome w.1.returned res;
          })

-- Any number of steps, the last one last.
infixl 5 ◌followed_by◌
pub data Steps (sys : System) (limit : ℕ) (MayEnd : String → Outcome → Type 0) (p : Pool)
    : Pool → Type 0 where
  still : Steps sys limit MayEnd p p
  ◌followed_by◌ :
      {q r : Pool}
      → Steps sys limit MayEnd p q
      → Step sys limit MayEnd q r
      → Steps sys limit MayEnd p r

-- `Wait` returns when no repo waits and no worker runs.
abbrev pub IsFinished : Pool → Type 0
IsFinished p = (p.waiting ≡ []) × (p.working ≡ []) × (p.flushed ≡ [])

-- ===== src/Tests/Pools.antt =====
-- Two repos and a pool with room for one worker or for two, and the theorems about it.
use ghsecretman.Runner.Footprint.{All}
use ghsecretman.Plan.Organization.{occurrences}
use ghsecretman.Tests.Memory.{system}
use ghsecretman.Runner.Pool.Order.{run_org-in_order, Ends}
use ghsecretman.Runner.Pool.Progress.{run_org-finishes, steps_left, run_org-running, steps_taken}
use ghsecretman.Runner.Target.{RunResult}
use ghsecretman.Runner.Pool.Counts.{run_org-any_schedule, names, with_outcomes, texts, sum_up}
use ghsecretman.Base.{
  length, ◌*◌, message, ◌≤◌, pos, ℤ, text_dec, ◌+◌, String, true, false, List, [], ◌∷◌, ◌≡◌, refl,
  arith, ok, err, ◌⊎◌, ◌==◌, if◌then◌else◌, ℕ, suc, ◌≢◌,
}
use ghsecretman.Runner.Pool.{
  Step, IsFinished, later, first, start_pool, no_result, resolve_concurrency, Steps, Pool, Outcome,
  Worked, running, start, flush, count, still, ◌followed_by◌,
}

abbrev clean : RunResult
clean = record { drift = false; failed = 0 }

abbrev drifted : RunResult
drifted = record { drift = true; failed = 2 }

-- The work on the repo lost fails, that on stale finds drift.
abbrev ends : String → Outcome
ends repo =
    if repo == "lost"
    then record { written = ""; returned = err (message "gone") }
    else if repo == "stale"
    then record { written = "stale\n"; returned = ok drifted }
    else record { written = "fine\n"; returned = ok clean }

abbrev repos : List String
repos = "stale" ∷ "lost" ∷ []

abbrev two : ℤ
two = pos 2

abbrev last : Pool
last = record {
  waiting = [];
  working = [];
  flushed = [];
  out = "repo: lost\n  ERROR: gone\nstale\n";
  result = record {
    drift = true;
    failed_entries = 2;
    ok_repos = 1;
    skipped_repos = 0;
    failed_repos = 1;
  };
}

-- Both workers run, and the one that has started last ends first.
schedule :
    Steps system
      (resolve_concurrency two)
      (Ends system (resolve_concurrency two) ends repos)
      (start_pool repos)
      last
unfolding text_dec ghsecretman.System.error_text
schedule =
    still
    followed_by start (omega arith)
    followed_by start (omega arith)
    followed_by flush (ends "lost") refl first
    followed_by flush (ends "stale") refl first
    followed_by count (later first)
    followed_by count first

run_org-in_order_example : last.result ≡ sum_up (with_outcomes ends repos) no_result
run_org-in_order_example =
    run_org-in_order system (resolve_concurrency two) ends repos last schedule (refl, refl, refl)

abbrev May : String → Outcome → Type 0
May = Ends system (resolve_concurrency two) ends repos

run_org-any_schedule_example :
    (ws : List Worked) × (last.out ≡ texts system ws)
    × (last.result ≡ sum_up ws no_result)
    × ((n : String) → occurrences n (names ws) ≡ occurrences n repos)
    × All (λ (w : Worked). May w.0 w.1) ws
    × (last.result.ok_repos + last.result.failed_repos ≡ length repos)
run_org-any_schedule_example =
    run_org-any_schedule system (resolve_concurrency two) May repos last schedule (refl, refl, refl)

run_org-running_example :
    ((n : ℕ) → two ≡ pos (suc n) → running last ≤ suc n)
    × (((n : ℕ) → two ≢ pos (suc n)) → running last ≤ 8)
run_org-running_example = run_org-running system two May repos last schedule

run_org-finishes_example :
    (steps_taken system (resolve_concurrency two) May schedule + steps_left last ≡ 3 * length repos)
    × (IsFinished last ⊎ (q : Pool) × Step system (resolve_concurrency two) May last q)
run_org-finishes_example =
    run_org-finishes system two May repos last schedule (λ repo. (ends repo, refl))

-- ===== src/Tests/Footprints.antt =====
-- The footprints of the commands on the repo of the runs: the ignored variable KEEP keeps its value.
use mathlib.Core.Path.{subst}
use ghsecretman.Plan.Cascade.Intents.{managed_at, ignored_at}
use ghsecretman.Plan.{kind_var, kind_secret, kind_dependabot}
use ghsecretman.Base.{text_dec, true, false, none, some, ◌≡◌, ◌≢◌, refl, sym, ap, arith, ok}
use ghsecretman.Diff.Verdict.{IsLive}
use ghsecretman.Runner.Commands.{enforce_repo-Keeps, audit_repo-Keeps, apply_repo-Keeps}
use ghsecretman.Diff.{Live}
use ghsecretman.Runner.Apply.{apply_repo}
use ghsecretman.Tests.Runs.{live_start, acme, config, own, start, shared}
use ghsecretman.Plan.{is_managed, kind_var, managed_for, Kind}
use ghsecretman.Runner.Enforce.{enforce_repo, EnforceOptions}
use ghsecretman.Tests.Memory.{lookup-erase, system, memory, Memory}
use ghsecretman.Plan.Cascade.Precedence.{precedence}
use ghsecretman.Runner.Target.{lookup_target}
use ghsecretman.Runner.Audit.{audit_repo}
use ghsecretman.Plan.Cascade.{CascadeWinner}
use ghsecretman.Runner.Allowed.{KeptByDeletes, KeptBySets, KeptByKeys, KeptByReads}
use ghsecretman.Base.Maps.{lookup-insert, NodupKeys, lookup}
use ghsecretman.Runner.Repo.{apply_one, fetch_live, delete_one}
use ghsecretman.Base.{true, false, none, some, ◌≡◌, ◌≢◌, refl, sym, ap, arith, ok}

abbrev HasKeep : Memory → Type 0
HasKeep s = lookup "KEEP" s.vars ≡ some "1"

abbrev enforce_options : EnforceOptions
enforce_options = record { dry_run = false; verbose = false }

pub found : lookup_target system config "acme" "site" ≡ ok (acme, some own)
unfolding lookup_target text_dec
found = refl

pub unique : (kind : Kind) → NodupKeys (managed_for (some own) kind)
unique kind_var = (refl, tt)
unique kind_secret = tt
unique kind_dependabot = (refl, tt)

reads : KeptByReads memory "acme" "site" HasKeep
reads = record { variables = λ s p. p; secrets = λ s p. p; dependabot = λ s p. p }

key_reads : KeptByKeys memory "acme" "site" HasKeep
key_reads = record { actions = λ s p. p; dependabot = λ s p. p }

keep_ignored :
    (w : CascadeWinner)
    → precedence (some shared) (some own) kind_var "KEEP" ≡ some w
    → is_managed w.action ≡ false
unfolding text_dec
keep_ignored w e = ap managed_at (sym e)

sets : KeptBySets memory "acme" "site" HasKeep system (some shared) (some own)
unfolding apply_one
sets kind_var n v w ak dk e m r s p =
    ground (arith, lookup-insert "KEEP" n v s.vars, keep_ignored w)
sets kind_secret n v w ak dk e m r s p = p
sets kind_dependabot n v w ak dk e m r s p = p

keep_planned : precedence (some shared) (some own) kind_var "KEEP" ≢ none
unfolding text_dec
keep_planned e = let h : true ≡ false = ap ignored_at e in ground arith

deletes : KeptByDeletes memory "acme" "site" HasKeep (some shared) (some own) start
unfolding delete_one
deletes kind_var n live s f there e t p = ground (arith, lookup-erase "KEEP" n t.vars, keep_planned)
deletes kind_secret n live s f there e t p = p
deletes kind_dependabot n live s f there e t p = p

pub start_IsLive : IsLive live_start
unfolding text_dec
start_IsLive = record {
  vars = (refl, (refl, (refl, tt)));
  secrets = (refl, (refl, tt));
  dependabot = tt;
}

lives :
    (live : Live) (s' : Memory)
    → fetch_live memory "acme" "site" start ≡ (ok live, s')
    → IsLive live
unfolding fetch_live
lives live s' e = let same : live_start ≡ live = ground arith in subst IsLive same start_IsLive

enforce_repo-Keeps_example :
    lookup "KEEP" (enforce_repo system memory config "acme" "site" enforce_options start).1.vars
    ≡ some "1"
unfolding text_dec
enforce_repo-Keeps_example =
    enforce_repo-Keeps system memory "acme" "site" HasKeep config enforce_options acme (some own)
      start found unique lives reads (λ _. (key_reads, sets, deletes)) refl

apply_repo-Keeps_example :
    lookup "KEEP" (apply_repo system memory config "acme" "site" true start).1.vars ≡ some "1"
unfolding text_dec
apply_repo-Keeps_example =
    apply_repo-Keeps system memory "acme" "site" HasKeep config true acme (some own) found unique
      key_reads sets start refl

audit_repo-Keeps_example : (audit_repo system memory config "acme" "site" true true start).1 ≡ start
audit_repo-Keeps_example =
    audit_repo-Keeps system memory "acme" "site" (λ s. s ≡ start) config true true
      (record { variables = λ s p. p; secrets = λ s p. p; dependabot = λ s p. p }) start refl

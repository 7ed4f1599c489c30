-- ===== src/Tests/Orders.antt =====
-- The plan of the repo of the runs, from a block of all repos that is visited in another order.
use ghsecretman.Tests.Footprints.{unique}
use ghsecretman.Plan.Cascade.Order.{for_repo_cascade-SameRepo}
use ghsecretman.Tests.Runs.{token, own, shared, literal}
use ghsecretman.Plan.Cascade.{for_repo_cascade}
use ghsecretman.Config.{Repo}
use ghsecretman.Base.Maps.{SameMap, NodupKeys, lookup, Map}
use ghsecretman.Plan.{managed_for, ignored_for, Kind, kind_var, kind_secret, kind_dependabot}
use ghsecretman.Base.{text_dec, String, false, some, [], ◌∷◌, ◌≡◌, refl, arith, ◌==◌, contains}

abbrev shuffled : Repo
shuffled = record {
  managed = record {
    vars = ("LEVEL", literal "LEVEL" "3") ∷ ("REGION", literal "REGION" "eu") ∷ [];
    secrets = ("SEED", token) ∷ ("TOKEN", token) ∷ [];
    dependabot = [];
  };
  ignored = shared.ignored;
}

abbrev itself : {V : Type 0} (m : Map V) → NodupKeys m → SameMap m m
itself m u = record { left_keys = u; right_keys = u; same = λ k. refl }

swap-lookup :
    {V : Type 0} (a b : String) (v w : V) (k : String)
    → (a == b) ≡ false
    → lookup k ((a, v) ∷ ((b, w) ∷ [])) ≡ lookup k ((b, w) ∷ ((a, v) ∷ []))
swap-lookup a b v w k d = ground arith

same_managed : (k : Kind) → SameMap (managed_for (some shared) k) (managed_for (some shuffled) k)
unfolding text_dec
same_managed kind_var = record {
  left_keys = (refl, (refl, tt));
  right_keys = (refl, (refl, tt));
  same = λ k. swap-lookup "REGION" "LEVEL" _ _ k refl;
}
same_managed kind_secret = record {
  left_keys = (refl, (refl, tt));
  right_keys = (refl, (refl, tt));
  same = λ k. swap-lookup "TOKEN" "SEED" _ _ k refl;
}
same_managed kind_dependabot = itself [] tt

same_ignored :
    (k : Kind) (n : String)
    → contains (ignored_for (some shared) k) n ≡ contains (ignored_for (some shuffled) k) n
same_ignored kind_var n = refl
same_ignored kind_secret n = refl
same_ignored kind_dependabot n = refl

for_repo_cascade-SameRepo_example :
    for_repo_cascade "site" (some shared) (some own)
    ≡ for_repo_cascade "site" (some shuffled) (some own)
for_repo_cascade-SameRepo_example =
    for_repo_cascade-SameRepo "site" (record { managed = same_managed; ignored = same_ignored })
      (record {
        managed = λ k. itself (managed_for (some own) k) (unique k);
        ignored = λ k n. refl;
      })

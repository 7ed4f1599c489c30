-- ===== src/Runner/Owner/Targets.antt =====
-- The repos that a command for an owner works on.
use ghsecretman.Runner.Footprint.{All}
use ghsecretman.Plan.Organization.{occurrences}
use ghsecretman.Base.{
  length, ℕ, ◌+◌, String, true, Option, none, some, List, [], ◌∷◌, ◌≡◌, ap, ◌∙◌, arith, Result, ok,
  inl, inr, if◌then◌else◌, Option-cases,
}
use ghsecretman.Config.{Config, Repo, Org}
use ghsecretman.System.{System}
use ghsecretman.Runner.Owner.{is_addressed, split_repos}
use ghsecretman.Runner.Target.{lookup_target}
use ghsecretman.Base.{
  ℕ, ◌+◌, String, true, Option, none, some, List, [], ◌∷◌, ◌≡◌, ap, ◌∙◌, arith, Result, ok, inl,
  inr, if◌then◌else◌, Option-cases,
}

pub split_repos-length :
    (o : Org) (all : List String)
    → length (split_repos o all).0 + (split_repos o all).1 ≡ length all
unfolding split_repos
split_repos-length o [] = omega arith
split_repos-length o (r ∷ all) = ground (arith, split_repos-length o all)

pub occurrences-split_repos :
    (o : Org) (all : List String) (r : String)
    → occurrences r (split_repos o all).0 ≡ (if is_addressed o r then occurrences r all else 0)
unfolding split_repos
occurrences-split_repos o [] r = ground arith
occurrences-split_repos o (x ∷ all) r = ground (arith, occurrences-split_repos o all r)

-- What a selection of the listed repos `all` is to be.
pub record IsSelection (sys : System) (cfg : Config) (org : String) (o : Org)
    (all repos : List String) (skipped : ℕ) : Type 0 where
  pub counted : length repos + skipped ≡ length all
  pub kept :
      (r : String) → occurrences r repos ≡ (if is_addressed o r then occurrences r all else 0)
  pub found : All (λ r. (t : Org × Option Repo) × (lookup_target sys cfg org r ≡ ok t)) repos

-- ===== src/Plan/Cascade/EffectiveIgnored.antt =====
-- `EffectiveIgnored`, name by name.
use ghsecretman.Base.{
  String, Bool, false, List, [], ◌∷◌, ◌≡◌, refl, ◌∙◌, arith, contains, contains-append, Option,
  none, some, ◌&&◌, ◌||◌, ◌==◌,
}
use ghsecretman.Base.Maps.{NodupKeys}
use ghsecretman.Config.{Repo, Ignored}
use ghsecretman.Plan.{
  Kind, kind_var, kind_secret, kind_dependabot, kind_eq, Action, action_managed, action_unset,
  action_ignored, Intent, managed_for, is_ignoring, select,
}
use ghsecretman.Plan.Cascade.{
  CascadeWinner, no_ignored, add_ignored, collect_ignored, for_repo_cascade, effective_ignored,
}
use ghsecretman.Plan.Cascade.Precedence.{precedence}
use ghsecretman.Plan.Cascade.Intents.{
  planned, ignored_at, IsShaped, precedence-IsShaped, for_repo_cascade-precedence,
}

abbrev pub ignored_list : Ignored → Kind → List String
ignored_list ig kind_var = ig.vars
ignored_list ig kind_secret = ig.secrets
ignored_list ig kind_dependabot = ig.dependabot

abbrev any_ignored : List Intent → Bool
any_ignored [] = false
any_ignored (i ∷ is) = is_ignoring i.action || any_ignored is

module _ (k : Kind) (n : String) where
  contains-add_ignored :
      (a : Action) (kind : Kind) (x : String) (out : Ignored)
      → contains (ignored_list (add_ignored a kind x out) k) n
        ≡ (contains (ignored_list out k) n || is_ignoring a && kind_eq k kind && n == x)
  contains-add_ignored action_unset kind x out = ground arith
  contains-add_ignored action_managed kind x out = ground arith
  contains-add_ignored action_ignored kind_var x out =
      ground (arith, contains-append out.vars (x ∷ []) n)
  contains-add_ignored action_ignored kind_secret x out =
      ground (arith, contains-append out.secrets (x ∷ []) n)
  contains-add_ignored action_ignored kind_dependabot x out =
      ground (arith, contains-append out.dependabot (x ∷ []) n)

  contains-collect_ignored :
      (is : List Intent) (out : Ignored)
      → contains (ignored_list (collect_ignored is out) k) n
        ≡ (contains (ignored_list out k) n || any_ignored (select k n is))
  unfolding collect_ignored
  contains-collect_ignored [] out = ground arith
  contains-collect_ignored (i ∷ is) out =
      contains-collect_ignored is (add_ignored i.action i.kind i.name out)
      ∙ ground (arith, contains-add_ignored i.action i.kind i.name out)

none_yet : (k : Kind) (n : String) (b : Bool) → (contains (ignored_list no_ignored k) n || b) ≡ b
none_yet kind_var n b = refl
none_yet kind_secret n b = refl
none_yet kind_dependabot n b = refl

any_ignored-planned :
    (k : Kind) (n : String) (o : Option CascadeWinner)
    → IsShaped o
    → any_ignored (planned "" k n o) ≡ ignored_at o
any_ignored-planned k n none h = refl
any_ignored-planned k n (some w) h = ground arith

-- `EffectiveIgnored` lists a name for a kind exactly when the precedence rules have it ignored,
-- provided that the per-repo managed blocks are maps.
pub effective_ignored-precedence :
    (ar pr : Option Repo) (k : Kind) (n : String)
    → ((kind : Kind) → NodupKeys (managed_for pr kind))
    → contains (ignored_list (effective_ignored ar pr) k) n ≡ ignored_at (precedence ar pr k n)
unfolding effective_ignored
effective_ignored-precedence ar pr k n u =
    contains-collect_ignored k n (for_repo_cascade "" ar pr) no_ignored
    ∙ rw (for_repo_cascade-precedence "" ar pr k n u)
        (none_yet k n _ ∙ any_ignored-planned k n _ (precedence-IsShaped ar pr k n))

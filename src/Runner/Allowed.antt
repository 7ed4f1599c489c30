-- ===== src/Runner/Allowed.antt =====
-- The calls that each command for one repo may make, stated by what they keep.
use ghsecretman.Runner.Phases.{is_extra}
use ghsecretman.Runner.Resolved.{resolve_all-Found}
use ghsecretman.Plan.Cascade.Intents.{intent_of, for_repo_cascade-precedence, planned}
use ghsecretman.Runner.Footprint.{All-of_pick, All-of_select, MayDelete, MaySet, All}
use ghsecretman.Runner.Target.{resolve_all}
use ghsecretman.Resolve.{resolve}
use ghsecretman.Diff.Verdict.{compute-verdict, verdict, IsLive, is_live}
use ghsecretman.Plan.Cascade.Precedence.{precedence}
use ghsecretman.Diff.{compute, Live}
use ghsecretman.Base.Maps.{get_text, Map, NodupKeys}
use ghsecretman.Plan.Cascade.{effective_ignored, for_repo_cascade, CascadeWinner}
use ghsecretman.Plan.{kind_var, kind_dependabot, is_managed, kind_secret, managed_for, Kind, Intent}
use ghsecretman.System.{System}
use ghsecretman.Base.Calls.{lift, Keeps-wrap, wrap_call, Keeps-bind, Call, Keeps}
use ghsecretman.Runner.Repo.{apply_one, delete_one, needs, fetch_if, fetch_live, fetch_keys}
use ghsecretman.Config.{Repo}
use ghsecretman.Github.{PublicKey, Backend}
use ghsecretman.Base.{
  String, Bool, true, false, Option, none, some, List, [], ◌∷◌, ◌≡◌, refl, ap, ◌∙◌, arith, ok, inl,
  inr, Bool-cases,
}

pub verdict-not_extra :
    (repo : String) (k : Kind) (n : String) (desired : Map String) (live : Live) (w : CascadeWinner)
    → All (λ d. is_extra d.status ≡ false) (verdict repo k n desired live (some w))
verdict-not_extra repo kind_var n desired live w = ground arith
verdict-not_extra repo kind_secret n desired live w = ground arith
verdict-not_extra repo kind_dependabot n desired live w = ground arith

pub All-of_not :
    {A : Type 0} (test : A → Bool) (Q : A → Type 0) (xs : List A)
    → All (λ x. test x ≡ false) xs
    → All (λ x. test x ≡ true → Q x) xs
All-of_not test Q [] h = tt
All-of_not test Q (x ∷ xs) h = (λ e. cc, All-of_not test Q xs h.1)

module _ (b : Backend) (org repo : String) (P : b.State → Type 0) where
  -- The three reads of `fetchLive`.
  pub record KeptByReads : Type 0 where
    pub variables : Keeps P (b.list_repo_variables org repo)
    pub secrets : Keeps P (b.list_repo_secrets org repo)
    pub dependabot : Keeps P (b.list_repo_dependabot_secrets org repo)

  pub record KeptByKeys : Type 0 where
    pub actions : Keeps P (b.get_repo_public_key org repo)
    pub dependabot : Keeps P (b.get_repo_dependabot_public_key org repo)

  pub fetch_live-Keeps : KeptByReads → Keeps P (fetch_live b org repo)
  unfolding fetch_live
  fetch_live-Keeps r = Keeps-bind P (b.list_repo_variables org repo) _ r.variables (λ vars _ _ _.
      Keeps-bind P (b.list_repo_secrets org repo) _ r.secrets (λ secrets _ _ _.
        Keeps-bind P (b.list_repo_dependabot_secrets org repo) _ r.dependabot
          (λ dependabot _ _ _ s p. p)))

  pub fetch_if-Keeps :
      (needed : Bool) (prefix : String) (fetch : Call b.State PublicKey)
      → Keeps P fetch
      → Keeps P (fetch_if needed prefix fetch)
  fetch_if-Keeps false prefix fetch k s p = p
  fetch_if-Keeps true prefix fetch k s p =
      Keeps-bind P (wrap_call prefix fetch) (λ key. lift (ok (some key)))
        (Keeps-wrap P prefix fetch k) (λ key _ _ _ t q. q) s p

  pub fetch_keys-Keeps : KeptByKeys → (is : List Intent) → Keeps P (fetch_keys b org repo is)
  unfolding fetch_keys
  fetch_keys-Keeps k is =
      Keeps-bind P
        (fetch_if (needs kind_secret is) "fetch actions public key"
          (b.get_repo_public_key org repo))
        _ (fetch_if-Keeps _ _ _ k.actions)
        (λ actions _ _ _.
          Keeps-bind P
            (fetch_if (needs kind_dependabot is) "fetch dependabot public key"
              (b.get_repo_dependabot_public_key org repo))
            _ (fetch_if-Keeps _ _ _ k.dependabot) (λ dependabot _ _ _ s p. p))

  -- The writes that the plan calls for: of a managed name, with the text of its entry.
  abbrev pub KeptBySets : System → Option Repo → Option Repo → Type 0
  KeptBySets sys ar pr =
      (k : Kind) (n v : String) (w : CascadeWinner) (ak dk : Option PublicKey)
      → precedence ar pr k n ≡ some w
      → is_managed w.action ≡ true
      → resolve sys w.entry ≡ ok v
      → Keeps P (apply_one b org repo k n v ak dk)

  -- The deletions that the plan calls for: of a live name that no list of the plan names.
  abbrev pub KeptByDeletes : Option Repo → Option Repo → b.State → Type 0
  KeptByDeletes ar pr start =
      (k : Kind) (n : String) (live : Live) (s : b.State)
      → fetch_live b org repo start ≡ (ok live, s)
      → is_live live k n ≡ true
      → precedence ar pr k n ≡ none
      → Keeps P (delete_one b org repo k n)

  module _ (sys : System) (ar pr : Option Repo)
      (u : (kind : Kind) → NodupKeys (managed_for pr kind)) where
    abbrev intents : List Intent
    intents = for_repo_cascade repo ar pr

    sets_for :
        (resolved : Map String) (ak dk : Option PublicKey) (k : Kind) (n : String)
        (o : Option CascadeWinner)
        → resolve_all sys intents ≡ ok resolved
        → KeptBySets sys ar pr
        → precedence ar pr k n ≡ o
        → All (MaySet sys b org repo P resolved ak dk) (planned repo k n o)
    sets_for resolved ak dk k n none r sets e = tt
    sets_for resolved ak dk k n (some w) r sets e = (
      λ m.
          let (v, found, held) =
            resolve_all-Found sys k n intents resolved (intent_of repo k n w) r
              (for_repo_cascade-precedence repo ar pr k n u ∙ ap (planned repo k n) e) m in
          rw (held, get_text) (sets k n v w ak dk e m found),
      tt,
    )

    pub may_set :
        (resolved : Map String) (ak dk : Option PublicKey)
        → resolve_all sys intents ≡ ok resolved
        → KeptBySets sys ar pr
        → All (MaySet sys b org repo P resolved ak dk) intents
    may_set resolved ak dk r sets = All-of_select _ intents (λ k n.
        rw (for_repo_cascade-precedence repo ar pr k n u)
          (sets_for resolved ak dk k n _ r sets refl))

    deletes_for :
        (desired : Map String) (live : Live) (start s : b.State) (k : Kind) (n : String)
        (o : Option CascadeWinner)
        → fetch_live b org repo start ≡ (ok live, s)
        → KeptByDeletes ar pr start
        → precedence ar pr k n ≡ o
        → All (MayDelete sys b org repo P) (verdict repo k n desired live o)
    deletes_for desired live start s k n none f deletes e = elim (Bool-cases (is_live live k n)) [
      | inl there ↦ rw there ((λ _. deletes k n live s f there e), tt)
      | inr gone ↦ rw gone tt
    ]
    deletes_for desired live start s k n (some w) f deletes e =
        All-of_not (λ d. is_extra d.status) _ _ (verdict-not_extra repo k n desired live w)

    pub may_delete :
        (desired : Map String) (live : Live) (start s : b.State)
        → fetch_live b org repo start ≡ (ok live, s)
        → IsLive live
        → KeptByDeletes ar pr start
        → All
            (MayDelete sys b org repo P)
            (compute repo intents desired live (effective_ignored ar pr))
    may_delete desired live start s f l deletes = All-of_pick _ _ (λ k n.
        rw (compute-verdict repo ar pr desired live u l k n)
          (deletes_for desired live start s k n _ f deletes refl))

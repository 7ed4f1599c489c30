-- ===== src/Runner/Target.antt =====
-- What the commands for one repo share: the target, the resolved values, the live state and the
-- public keys.
use ghsecretman.Base.{
  ℕ, String, ◌<>◌, Bool, Option, none, some, List, [], ◌∷◌, Result, ok, err, message, wrap, ◌>>=◌,
  ◌&&◌, if◌then◌else◌,
}
use ghsecretman.Base.Maps.{Map, lookup, insert, get_text}
use ghsecretman.System.{System}
use ghsecretman.Config.{Config, Org, Repo, org_of}
use ghsecretman.Plan.{Kind, kind_var, kind_eq, kind_text, is_managed, Intent}
use ghsecretman.Resolve.{resolve}

-- `Result` of runner.go.
pub record RunResult : Type 0 where
  pub drift : Bool
  pub failed : ℕ

abbrev pub key_of : Kind → String → String
key_of kind name = kind_text kind <> ("/" <> name)

abbrev pub entry_key : Intent → String
entry_key i = key_of i.kind i.name

module _ (sys : System) where
  unfoldable pub find_repo : String → String → Org → Result (Org × Option Repo)
  find_repo org repo o = elim (lookup repo o.per_repo) [
    | some r ↦ ok (o, some r)
    | none ↦ elim o.all_repos [
      | some _ ↦ ok (o, none)
      | none ↦
          err (message ("repo " <> (sys.quote repo <> (" not found under org " <> sys.quote org))))
    ]
  ]

  unfoldable pub lookup_target : Config → String → String → Result (Org × Option Repo)
  unfolding org_of find_repo
  lookup_target cfg org repo = elim (org_of cfg org) [
    | none ↦ err (message ("org " <> (sys.quote org <> " not found in config")))
    | some o ↦ find_repo org repo o
  ]

  -- Each loop that resolves goes through the intents in order, and stops at the first error.
  unfoldable pub resolve_vars_loop : List Intent → Map String → Result (Map String)
  resolve_vars_loop [] out = ok out
  resolve_vars_loop (i ∷ intents) out =
      let skip = resolve_vars_loop intents out in
      let take = wrap ("resolve " <> i.name) (resolve sys i.entry) >>= λ v.
      resolve_vars_loop intents (insert i.name v out) in
      if kind_eq i.kind kind_var && is_managed i.action then take else skip

  unfoldable pub resolve_vars : List Intent → Result (Map String)
  unfolding resolve_vars_loop
  resolve_vars intents = resolve_vars_loop intents []

  unfoldable pub resolve_all_loop : List Intent → Map String → Result (Map String)
  resolve_all_loop [] out = ok out
  resolve_all_loop (i ∷ intents) out =
      let skip = resolve_all_loop intents out in
      let take =
        wrap ("resolve " <> (kind_text i.kind <> ("/" <> i.name))) (resolve sys i.entry) >>= λ v.
        resolve_all_loop intents (insert (entry_key i) v out) in
      if is_managed i.action then take else skip

  unfoldable pub resolve_all : List Intent → Result (Map String)
  unfolding resolve_all_loop
  resolve_all intents = resolve_all_loop intents []

unfoldable pub desired_loop : Map String → List Intent → Map String → Map String
desired_loop resolved [] out = out
desired_loop resolved (i ∷ intents) out = desired_loop resolved intents (
    if kind_eq i.kind kind_var && is_managed i.action
    then insert i.name (get_text (entry_key i) resolved) out
    else out)

unfoldable pub desired_vars_from_resolved : List Intent → Map String → Map String
unfolding desired_loop
desired_vars_from_resolved intents resolved = desired_loop resolved intents []

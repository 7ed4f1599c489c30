-- ===== src/Github/Variables.antt =====
-- `SetRepoVariable`: update, and create where there is nothing to update.
use ghsecretman.Github.Operations.{repo_variable, client}
use ghsecretman.Github.{Backend}
use ghsecretman.Base.Maps.{lookup-insert, lookup, has, Map, insert}
use ghsecretman.Github.Client.{Response, variable_map, ActionsVariable, GoGithub}
use ghsecretman.System.{System}
use ghsecretman.Base.{
  same_number, Error, ℕ, String, true, false, Option, none, some, List, [], ◌≡◌, refl, ◌∙◌, ok, inl,
  inr, ◌==◌, if◌then◌else◌, Bool-cases,
}

-- What GitHub documents of the variables of a repo, for calls that it answers. `IsName` holds of the
-- names that it accepts and keeps as they are spelled: letters in upper case, digits and underscores. An
-- update of such a name changes a variable that is there and answers 404 otherwise; a create adds one
-- that is not there, as long as `HasRoom` says that the repo may have another; and a listing, of which
-- the client reads one page, shows the variables as long as they `Fit` that page.
pub record IsVariableStore (gh : GoGithub) (o r : String) : Type 1 where
  pub vars : gh.State → Map String
  pub IsName : String → Type 0
  pub HasRoom : gh.State → Type 0
  pub Fit : Map String → Type 0
  pub lists :
      (s : gh.State)
      → Fit (vars s)
      → (l : List ActionsVariable) × (gh.list_repo_variables o r s ≡ (ok l, s))
        × ((n : String) → lookup n (variable_map l []) ≡ lookup n (vars s))
  pub updates :
      (n v : String) (s : gh.State)
      → IsName n
      → has n (vars s) ≡ true
      → (resp : Option Response) × (s' : gh.State) × (gh.update_repo_variable o r
            (repo_variable n v)
            s
          ≡ ((resp, none), s'))
        × (vars s' ≡ insert n v (vars s))
  pub misses :
      (n v : String) (s : gh.State)
      → IsName n
      → has n (vars s) ≡ false
      → (resp : Response) × (e : Error) × (gh.update_repo_variable o r (repo_variable n v) s
          ≡ ((some resp, some e), s))
        × (same_number resp.status_code 404 ≡ true)
  pub creates :
      (n v : String) (s : gh.State)
      → IsName n
      → HasRoom s
      → has n (vars s) ≡ false
      → (s' : gh.State) × (gh.create_repo_variable o r (repo_variable n v) s ≡ (ok tt, s'))
        × (vars s' ≡ insert n v (vars s))

module _ (sys : System) (gh : GoGithub) (fuel : ℕ) (o r : String) (store : IsVariableStore gh o r)
    (n v : String) (s : gh.State) where
  abbrev c : Backend
  c = client gh sys fuel

  -- The state after the call, in either case.
  abbrev IsStored : gh.State → Type 0
  IsStored s' =
      (c.set_repo_variable o r n v s ≡ (ok tt, s')) × (store.vars s' ≡ insert n v (store.vars s))

  set_repo_variable-IsStored :
      store.IsName n
      → (has n (store.vars s) ≡ false → store.HasRoom s)
      → (s' : gh.State) × IsStored s'
  set_repo_variable-IsStored named room = elim (Bool-cases (has n (store.vars s))) [
    | inl there ↦
        let (resp, s', e, made) = store.updates n v s named there in (s', (rw e refl, made))
    | inr gone ↦
        let (resp, x, e, missing) = store.misses n v s named gone in
        let (s', f, made) = store.creates n v s named (room gone) gone in
        (s', (rw e (rw missing (rw f refl)), made))
  ]

  -- For a repo whose variables GitHub keeps as it documents, and a name that it keeps as it is spelled,
  -- `SetRepoVariable` succeeds where the variable is there and where it is not but the repo may have
  -- another; `ListRepoVariables` then succeeds and finds the value that was set under its name, and under
  -- every other name what was there before, provided that one page shows all of these variables.
  pub set_repo_variable-list_repo_variables :
      store.IsName n
      → (has n (store.vars s) ≡ false → store.HasRoom s)
      → store.Fit (insert n v (store.vars s))
      → (s' : gh.State) × (m : Map String) × (c.set_repo_variable o r n v s ≡ (ok tt, s'))
        × (c.list_repo_variables o r s' ≡ (ok m, s'))
        × ((j : String) → lookup j m ≡ (if j == n then some v else lookup j (store.vars s)))
  set_repo_variable-list_repo_variables named room fit =
      let (s', (done, made)) = set_repo_variable-IsStored named room in
      let (l, listed, shown) = store.lists s' (rw made fit) in
      (
        s',
        variable_map l [],
        done,
        rw listed refl,
        λ j. shown j ∙ rw made (lookup-insert j n v (store.vars s)),
      )

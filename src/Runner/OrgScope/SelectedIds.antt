-- ===== src/Runner/OrgScope/SelectedIds.antt =====
-- The cache of `resolveSelectedRepoIDs`: what it changes of the result, and of the calls.
use ghsecretman.Base.Calls.{rewrap, next}
use ghsecretman.Runner.Target.{entry_key}
use ghsecretman.Runner.OrgScope.{
  resolve_selected_repo_ids, selected_repo_ids, is_selected, repo_ids,
}
use ghsecretman.Github.{Backend}
use ghsecretman.Plan.{Intent}
use ghsecretman.Base.Maps.{lookup-insert, lookup, insert, Map}
use ghsecretman.Base.{
  Returns, ◌>>=◌, wrap, ℕ, String, ◌<>◌, some, List, [], ◌∷◌, ◌++◌, ◌≡◌, refl, sym, arith, Result,
  ok, err, inl, inr, ◌==◌, if◌then◌else◌, Bool-cases, Option-cases,
}

module _ (org : String) (answer : String → Result ℕ) where
  -- The loops without a cache, for what GitHub answers on a repo's name.
  unfoldable pub plain_ids : List String → List ℕ → Result (List ℕ)
  plain_ids [] ids = ok ids
  plain_ids (name ∷ names) ids =
      wrap ("resolve repo id " <> (org <> ("/" <> name))) (answer name) >>= λ v.
      plain_ids names (ids ++ v ∷ [])

  unfoldable pub plain_repo_ids : List Intent → Map (List ℕ) → Result (Map (List ℕ))
  unfolding plain_ids
  plain_repo_ids [] out = ok out
  plain_repo_ids (i ∷ intents) out =
      let skip = plain_repo_ids intents out in
      let look_up = plain_ids i.selected_repos [] >>= λ ids.
      plain_repo_ids intents (insert (entry_key i) ids out) in
      if is_selected i then look_up else skip

-- The ids alone.
abbrev only_ids : Result (List ℕ × Map ℕ) → Result (List ℕ)
only_ids (ok (ids, cache)) = ok ids
only_ids (err e) = err e

module _ (b : Backend) (org : String) (answer : String → Result ℕ)
    (answers : (n : String) (s : b.State) → (b.get_repo_id org n s).0 ≡ answer n) where
  -- The cache holds what GitHub answered.
  abbrev IsCache : Map ℕ → Type 0
  IsCache cache = (n : String) (v : ℕ) → lookup n cache ≡ some v → answer n ≡ ok v

  insert-IsCache :
      (n : String) (v : ℕ) (cache : Map ℕ)
      → IsCache cache
      → answer n ≡ ok v
      → IsCache (insert n v cache)
  insert-IsCache n v cache c e m w found = elim (Bool-cases (m == n)) [
    | inl same ↦ ground (arith, lookup-insert m n v cache)
    | inr other ↦ c m w (ground (arith, lookup-insert m n v cache))
  ]

  abbrev IsPlain : List String → List ℕ → Result (List ℕ × Map ℕ) → Type 0
  IsPlain names ids r = (only_ids r ≡ plain_ids org answer names ids) × Returns (λ p. IsCache p.1) r

  -- After a call that looks a name up.
  after_answer :
      (name : String) (names : List String) (cache : Map ℕ) (ids : List ℕ) (r : Result ℕ × b.State)
      → r.0 ≡ answer name
      → ((v : ℕ) (s : b.State)
          → answer name ≡ ok v
          → IsPlain names
              (ids ++ v ∷ [])
              (repo_ids b org names (insert name v cache) (ids ++ v ∷ []) s).0)
      → IsPlain
          (name ∷ names)
          ids
          (next
            (λ v. repo_ids b org names (insert name v cache) (ids ++ v ∷ []))
            (rewrap ("resolve repo id " <> (org <> ("/" <> name))) r)).0
  unfolding plain_ids
  after_answer name names cache ids (ok v, s) e k = rw (← e) (k v s (sym e))
  after_answer name names cache ids (err x, s) e k = rw (← e) (refl, tt)

  repo_ids-IsPlain :
      (names : List String) (cache : Map ℕ) (ids : List ℕ) (s : b.State)
      → IsCache cache
      → IsPlain names ids (repo_ids b org names cache ids s).0
  unfolding repo_ids plain_ids
  repo_ids-IsPlain [] cache ids s c = (refl, c)
  repo_ids-IsPlain (name ∷ names) cache ids s c = elim (Option-cases (lookup name cache)) [
    | inr (id, found) ↦
        rw (found, repo_ids, c name id found) (repo_ids-IsPlain names cache (ids ++ id ∷ []) s c)
    | inl absent ↦
        rw (absent, repo_ids)
          (after_answer name names cache ids (b.get_repo_id org name s) (answers name s) (λ v s' e.
            repo_ids-IsPlain names (insert name v cache) (ids ++ v ∷ []) s'
              (insert-IsCache name v cache c e)))
  ]

  after_ids :
      (i : Intent) (is : List Intent) (out : Map (List ℕ)) (r : Result (List ℕ × Map ℕ) × b.State)
      → IsPlain i.selected_repos [] r.0
      → ((found : Map (List ℕ)) (cache : Map ℕ) (s : b.State)
          → IsCache cache
          → (selected_repo_ids b org is cache found s).0 ≡ plain_repo_ids org answer is found)
      → (next
          (λ (f : List ℕ × Map ℕ). selected_repo_ids b org is f.1 (insert (entry_key i) f.0 out))
          r).0
        ≡ (plain_ids org answer i.selected_repos [] >>= λ ids.
            plain_repo_ids org answer is (insert (entry_key i) ids out))
  after_ids i is out (ok (ids, cache), s) (e, c) k =
      rw (← e) (k (insert (entry_key i) ids out) cache s c)
  after_ids i is out (err x, s) (e, c) k = rw (← e) refl

  selected_repo_ids-plain :
      (is : List Intent) (cache : Map ℕ) (out : Map (List ℕ)) (s : b.State)
      → IsCache cache
      → (selected_repo_ids b org is cache out s).0 ≡ plain_repo_ids org answer is out
  unfolding selected_repo_ids plain_repo_ids
  selected_repo_ids-plain [] cache out s c = refl
  selected_repo_ids-plain (i ∷ is) cache out s c = elim (Bool-cases (is_selected i)) [
    | inr skip ↦ rw (skip, selected_repo_ids) (selected_repo_ids-plain is cache out s c)
    | inl take ↦
        rw (take, selected_repo_ids)
          (after_ids i is out (repo_ids b org i.selected_repos cache [] s)
            (repo_ids-IsPlain i.selected_repos cache [] s c)
            (λ found cache' s' c'. selected_repo_ids-plain is cache' found s' c'))
  ]

  -- Where `GetRepoID` gives the same answer on a name whenever it is called, `resolveSelectedRepoIDs`
  -- returns, errors included, what it would return if it kept no answer and called it for every name of
  -- every list: for each managed entry that is visible to selected repos, the ids of its repos in order.
  pub resolve_selected_repo_ids-plain_repo_ids :
      (is : List Intent) (s : b.State)
      → (resolve_selected_repo_ids b org is s).0 ≡ plain_repo_ids org answer is []
  unfolding resolve_selected_repo_ids
  resolve_selected_repo_ids-plain_repo_ids is s =
      selected_repo_ids-plain is [] [] s (λ n v e. absurd (ground arith))

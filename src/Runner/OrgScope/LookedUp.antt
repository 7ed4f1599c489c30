-- ===== src/Runner/OrgScope/LookedUp.antt =====
-- How often `resolveSelectedRepoIDs` looks a name up.
use ghsecretman.Runner.Target.{entry_key}
use ghsecretman.Base.Sort.{IsUnique}
use ghsecretman.Base.Calls.{rewrap, next}
use ghsecretman.Base.Maps.{has-insert, insert, lookup, has, Map}
use ghsecretman.Plan.{Intent}
use ghsecretman.Runner.OrgScope.{
  is_selected, resolve_selected_repo_ids, repo_ids, selected_repo_ids,
}
use ghsecretman.Github.{Backend}
use ghsecretman.Base.{
  ℕ, String, ◌<>◌, true, false, List, [], ◌∷◌, ◌++◌, ◌≡◌, refl, arith, Result, ok, err, inl, inr,
  contains, Bool-cases, Option-cases,
}

module _ (b : Backend) (org : String) (calls : b.State → List String)
    (counts : (n : String) (s : b.State) → calls (b.get_repo_id org n s).1 ≡ n ∷ calls s) where
  -- No name was looked up twice, and the cache has each name that was.
  abbrev IsKnown : Map ℕ → b.State → Type 0
  IsKnown cache s =
      IsUnique (calls s) × ((n : String) → contains (calls s) n ≡ true → has n cache ≡ true)

  -- After an error the cache is gone.
  abbrev IsOnce : Result (List ℕ × Map ℕ) × b.State → Type 0
  IsOnce (ok (ids, cache), s) = IsKnown cache s
  IsOnce (err e, s) = IsUnique (calls s)

  abbrev lookup_of :
      String → List String → Map ℕ → List ℕ → Result ℕ × b.State → Result (List ℕ × Map ℕ) × b.State
  lookup_of name names cache ids r =
      next (λ v. repo_ids b org names (insert name v cache) (ids ++ v ∷ []))
        (rewrap ("resolve repo id " <> (org <> ("/" <> name))) r)

  after_call :
      (name : String) (names : List String) (cache : Map ℕ) (ids : List ℕ) (s : b.State)
      (r : Result ℕ × b.State)
      → calls r.1 ≡ name ∷ calls s
      → has name cache ≡ false
      → IsKnown cache s
      → ((v : ℕ) (s' : b.State)
          → IsKnown (insert name v cache) s'
          → IsOnce (repo_ids b org names (insert name v cache) (ids ++ v ∷ []) s'))
      → IsOnce (lookup_of name names cache ids r)
  after_call name names cache ids s (ok v, s') e absent (u, known) k = k v s' (
    rw e (ground (arith, known name), u),
    λ n. rw e (ground (arith, known n, has-insert n name v cache)),
  )
  after_call name names cache ids s (err x, s') e absent (u, known) k =
      rw e (ground (arith, known name), u)

  repo_ids-IsOnce :
      (names : List String) (cache : Map ℕ) (ids : List ℕ) (s : b.State)
      → IsKnown cache s
      → IsOnce (repo_ids b org names cache ids s)
  unfolding repo_ids
  repo_ids-IsOnce [] cache ids s known = known
  repo_ids-IsOnce (name ∷ names) cache ids s known = elim (Option-cases (lookup name cache)) [
    | inr (id, found) ↦ rw (found, repo_ids) (repo_ids-IsOnce names cache (ids ++ id ∷ []) s known)
    | inl absent ↦
        rw (absent, repo_ids)
          (after_call name names cache ids s (b.get_repo_id org name s) (counts name s)
            (rw (absent, has) refl) known
            (λ v s' known'. repo_ids-IsOnce names (insert name v cache) (ids ++ v ∷ []) s' known'))
  ]

  after_ids :
      (i : Intent) (is : List Intent) (out : Map (List ℕ)) (r : Result (List ℕ × Map ℕ) × b.State)
      → IsOnce r
      → ((found : Map (List ℕ)) (cache : Map ℕ) (s : b.State)
          → IsKnown cache s
          → IsUnique (calls (selected_repo_ids b org is cache found s).1))
      → IsUnique (
          calls
            (next
              (λ (f : List ℕ × Map ℕ).
                selected_repo_ids b org is f.1 (insert (entry_key i) f.0 out))
              r).1)
  after_ids i is out (ok (ids, cache), s) known k = k (insert (entry_key i) ids out) cache s known
  after_ids i is out (err x, s) unique k = unique

  selected_repo_ids-IsUnique :
      (is : List Intent) (cache : Map ℕ) (out : Map (List ℕ)) (s : b.State)
      → IsKnown cache s
      → IsUnique (calls (selected_repo_ids b org is cache out s).1)
  unfolding selected_repo_ids
  selected_repo_ids-IsUnique [] cache out s known = known.0
  selected_repo_ids-IsUnique (i ∷ is) cache out s known = elim (Bool-cases (is_selected i)) [
    | inr skip ↦ rw (skip, selected_repo_ids) (selected_repo_ids-IsUnique is cache out s known)
    | inl take ↦
        rw (take, selected_repo_ids)
          (after_ids i is out (repo_ids b org i.selected_repos cache [] s)
            (repo_ids-IsOnce i.selected_repos cache [] s known)
            (λ found cache' s' known'. selected_repo_ids-IsUnique is cache' found s' known'))
  ]

  -- For whatever keeps the list of the names that `GetRepoID` was called with, if the list is empty
  -- when `resolveSelectedRepoIDs` starts, then no name is in it twice when that ends, in success or in
  -- failure, however many entries name the same repo.
  pub resolve_selected_repo_ids-IsUnique :
      (is : List Intent) (s : b.State)
      → calls s ≡ []
      → IsUnique (calls (resolve_selected_repo_ids b org is s).1)
  unfolding resolve_selected_repo_ids
  resolve_selected_repo_ids-IsUnique is s start =
      selected_repo_ids-IsUnique is [] [] s (rw start (tt, λ n e. cc))

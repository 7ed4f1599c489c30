-- ===== src/Github/Pages.antt =====
-- The loops over pages: they end, and miss no page.
use ghsecretman.Github.Operations.{list_user_repos, list_org_repos}
use mathlib.Core.List.{append_assoc, append-nil}
use ghsecretman.Github.Client.{
  user_names, org_names, GoGithub, next_of, Response, Repository, list_pages,
}
use ghsecretman.Base.{
  length, ◌≤◌, ℕ, zero, suc, String, Option, none, some, List, [], ◌∷◌, ◌++◌, ◌≡◌, refl, arith, ok,
}
use ghsecretman.Base.Calls.{wrap_call, next, Call}

-- GitHub's answers to a chain of requests: each but the last names the next page, the last names none.
-- Between the requests the state may change.
pub data Serves {S : Type 0} (page : ℕ → Call S (List (Option Repository) × Option Response))
    : ℕ → S → List (List (Option Repository)) → S → Type 0 where
  last :
      {n : ℕ} {s s' : S} {items : List (Option Repository)} {r : Option Response}
      → page n s ≡ (ok (items, r), s')
      → next_of r ≡ none
      → Serves page n s (items ∷ []) s'
  more :
      {n m : ℕ} {s s1 s' : S} {items : List (Option Repository)} {r : Option Response}
      {rest : List (List (Option Repository))}
      → page n s ≡ (ok (items, r), s1)
      → next_of r ≡ some m
      → Serves page m s1 rest s'
      → Serves page n s (items ∷ rest) s'

-- The names of all pages, in order.
abbrev pub names_on :
    (List (Option Repository) → List String) → List (List (Option Repository)) → List String
names_on pick [] = []
names_on pick (items ∷ rest) = pick items ++ names_on pick rest

-- Where GitHub serves a number of pages one after the other, the loop with at least as much fuel as
-- there are pages ends, and returns the names of all of them, each page once and in order.
list_pages-Serves :
    {S : Type 0} (page : ℕ → Call S (List (Option Repository) × Option Response))
    (pick : List (Option Repository) → List String) (fuel n : ℕ) (names : List String) (s s' : S)
    (pages : List (List (Option Repository)))
    → Serves page n s pages s'
    → length pages ≤ fuel
    → list_pages fuel page pick n names s ≡ (ok (some (names ++ names_on pick pages)), s')
unfolding list_pages
list_pages-Serves page pick zero n names s s' pages (last a b) h = absurd (omega arith)
list_pages-Serves page pick zero n names s s' pages (more a b t) h = absurd (omega arith)
list_pages-Serves page pick (suc fuel) n names s s' pages (last {items = items} {r = r} a b) h =
    rw a (rw (b, next, append-nil) refl)
list_pages-Serves page pick (suc fuel) n names s s' pages
      (more {m = m} {s1 = s1} {items = items} {r = r} {rest = rest} a b t) h =
    rw a (
      rw (b, next)
        (rw (← append_assoc names (pick items) (names_on pick rest))
          (list_pages-Serves page pick fuel m (names ++ pick items) s1 s' rest t (omega arith))))

-- Where GitHub serves the repos of an owner in a number of pages, `ListOrgRepos` and `ListUserRepos`,
-- with at least as much fuel as there are pages, end, succeed and return the names of all pages in
-- order: of an organization, of every repo that has a name; of a user, of those among them whose owner's
-- login is the user's.
pub list_repos-names_on :
    (gh : GoGithub) (fuel : ℕ) (owner : String) (s s' s'' : gh.State)
    (pages user_pages : List (List (Option Repository)))
    → Serves (λ n. wrap_call "list org repos" (gh.list_by_org owner n)) 0 s pages s'
    → Serves (λ n. wrap_call "list user repos" (gh.list_by_authenticated_user n)) 0 s user_pages s''
    → length pages ≤ fuel
    → length user_pages ≤ fuel
    → (list_org_repos gh fuel owner s ≡ (ok (names_on org_names pages), s'))
      × (list_user_repos gh fuel owner s
          ≡ (ok (names_on (user_names gh.equal_fold owner) user_pages), s''))
unfolding list_org_repos list_user_repos
list_repos-names_on gh fuel owner s s' s'' pages user_pages org user enough enough' = (
  rw (list_pages-Serves _ org_names fuel 0 [] s s' pages org enough) refl,
  rw (list_pages-Serves _ (user_names gh.equal_fold owner) fuel 0 [] s s'' user_pages user enough')
      refl,
)

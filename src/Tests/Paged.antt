-- ===== src/Tests/Paged.antt =====
-- The client over a GitHub that keeps names in upper case and lists a page of them, which is lawful.
use ghsecretman.Github.Client.{variable_map, GoGithub, ActionsVariable, Response, RawKey}
use ghsecretman.Github.Operations.{repo_variable, client, seal_anonymous}
use mathlib.Core.Path.{subst}
use ghsecretman.Base.Maps.{has, Map, insert, lookup}
use ghsecretman.Diff.Verdict.{IsLive, is_live}
use ghsecretman.Tests.Sets.{
  set_dependabot, drop_dependabot, set_secret, drop_secret, drop_var, set_var, view, Becomes,
}
use ghsecretman.Tests.Memory.{system, without, with_name, erase, done, Memory}
use ghsecretman.Runner.Repo.{delete_one, fetch_live, apply_one}
use ghsecretman.Plan.{kind_dependabot, kind_secret, kind_var, kind_eq, Kind}
use ghsecretman.Github.{PublicKey, Backend}
use ghsecretman.Runner.Lawful.{stored, live_at, IsLawful}
use ghsecretman.Base.{
  message, Error, ℕ, zero, suc, String, true, Option, none, some, List, [], ◌∷◌, ◌≡◌, ◌≢◌, refl,
  sym, ap, ◌∙◌, arith, ok, inl, inr, ◌&&◌, ◌==◌, if◌then◌else◌, Bool-cases, Option-cases,
}

-- The upper case of a name; of the names that occur here only this one is not in it.
abbrev pub shouted : String → String
shouted n = if n == "token" then "TOKEN" else n

abbrev pub first_page : {A : Type 0} → ℕ → List A → List A
first_page zero xs = []
first_page (suc n) [] = []
first_page (suc n) (x ∷ xs) = x ∷ first_page n xs

abbrev pub as_page : Map String → List ActionsVariable
as_page [] = []
as_page ((n, v) ∷ m) = repo_variable n v ∷ as_page m

abbrev pub github_key : Option RawKey
github_key = some (record { key_id = some "1"; key = some "k" })

abbrev pub answer : ℕ → Option Response
answer code = some (record { status_code = code; next_page = 0 })

abbrev pub update_variable : ActionsVariable → Memory → (Option Response × Option Error) × Memory
update_variable v s =
    if has (shouted v.name) s.vars
    then ((answer 204, none), record s { vars = insert (shouted v.name) v.value s.vars })
    else ((answer 404, some (message "Not Found")), s)

-- GitHub with one repo: a page has 100 items, and every call takes a name in upper case.
abbrev pub github : GoGithub
github = record {
  State = Memory;
  users_get = λ o s. (ok none, s);
  list_by_authenticated_user = λ n s. (ok ([], none), s);
  list_by_org = λ o n s. (ok ([], none), s);
  repositories_get = λ o r s. (ok none, s);
  list_repo_variables = λ o r s. (ok (first_page 100 (as_page s.vars)), s);
  list_repo_secrets = λ o r s. (ok (some (first_page 100 s.secrets)), s);
  list_repo_dependabot_secrets = λ o r s. (ok (some (first_page 100 s.dependabot)), s);
  get_repo_public_key = λ o r s. (ok github_key, s);
  get_repo_dependabot_public_key = λ o r s. (ok github_key, s);
  update_repo_variable = λ o r v s. update_variable v s;
  create_repo_variable =
      λ o r v s. done (record s { vars = insert (shouted v.name) v.value s.vars });
  set_repo_secret = λ o r es s. done (record s { secrets = with_name (shouted es.name) s.secrets });
  set_repo_dependabot_secret =
      λ o r es s. done (record s { dependabot = with_name (shouted es.name) s.dependabot });
  delete_repo_variable = λ o r n s. done (record s { vars = erase (shouted n) s.vars });
  delete_repo_secret = λ o r n s. done (record s { secrets = without (shouted n) s.secrets });
  delete_repo_dependabot_secret =
      λ o r n s. done (record s { dependabot = without (shouted n) s.dependabot });
  list_org_variables = λ o s. (ok [], s);
  list_org_secrets = λ o s. (ok none, s);
  list_org_dependabot_secrets = λ o s. (ok none, s);
  get_org_public_key = λ o s. (ok github_key, s);
  get_org_dependabot_public_key = λ o s. (ok github_key, s);
  update_org_variable = λ o v s. update_variable v s;
  create_org_variable = λ o v s. done s;
  set_org_secret = λ o es s. done s;
  set_org_dependabot_secret = λ o es s. done s;
  delete_org_variable = λ o n s. done s;
  delete_org_secret = λ o n s. done s;
  delete_org_dependabot_secret = λ o n s. done s;
  equal_fold = λ a c. a == c;
  decode_key = λ k. ok (k, 32);
  seal = λ plaintext bytes s. (ok "sealed", s);
}

abbrev pub paged : Backend
paged = client github system 9

-- All that is there is in upper case.
abbrev pub AllShouted : Memory → Type 0
AllShouted s = (k : Kind) (n x : String) → live_at (view s) k n ≡ some x → shouted n ≡ n

abbrev pub IsKept : Memory → Type 0
IsKept s = IsLive (view s) × AllShouted s

-- What the client makes of the first page of each listing is all that there is.
abbrev pub IsOnePage : Memory → Type 0
IsOnePage s =
    (variable_map (first_page 100 (as_page s.vars)) [] ≡ s.vars)
    × (first_page 100 s.secrets ≡ s.secrets)
    × (first_page 100 s.dependabot ≡ s.dependabot)

becomes-IsKept :
    (k : Kind) (n : String) (new : Option String) (s s' : Memory)
    → shouted n ≡ n
    → AllShouted s
    → Becomes k n new s s'
    → IsKept s'
      × ((j : Kind) (m : String)
          → live_at (view s') j m ≡ (if kind_eq j k && m == n then new else live_at (view s) j m))
becomes-IsKept k n new s s' named all (live, at) = (
  (
    live,
    λ j m x e. elim (Bool-cases (kind_eq j k && m == n)) [
      | inl same ↦ ground (arith, named)
      | inr other ↦ all j m x (ground (arith, at j m))
    ],
  ),
  at,
)

-- A call on a name that is in upper case is a call on that name.
pub called :
    (k : Kind) (n : String) (new : Option String) (s s' : Memory) (next : String → Memory)
    → shouted n ≡ n
    → AllShouted s
    → done (next (shouted n)) ≡ (ok tt, s')
    → Becomes k n new s (next n)
    → IsKept s'
      × ((j : Kind) (m : String)
          → live_at (view s') j m ≡ (if kind_eq j k && m == n then new else live_at (view s) j m))
called k n new s s' next named all e made =
    becomes-IsKept k n new s s' named all
      (subst (Becomes k n new s) (ap next (sym named) ∙ ap (λ r. r.1) e) made)

paged-set_repo_variable :
    (n v : String) (s : Memory)
    → paged.set_repo_variable "acme" "site" n v s
      ≡ done (record s { vars = insert (shouted n) v s.vars })
paged-set_repo_variable n v s = elim (Bool-cases (has (shouted n) s.vars)) [
  | inl there ↦ rw there refl
  | inr gone ↦ rw gone refl
]

pub paged-sets :
    (k : Kind) (n v : String) (ak dk : Option PublicKey) (s s' : Memory)
    → shouted n ≡ n
    → IsKept s
    → apply_one paged "acme" "site" k n v ak dk s ≡ (ok tt, s')
    → IsKept s'
      × ((j : Kind) (m : String)
          → live_at (view s') j m
            ≡ (if kind_eq j k && m == n then some (stored k v) else live_at (view s) j m))
unfolding apply_one seal_anonymous
paged-sets kind_var n v ak dk s s' named (u, all) e =
    called kind_var n (some v) s s' (λ m. record s { vars = insert m v s.vars }) named all
      (sym (paged-set_repo_variable n v s) ∙ e) (set_var n v s u)
paged-sets kind_secret n v none dk s s' named (u, all) e = absurd (ground arith)
paged-sets kind_secret n v (some key) dk s s' named (u, all) e =
    called kind_secret n (some "") s s' (λ m. record s { secrets = with_name m s.secrets }) named
      all e (set_secret n s u)
paged-sets kind_dependabot n v ak none s s' named (u, all) e = absurd (ground arith)
paged-sets kind_dependabot n v ak (some key) s s' named (u, all) e =
    called kind_dependabot n (some "") s s'
      (λ m. record s { dependabot = with_name m s.dependabot }) named all e (set_dependabot n s u)

pub paged-deletes :
    (k : Kind) (n : String) (s s' : Memory)
    → shouted n ≡ n
    → IsKept s
    → delete_one paged "acme" "site" k n s ≡ (ok tt, s')
    → IsKept s'
      × ((j : Kind) (m : String)
          → live_at (view s') j m ≡ (if kind_eq j k && m == n then none else live_at (view s) j m))
unfolding delete_one
paged-deletes kind_var n s s' named (u, all) e =
    called kind_var n none s s' (λ m. record s { vars = erase m s.vars }) named all e
      (drop_var n s u)
paged-deletes kind_secret n s s' named (u, all) e =
    called kind_secret n none s s' (λ m. record s { secrets = without m s.secrets }) named all e
      (drop_secret n s u)
paged-deletes kind_dependabot n s s' named (u, all) e =
    called kind_dependabot n none s s' (λ m. record s { dependabot = without m s.dependabot }) named
      all e (drop_dependabot n s u)

pub paged-reads : (s : Memory) → IsOnePage s → fetch_live paged "acme" "site" s ≡ (ok (view s), s)
unfolding fetch_live
paged-reads s (vars, secrets, dependabot) =
    λ i. (ok (record { vars = vars i; secrets = secrets i; dependabot = dependabot i }), s)

pub paged-spelled :
    (k : Kind) (n : String) (s : Memory) → IsKept s → is_live (view s) k n ≡ true → shouted n ≡ n
paged-spelled kind_var n s (u, all) there = elim (Option-cases (lookup n s.vars)) [
  | inl absent ↦ absurd (ground arith)
  | inr (x, found) ↦ all kind_var n x found
]
paged-spelled kind_secret n s (u, all) there = all kind_secret n "" (ground arith)
paged-spelled kind_dependabot n s (u, all) there = all kind_dependabot n "" (ground arith)

abbrev pub lawful : IsLawful paged "acme" "site"
lawful = record {
  view = view;
  IsValid = IsKept;
  Fits = IsOnePage;
  IsSpelled = λ k n. shouted n ≡ n;
  reads = λ s u fits. paged-reads s fits;
  unique = λ s u. u.0;
  spelled = paged-spelled;
  actions_key = λ s. refl;
  dependabot_key = λ s. refl;
  sets = paged-sets;
  deletes = paged-deletes;
}

-- Where nothing says "token", all is in upper case.
pub shouted-of : (n : String) → n ≢ "token" → shouted n ≡ n
shouted-of n other = elim (Bool-cases (n == "token")) [
  | inl same ↦ absurd (other (ground arith))
  | inr h ↦ rw h refl
]

pub AllShouted-of : (s : Memory) → ((k : Kind) → live_at (view s) k "token" ≡ none) → AllShouted s
AllShouted-of s none_there k n x e = shouted-of n (λ same.
    let h : Path (Option String) none (some x) =
      sym (none_there k) ∙ ap (live_at (view s) k) (sym same) ∙ e in
    absurd (ground arith))

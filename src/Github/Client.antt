-- ===== src/Github/Client.antt =====
-- The client of internal/github/github.go, over the go-github package.
use ghsecretman.Base.Calls.{Call, lift, ◌>>=◌}
use ghsecretman.Base.Maps.{insert, Map}
use ghsecretman.Github.{owner_user, owner_org, OwnerType, PublicKey}
use ghsecretman.Base.{
  Error, message, is_zero, ℕ, zero, suc, String, Bool, Option, none, some, List, [], ◌∷◌, ◌++◌,
  Result, ok, err, if◌then◌else◌,
}

-- A response of GitHub: its status code, and the number of the next page, 0 where there is none.
pub record Response : Type 0 where
  pub status_code : ℕ
  pub next_page : ℕ

-- What go-github decodes. A pointer that may be nil is an `Option`, and a nil text of a getter reads
-- as the empty text.
pub record Repository : Type 0 where
  pub id : Option ℕ
  pub name : Option String
  pub owner_login : String

pub record RawKey : Type 0 where
  pub key_id : Option String
  pub key : Option String

pub record ActionsVariable : Type 0 where
  pub name : String
  pub value : String
  pub visibility : Option String
  pub selected_repository_ids : Option (List ℕ)

pub record EncryptedSecret : Type 0 where
  pub name : String
  pub key_id : String
  pub encrypted_value : String
  pub visibility : String
  pub selected_repository_ids : List ℕ

-- The calls of go-github that the client makes, for one context and with 100 items to a page, and the
-- calls of encoding/base64, nacl/box and strings. A call of a page takes its number; a write returns
-- its response besides its error, since the client reads both.
pub record GoGithub : Type 1 where
  pub State : Type 0
  pub users_get : String → Call State (Option String)
  pub list_by_authenticated_user : ℕ → Call State (List (Option Repository) × Option Response)
  pub list_by_org : String → ℕ → Call State (List (Option Repository) × Option Response)
  pub repositories_get : String → String → Call State (Option Repository)
  pub list_repo_variables : String → String → Call State (List ActionsVariable)
  pub list_repo_secrets : String → String → Call State (Option (List String))
  pub list_repo_dependabot_secrets : String → String → Call State (Option (List String))
  pub get_repo_public_key : String → String → Call State (Option RawKey)
  pub get_repo_dependabot_public_key : String → String → Call State (Option RawKey)
  pub update_repo_variable :
      String → String → ActionsVariable → State → (Option Response × Option Error) × State
  pub create_repo_variable : String → String → ActionsVariable → Call State (Unit {0})
  pub set_repo_secret : String → String → EncryptedSecret → Call State (Unit {0})
  pub set_repo_dependabot_secret : String → String → EncryptedSecret → Call State (Unit {0})
  pub delete_repo_variable : String → String → String → Call State (Unit {0})
  pub delete_repo_secret : String → String → String → Call State (Unit {0})
  pub delete_repo_dependabot_secret : String → String → String → Call State (Unit {0})
  pub list_org_variables : String → Call State (List ActionsVariable)
  pub list_org_secrets : String → Call State (Option (List String))
  pub list_org_dependabot_secrets : String → Call State (Option (List String))
  pub get_org_public_key : String → Call State (Option RawKey)
  pub get_org_dependabot_public_key : String → Call State (Option RawKey)
  pub update_org_variable :
      String → ActionsVariable → State → (Option Response × Option Error) × State
  pub create_org_variable : String → ActionsVariable → Call State (Unit {0})
  pub set_org_secret : String → EncryptedSecret → Call State (Unit {0})
  pub set_org_dependabot_secret : String → EncryptedSecret → Call State (Unit {0})
  pub delete_org_variable : String → String → Call State (Unit {0})
  pub delete_org_secret : String → String → Call State (Unit {0})
  pub delete_org_dependabot_secret : String → String → Call State (Unit {0})
  -- `strings.EqualFold`, `base64.StdEncoding.DecodeString` with the number of bytes it yields, and
  -- `box.SealAnonymous` with the encoding of what it seals, which takes random bytes from the state.
  pub equal_fold : String → String → Bool
  pub decode_key : String → Result (String × ℕ)
  pub seal : String → String → Call State String

-- `GetOwnerType`, past its call: only an account of the type User is one.
abbrev pub owner_type_of : (String → String → Bool) → Option String → OwnerType
owner_type_of equal_fold none = owner_org
owner_type_of equal_fold (some t) = if equal_fold t "User" then owner_user else owner_org

abbrev pub to_public_key : Option RawKey → Result PublicKey
to_public_key none = err (message "github returned an empty public key")
to_public_key (some raw) = elim raw.key_id [
  | none ↦ err (message "github returned an empty public key")
  | some id ↦ elim raw.key [
    | none ↦ err (message "github returned an empty public key")
    | some k ↦ ok (record { key_id = id; key = k })
  ]
]

abbrev pub names_of : Option (List String) → List String
names_of none = []
names_of (some names) = names

-- `out[v.Name] = v.Value`, over the variables of a page.
unfoldable pub variable_map : List ActionsVariable → Map String → Map String
variable_map [] out = out
variable_map (v ∷ vars) out = variable_map vars (insert v.name v.value out)

-- The inner loops of `ListOrgRepos` and `ListUserRepos`.
unfoldable pub org_names : List (Option Repository) → List String
org_names [] = []
org_names (none ∷ repos) = org_names repos
org_names (some r ∷ repos) =
    let rest = org_names repos in elim r.name [ none ↦ rest | some n ↦ n ∷ rest ]

unfoldable pub user_names :
    (String → String → Bool) → String → List (Option Repository) → List String
user_names equal_fold owner [] = []
user_names equal_fold owner (none ∷ repos) = user_names equal_fold owner repos
user_names equal_fold owner (some r ∷ repos) =
    let rest = user_names equal_fold owner repos in
    elim r.name [ none ↦ rest | some n ↦ if equal_fold r.owner_login owner then n ∷ rest else rest ]

-- Whether a response ends a loop over pages, and the next page where it does not.
abbrev pub next_of : Option Response → Option ℕ
next_of none = none
next_of (some r) = if is_zero r.next_page then none else some r.next_page

-- The end of a round: the loop ends with the names, or goes on with the next page.
abbrev pub turn :
    {S : Type 0}
    → (ℕ → Call S (Option (List String)))
    → List String
    → Option ℕ
    → Call S (Option (List String))
turn more names none = lift (ok (some names))
turn more names (some m) = more m

-- The loops over pages of `ListOrgRepos` and `ListUserRepos`, on fuel: `page` asks for a page by its
-- number. Without fuel the model returns none.
unfoldable pub list_pages :
    {S : Type 0}
    → ℕ
    → (ℕ → Call S (List (Option Repository) × Option Response))
    → (List (Option Repository) → List String)
    → ℕ
    → List String
    → Call S (Option (List String))
list_pages zero page pick n names = lift (ok none)
list_pages (suc fuel) page pick n names =
    page n >>= λ (found : List (Option Repository) × Option Response).
    let all = names ++ pick found.0 in
    let more = λ (m : ℕ). list_pages fuel page pick m all in turn more all (next_of found.1)

-- ===== src/Tests/Clients.antt =====
-- A GitHub that keeps the variables of one repo and what was sent as secrets, and the theorems about
-- the client over it.
use ghsecretman.Tests.Paged.{first_page, shouted}
use ghsecretman.Github.Secrets.{client-secrets-Keeps, KeptBySend}
use ghsecretman.Tests.Memory.{key, system}
use ghsecretman.Github.Variables.{set_repo_variable-list_repo_variables, IsVariableStore}
use ghsecretman.Github.{PublicKey}
use ghsecretman.Github.Operations.{client, list_user_repos, list_org_repos, repo_variable}
use ghsecretman.Base.Calls.{Keeps, wrap_call, Call}
use ghsecretman.Base.Maps.{lookup-insert, has, lookup, insert, Map}
use ghsecretman.Github.Pages.{more, last, list_repos-names_on, Serves}
use ghsecretman.Github.Client.{
  user_names, Response, GoGithub, RawKey, Repository, ActionsVariable, EncryptedSecret,
  variable_map, org_names,
}
use ghsecretman.Base.{
  text_dec, message, Error, ℕ, zero, suc, String, Option, none, some, List, [], ◌∷◌, ◌≡◌, refl,
  arith, ok, ◌==◌, if◌then◌else◌, false, ◌++◌, ap, ◌∙◌, contains, Bool, true, err,
}

pub record Hub : Type 0 where
  pub kept : Map String
  pub sent : List String

abbrev two_pages : List (List (Option Repository))
two_pages =
    (some (record { id = some 1; name = some "site"; owner_login = "me" }) ∷ none ∷ [])
    ∷ (some (record { id = some 2; name = some "theirs"; owner_login = "you" }) ∷ [])
    ∷ []

-- The first page, which is asked for as page 0, names page 2; that names none.
abbrev page_of : ℕ → List (Option Repository) × Option Response
page_of zero = (
  some (record { id = some 1; name = some "site"; owner_login = "me" }) ∷ none ∷ [],
  some (record { status_code = 200; next_page = 2 }),
)
page_of (suc n) = (
  some (record { id = some 2; name = some "theirs"; owner_login = "you" }) ∷ [],
  some (record { status_code = 200; next_page = 0 }),
)

abbrev as_page : Map String → List ActionsVariable
as_page [] = []
as_page ((n, v) ∷ m) = as_page m ++ repo_variable n v ∷ []

-- Whether a list has fewer items than a number.
abbrev has_room : {A : Type 0} → ℕ → List A → Bool
has_room zero xs = false
has_room (suc n) [] = true
has_room (suc n) (x ∷ xs) = has_room n xs

-- Every call takes a name in upper case, and a repo may have 500 variables.
abbrev update : ActionsVariable → Hub → (Option Response × Option Error) × Hub
update v s =
    if has (shouted v.name) s.kept
    then (
      (some (record { status_code = 204; next_page = 0 }), none),
      record s { kept = insert (shouted v.name) v.value s.kept },
    )
    else ((some (record { status_code = 404; next_page = 0 }), some (message "Not Found")), s)

abbrev create : ActionsVariable → Call Hub (Unit {0})
create v s =
    if has_room 500 s.kept
    then (ok tt, record s { kept = insert (shouted v.name) v.value s.kept })
    else (err (message "too many variables"), s)

abbrev send : EncryptedSecret → Call Hub (Unit {0})
send es s = (ok tt, record s { sent = es.encrypted_value ∷ s.sent })

abbrev fine : Call Hub (Unit {0})
fine s = (ok tt, s)

abbrev hub_key : Option RawKey
hub_key = some (record { key_id = some "1"; key = some "k" })

abbrev hub : GoGithub
hub = record {
  State = Hub;
  users_get = λ o s. (ok (some "User"), s);
  list_by_authenticated_user = λ n s. (ok (page_of n), s);
  list_by_org = λ o n s. (ok (page_of n), s);
  repositories_get = λ o r s. (ok none, s);
  list_repo_variables = λ o r s. (ok (first_page 100 (as_page s.kept)), s);
  list_repo_secrets = λ o r s. (ok none, s);
  list_repo_dependabot_secrets = λ o r s. (ok none, s);
  get_repo_public_key = λ o r s. (ok hub_key, s);
  get_repo_dependabot_public_key = λ o r s. (ok hub_key, s);
  update_repo_variable = λ o r v. update v;
  create_repo_variable = λ o r v. create v;
  set_repo_secret = λ o r es. send es;
  set_repo_dependabot_secret = λ o r es. send es;
  delete_repo_variable = λ o r n. fine;
  delete_repo_secret = λ o r n. fine;
  delete_repo_dependabot_secret = λ o r n. fine;
  list_org_variables = λ o s. (ok [], s);
  list_org_secrets = λ o s. (ok none, s);
  list_org_dependabot_secrets = λ o s. (ok none, s);
  get_org_public_key = λ o s. (ok hub_key, s);
  get_org_dependabot_public_key = λ o s. (ok hub_key, s);
  update_org_variable = λ o v. update v;
  create_org_variable = λ o v. create v;
  set_org_secret = λ o es. send es;
  set_org_dependabot_secret = λ o es. send es;
  delete_org_variable = λ o n. fine;
  delete_org_secret = λ o n. fine;
  delete_org_dependabot_secret = λ o n. fine;
  equal_fold = λ a c. a == c;
  decode_key = λ k. ok (k, 32);
  seal = λ plaintext bytes s. (ok "sealed", s);
}

abbrev empty_hub : Hub
empty_hub = record { kept = ("OLD", "1") ∷ []; sent = [] }

served :
    Serves {S = Hub}
      (λ n. wrap_call "list org repos" (hub.list_by_org "me" n))
      0
      empty_hub
      two_pages
      empty_hub
served = more refl refl (last refl refl)

served_user :
    Serves {S = Hub}
      (λ n. wrap_call "list user repos" (hub.list_by_authenticated_user n))
      0
      empty_hub
      two_pages
      empty_hub
served_user = more refl refl (last refl refl)

list_repos-names_on_example :
    (list_org_repos hub 2 "me" empty_hub ≡ (ok ("site" ∷ "theirs" ∷ []), empty_hub))
    × (list_user_repos hub 2 "me" empty_hub ≡ (ok ("site" ∷ []), empty_hub))
unfolding org_names user_names text_dec
list_repos-names_on_example =
    list_repos-names_on hub 2 "me" empty_hub empty_hub empty_hub two_pages two_pages served
      served_user (omega arith) (omega arith)

variable_map-append :
    (l : List ActionsVariable) (v : ActionsVariable) (out : Map String)
    → variable_map (l ++ v ∷ []) out ≡ insert v.name v.value (variable_map l out)
unfolding variable_map
variable_map-append [] v out = refl
variable_map-append (x ∷ l) v out = variable_map-append l v (insert x.name x.value out)

variable_map-as_page :
    (m : Map String) (n : String) → lookup n (variable_map (as_page m) []) ≡ lookup n m
unfolding variable_map
variable_map-as_page [] n = refl
variable_map-as_page ((k, v) ∷ m) n = rw (variable_map-append (as_page m) (repo_variable k v) []) (
    lookup-insert n k v (variable_map (as_page m) [])
    ∙ ap (λ o. if n == k then some v else o) (variable_map-as_page m n))

store : IsVariableStore hub "acme" "site"
store = record {
  vars = λ s. s.kept;
  IsName = λ n. shouted n ≡ n;
  HasRoom = λ s. has_room 500 s.kept ≡ true;
  Fit = λ m. first_page 100 (as_page m) ≡ as_page m;
  lists =
      λ s fit. (first_page 100 (as_page s.kept), refl, λ n. rw fit (variable_map-as_page s.kept n));
  updates = λ n v s named there. (
    some (record { status_code = 204; next_page = 0 }),
    record s { kept = insert n v s.kept },
    rw named (rw there refl),
    refl,
  );
  misses = λ n v s named gone. (
    record { status_code = 404; next_page = 0 },
    message "Not Found",
    rw named (rw gone refl),
    refl,
  );
  creates =
      λ n v s named room gone. (record s { kept = insert n v s.kept }, rw (room, named) refl, refl);
}

new_named : shouted "NEW" ≡ "NEW"
unfolding text_dec
new_named = refl

new_fits :
    first_page 100 (as_page (insert "NEW" "2" empty_hub.kept))
    ≡ as_page (insert "NEW" "2" empty_hub.kept)
unfolding text_dec
new_fits = refl

set_repo_variable-list_repo_variables_example :
    (s' : Hub) × (m : Map String) × ((client hub system 9).set_repo_variable "acme" "site" "NEW" "2"
        empty_hub
      ≡ (ok tt, s'))
    × ((client hub system 9).list_repo_variables "acme" "site" s' ≡ (ok m, s'))
    × ((j : String)
        → lookup j m ≡ (if j == "NEW" then some "2" else lookup j (store.vars empty_hub)))
unfolding store
set_repo_variable-list_repo_variables_example =
    set_repo_variable-list_repo_variables system hub 9 "acme" "site" store "NEW" "2" empty_hub
      new_named (λ gone. refl) new_fits

-- The value of the secret has not been sent.
abbrev IsHidden : Hub → Type 0
IsHidden s = contains s.sent "plain" ≡ false

sealed_apart : ("plain" == "sealed") ≡ false
unfolding text_dec
sealed_apart = refl

sends : (k : PublicKey) (name : String) → KeptBySend system hub IsHidden send k name "plain"
sends k name es same_name same_key (bytes, size, s, s', decoded, fits, sealed) t hidden =
    let is : "sealed" ≡ es.encrypted_value = ground arith in
    rw (← is) (ground (arith, sealed_apart))

client-secrets-Keeps_example :
    Keeps IsHidden ((client hub system 9).set_repo_secret "acme" "site" "S" (some key) "plain")
    × Keeps IsHidden
        ((client hub system 9).set_repo_dependabot_secret "acme" "site" "S" (some key) "plain")
    × Keeps IsHidden
        ((client hub system 9).set_org_secret "acme" "S" (some key) "plain" "selected" (7 ∷ []))
    × Keeps IsHidden (
        (client hub system 9).set_org_dependabot_secret "acme" "S"
          (some key)
          "plain"
          "selected"
          (7 ∷ []))
client-secrets-Keeps_example =
    client-secrets-Keeps system hub IsHidden 9 "acme" "site" "S" "plain" (some key) "selected"
      (7 ∷ []) (λ k e bytes unlocked s hidden. hidden)
      (λ k e. (sends k "S", sends k "S", sends k "S", sends k "S"))

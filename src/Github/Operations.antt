-- ===== src/Github/Operations.antt =====
-- The methods of `Client`, which make up a backend, and internal/github/encrypt.go.
use ghsecretman.Github.{PublicKey, OwnerType, Backend}
use ghsecretman.Base.Maps.{Map}
use ghsecretman.System.{System}
use ghsecretman.Github.Client.{
  user_names, to_public_key, variable_map, org_names, owner_type_of, RawKey, list_pages, names_of,
  Repository, EncryptedSecret, GoGithub, ActionsVariable, Response,
}
use ghsecretman.Base.{
  wrapped, same_number, wrap, message, Error, ℕ, String, ◌<>◌, Bool, false, Option, none, some,
  List, [], Result, ok, err, ◌==◌, if◌then◌else◌,
}
use ghsecretman.Base.Calls.{Call, lift, ◌>>=◌, wrap_call}

-- `resp != nil && resp.StatusCode == 404`
abbrev pub is_missing : Option Response → Bool
is_missing none = false
is_missing (some r) = same_number r.status_code 404

abbrev pub org_variable : String → String → String → List ℕ → ActionsVariable
org_variable name value visibility ids = record {
  name = name;
  value = value;
  visibility = some visibility;
  selected_repository_ids = if visibility == "selected" then some ids else none;
}

abbrev pub repo_variable : String → String → ActionsVariable
repo_variable name value = record {
  name = name;
  value = value;
  visibility = none;
  selected_repository_ids = none;
}

-- What an update of a variable leads to: nothing more, the call that creates it, or its error.
abbrev pub after_update :
    {S : Type 0}
    → String
    → String
    → Call S (Unit {0})
    → (Option Response × Option Error) × S
    → Result (Unit {0}) × S
after_update what name create ((resp, none), s) = (ok tt, s)
after_update what name create ((resp, some e), s) =
    if is_missing resp
    then wrap_call ("create " <> (what <> (" variable " <> name))) create s
    else (err (wrapped ("update " <> (what <> (" variable " <> name))) e), s)

module _ (gh : GoGithub) where
  -- The check of the 32 bytes.
  abbrev pub check_key : System → String × ℕ → Result String
  check_key sys (bytes, size) =
      if same_number size 32
      then ok bytes
      else err (message ("public key must be 32 bytes, got " <> sys.decimal size))

  unfoldable pub seal_anonymous : System → String → String → Call gh.State String
  seal_anonymous sys plaintext key = do
    decoded ← lift (wrap "decode public key" (gh.decode_key key))
    bytes ← lift (check_key sys decoded)
    wrap_call "seal anonymous" (gh.seal plaintext bytes)

  -- What the four methods that set a secret share: `what` names the kind of secret, and `send` makes the
  -- call that creates or updates it.
  abbrev pub set_secret :
      System
      → String
      → (EncryptedSecret → Call gh.State (Unit {0}))
      → String
      → Option PublicKey
      → String
      → String
      → List ℕ
      → Call gh.State (Unit {0})
  set_secret sys what send name none plaintext visibility ids =
      lift (err (message ("set " <> (what <> (" " <> (name <> ": missing public key"))))))
  set_secret sys what send name (some key) plaintext visibility ids = do
    enc ← wrap_call ("encrypt " <> (what <> (" " <> name))) (seal_anonymous sys plaintext key.key)
    wrap_call ("set " <> (what <> (" " <> name))) (
        send (record {
          name = name;
          key_id = key.key_id;
          encrypted_value = enc;
          visibility = visibility;
          selected_repository_ids = if visibility == "selected" then ids else [];
        }))

  -- A call that returns a key.
  abbrev pub get_key : String → Call gh.State (Option RawKey) → Call gh.State PublicKey
  get_key prefix call = wrap_call prefix call >>= λ raw. lift (to_public_key raw)

  abbrev pub list_names :
      String → Call gh.State (Option (List String)) → Call gh.State (List String)
  list_names prefix call = wrap_call prefix call >>= λ names. lift (ok (names_of names))

  abbrev pub list_variables :
      String → Call gh.State (List ActionsVariable) → Call gh.State (Map String)
  list_variables prefix call = wrap_call prefix call >>= λ vars. lift (ok (variable_map vars []))

  abbrev pub id_or_error : String → Option Repository → Result ℕ
  id_or_error what none = err (message (what <> ": missing id"))
  id_or_error what (some r) = elim r.id [
    | none ↦ err (message (what <> ": missing id"))
    | some id ↦ ok id
  ]

  -- Where the fuel did not do, which the source has no case for.
  abbrev pub listed : Option (List String) → Result (List String)
  listed none = err (message "more pages than fuel")
  listed (some names) = ok names

  unfoldable pub list_org_repos : ℕ → String → Call gh.State (List String)
  unfolding list_pages org_names
  list_org_repos fuel org = do
    names ← list_pages fuel (λ n. wrap_call "list org repos" (gh.list_by_org org n)) org_names 0 []
    lift (listed names)

  unfoldable pub list_user_repos : ℕ → String → Call gh.State (List String)
  unfolding list_pages user_names
  list_user_repos fuel owner = do
    names ←
        list_pages fuel (λ n. wrap_call "list user repos" (gh.list_by_authenticated_user n))
          (user_names gh.equal_fold owner) 0 []
    lift (listed names)

  abbrev pub get_owner_type : System → String → Call gh.State OwnerType
  get_owner_type sys owner = do
    account ← wrap_call ("get owner " <> sys.quote owner) (gh.users_get owner)
    lift (ok (owner_type_of gh.equal_fold account))

  abbrev pub get_repo_id : String → String → Call gh.State ℕ
  get_repo_id org repo =
      let what = "get repo " <> (org <> ("/" <> repo)) in
      wrap_call what (gh.repositories_get org repo) >>= λ r. lift (id_or_error what r)

  -- `Client`
  abbrev pub client : System → ℕ → Backend
  client sys fuel = record {
    State = gh.State;
    get_owner_type = get_owner_type sys;
    list_org_repos = list_org_repos fuel;
    list_user_repos = list_user_repos fuel;
    list_repo_variables = λ o r. list_variables "list repo variables" (gh.list_repo_variables o r);
    list_repo_secrets = λ o r. list_names "list repo secrets" (gh.list_repo_secrets o r);
    list_repo_dependabot_secrets =
        λ o r. list_names "list repo dependabot secrets" (gh.list_repo_dependabot_secrets o r);
    get_repo_public_key = λ o r. get_key "get repo actions public key" (gh.get_repo_public_key o r);
    get_repo_dependabot_public_key =
        λ o r. get_key "get repo dependabot public key" (gh.get_repo_dependabot_public_key o r);
    set_repo_variable = λ o r n v s.
        after_update "repo" n (gh.create_repo_variable o r (repo_variable n v))
          (gh.update_repo_variable o r (repo_variable n v) s);
    set_repo_secret =
        λ o r n k v. set_secret sys "repo secret" (gh.set_repo_secret o r) n k v "" [];
    set_repo_dependabot_secret = λ o r n k v.
        set_secret sys "repo dependabot secret" (gh.set_repo_dependabot_secret o r) n k v "" [];
    delete_repo_variable =
        λ o r n. wrap_call ("delete repo variable " <> n) (gh.delete_repo_variable o r n);
    delete_repo_secret =
        λ o r n. wrap_call ("delete repo secret " <> n) (gh.delete_repo_secret o r n);
    delete_repo_dependabot_secret = λ o r n.
        wrap_call ("delete repo dependabot secret " <> n) (gh.delete_repo_dependabot_secret o r n);
    list_org_variables = λ o. list_variables "list org variables" (gh.list_org_variables o);
    list_org_secrets = λ o. list_names "list org secrets" (gh.list_org_secrets o);
    list_org_dependabot_secrets =
        λ o. list_names "list org dependabot secrets" (gh.list_org_dependabot_secrets o);
    get_org_public_key = λ o. get_key "get org actions public key" (gh.get_org_public_key o);
    get_org_dependabot_public_key =
        λ o. get_key "get org dependabot public key" (gh.get_org_dependabot_public_key o);
    set_org_variable = λ o n v vis ids s.
        after_update "org" n (gh.create_org_variable o (org_variable n v vis ids))
          (gh.update_org_variable o (org_variable n v vis ids) s);
    set_org_secret =
        λ o n k v vis ids. set_secret sys "org secret" (gh.set_org_secret o) n k v vis ids;
    set_org_dependabot_secret = λ o n k v vis ids.
        set_secret sys "org dependabot secret" (gh.set_org_dependabot_secret o) n k v vis ids;
    delete_org_variable =
        λ o n. wrap_call ("delete org variable " <> n) (gh.delete_org_variable o n);
    delete_org_secret = λ o n. wrap_call ("delete org secret " <> n) (gh.delete_org_secret o n);
    delete_org_dependabot_secret = λ o n.
        wrap_call ("delete org dependabot secret " <> n) (gh.delete_org_dependabot_secret o n);
    get_repo_id = get_repo_id;
  }

-- `NewClientFromEnv`, of which the token is what it makes the client with. `os.Getenv` reads an unset
-- variable as the empty text.
abbrev pub getenv : System → String → String
getenv sys name = elim (sys.lookup_env name) [ none ↦ "" | some v ↦ v ]

unfoldable pub token_from_env : System → Result String
token_from_env sys =
    let preferred = getenv sys "GITHUB_TOKEN" in
    let token = if preferred == "" then getenv sys "GH_TOKEN" else preferred in
    if token == ""
    then err (message "no GitHub token found in GITHUB_TOKEN or GH_TOKEN")
    else ok token

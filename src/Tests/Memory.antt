-- ===== src/Tests/Memory.antt =====
-- One repo held in memory, and an operating system with one variable.
use ghsecretman.System.{System}
use ghsecretman.Github.{owner_org, Backend, PublicKey}
use ghsecretman.Base.Maps.{lookup, insert, Map}
use ghsecretman.Base.{
  message, String, ◌<>◌, false, none, some, List, [], ◌∷◌, Result, ok, err, ◌==◌, if◌then◌else◌,
  contains, ◌≡◌, arith,
}

pub record Memory : Type 0 where
  pub vars : Map String
  pub secrets : List String
  pub dependabot : List String

abbrev pub erase {ℓ} : {V : Type ℓ} → String → Map V → Map V
erase k [] = []
erase k ((j, v) ∷ m) = let rest = erase k m in if k == j then rest else (j, v) ∷ rest

pub lookup-erase :
    (j k : String) (m : Map String) → lookup j (erase k m) ≡ (if j == k then none else lookup j m)
lookup-erase j k [] = ground arith
lookup-erase j k ((i, v) ∷ m) = ground (arith, lookup-erase j k m)

abbrev pub without : String → List String → List String
without n [] = []
without n (x ∷ xs) = let rest = without n xs in if n == x then rest else x ∷ rest

abbrev pub with_name : String → List String → List String
with_name n xs = if contains xs n then xs else n ∷ xs

abbrev pub key : PublicKey
key = record { key_id = "1"; key = "k" }

abbrev pub done : Memory → Result (Unit {0}) × Memory
done s = (ok tt, s)

abbrev pub memory : Backend
memory = record {
  State = Memory;
  get_owner_type = λ o s. (ok owner_org, s);
  list_org_repos = λ o s. (ok ("site" ∷ []), s);
  list_user_repos = λ o s. (ok ("site" ∷ []), s);
  list_repo_variables = λ o r s. (ok s.vars, s);
  list_repo_secrets = λ o r s. (ok s.secrets, s);
  list_repo_dependabot_secrets = λ o r s. (ok s.dependabot, s);
  get_repo_public_key = λ o r s. (ok key, s);
  get_repo_dependabot_public_key = λ o r s. (ok key, s);
  set_repo_variable = λ o r n v s. done (record s { vars = insert n v s.vars });
  set_repo_secret = λ o r n k v s. done (record s { secrets = with_name n s.secrets });
  set_repo_dependabot_secret =
      λ o r n k v s. done (record s { dependabot = with_name n s.dependabot });
  delete_repo_variable = λ o r n s. done (record s { vars = erase n s.vars });
  delete_repo_secret = λ o r n s. done (record s { secrets = without n s.secrets });
  delete_repo_dependabot_secret =
      λ o r n s. done (record s { dependabot = without n s.dependabot });
  list_org_variables = λ o s. (ok [], s);
  list_org_secrets = λ o s. (ok [], s);
  list_org_dependabot_secrets = λ o s. (ok [], s);
  get_org_public_key = λ o s. (ok key, s);
  get_org_dependabot_public_key = λ o s. (ok key, s);
  set_org_variable = λ o n v z ids s. done s;
  set_org_secret = λ o n k v z ids s. done s;
  set_org_dependabot_secret = λ o n k v z ids s. done s;
  delete_org_variable = λ o n s. done s;
  delete_org_secret = λ o n s. done s;
  delete_org_dependabot_secret = λ o n s. done s;
  get_repo_id = λ o r s. (ok 7, s);
}

abbrev pub system : System
system = record {
  read_file = λ path. err (message "no such file");
  lookup_env = λ name. if name == "TOKEN" then some "t0k" else none;
  is_abs = λ path. false;
  clean = λ path. path;
  join = λ a b. a <> ("/" <> b);
  dir = λ path. path;
  quote = λ t. "'" <> (t <> "'");
  decimal = λ n. "1";
}

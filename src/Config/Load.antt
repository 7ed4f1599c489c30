-- ===== src/Config/Load.antt =====
-- `Load`, `LoadBytes` and `lookupKey`, and what they promise of a configuration.
use ghsecretman.Config.Orgs.Blocks.{decode_org_scope-IsValidOrgScope, IsValidOrgScope}
use ghsecretman.Config.Repos.{decode_repo}
use ghsecretman.Config.Orgs.{per_repo_round, org_round, decode_org}
use ghsecretman.Config.Yaml.{Returns-each_pair, each_pair, Yaml}
use ghsecretman.Config.Repos.Valid.{decode_repo-IsValidRepo, IsValidRepo}
use ghsecretman.Base.Maps.{insert-IsMapOf, insert, empty-IsMapOf, Map, IsMapOf}
use ghsecretman.Config.{OrgScope, Config, Org, Repo}
use ghsecretman.System.{System}
use ghsecretman.Base.{
  Returns-of, Returns-then, Returns-bind, Returns-if, Returns, Returns-ok, message, wrap, ◌>>=◌,
  index_out_of_range, String, not, Option, none, some, List, [], ◌∷◌, ◌≡◌, Result, ok, err, ◌==◌,
  if◌then◌else◌,
}

module _ (sys : System) (y : Yaml) where
  -- A key that ends a list of odd length makes Go panic where it is the one looked for.
  unfoldable pub lookup_key : String → List y.Node → Result (Option y.Node)
  lookup_key key [] = ok none
  lookup_key key (k ∷ []) = if y.value k == key then err index_out_of_range else ok none
  lookup_key key (k ∷ (v ∷ rest)) =
      let others = lookup_key key rest in if y.value k == key then ok (some v) else others

  abbrev pub orgs_round : String → y.Node → y.Node → Map Org → Result (Map Org)
  orgs_round base_dir k v orgs =
      decode_org sys y base_dir (y.value k) v >>= λ o. ok (insert (y.value k) o orgs)

  abbrev pub with_orgs : String → Result (Map Org) → Result Config
  with_orgs base_dir r = r >>= λ orgs. ok (record { base_dir = base_dir; orgs = orgs })

  abbrev pub load_github : String → Option y.Node → Result Config
  load_github base_dir none = with_orgs base_dir (ok [])
  load_github base_dir (some gh) =
      if not (y.is_mapping gh)
      then err (message "github.com must be a mapping")
      else with_orgs base_dir (each_pair (orgs_round base_dir) (y.content gh) [])

  abbrev pub load_root : String → y.Node → Result Config
  load_root base_dir root =
      if not (y.is_mapping root)
      then err (message "top-level document must be a mapping")
      else lookup_key "github.com" (y.content root) >>= load_github base_dir

  abbrev pub load_document : String → List y.Node → Result Config
  load_document base_dir [] = with_orgs base_dir (ok [])
  load_document base_dir (root ∷ _) = load_root base_dir root

  unfoldable pub load_bytes : String → String → Result Config
  unfolding lookup_key
  load_bytes bytes base_path =
      let base_dir = sys.dir base_path in
      wrap "parse yaml" (y.unmarshal bytes) >>= λ top.
      if y.is_document top then load_document base_dir (y.content top) else load_root base_dir top

  unfoldable pub load : String → Result Config
  load path = sys.read_file path >>= λ bytes. load_bytes bytes path

abbrev pub IsValidShared : Option Repo → Type 0
IsValidShared none = Unit
IsValidShared (some r) = IsValidRepo r

abbrev pub IsValidScope : Option OrgScope → Type 0
IsValidScope none = Unit
IsValidScope (some s) = IsValidOrgScope s

pub record IsValidOrg (o : Org) : Type 0 where
  pub scope : IsValidScope o.org_scope
  pub shared : IsValidShared o.all_repos
  pub per_repo : IsMapOf (λ name r. IsValidRepo r) o.per_repo

abbrev pub IsValidConfig : Config → Type 0
IsValidConfig c = IsMapOf (λ name o. IsValidOrg o) c.orgs

module _ (sys : System) (y : Yaml) (base_dir : String) where
  repo_decoded :
      (repo : String) (n : y.Node) → Returns IsValidRepo (decode_repo sys y base_dir repo n)
  repo_decoded repo n = Returns-of IsValidRepo _ (decode_repo-IsValidRepo sys y base_dir repo n)

  per_repo_round-IsValidOrg :
      (k v : y.Node) (o : Org)
      → IsValidOrg o
      → Returns IsValidOrg (per_repo_round sys y base_dir k v o)
  per_repo_round-IsValidOrg k v o h =
      Returns-bind IsValidRepo IsValidOrg _ _ (repo_decoded (y.value k) v) (λ r _ p. record {
        scope = h.scope;
        shared = h.shared;
        per_repo = insert-IsMapOf (λ name r. IsValidRepo r) (y.value k) r o.per_repo h.per_repo p;
      })

  org_round-IsValidOrg :
      (org : String) (k v : y.Node) (o : Org)
      → IsValidOrg o
      → Returns IsValidOrg (org_round sys y base_dir org k v o)
  org_round-IsValidOrg org k v o h =
      Returns-if IsValidOrg (y.value k == "per-repo") _ _
        (λ _.
          Returns-if IsValidOrg (not (y.is_mapping v)) _ _ (λ _. tt)
            (λ _.
              Returns-each_pair IsValidOrg (per_repo_round sys y base_dir) per_repo_round-IsValidOrg
                (y.content v) o h))
        (λ _.
          Returns-if IsValidOrg (y.value k == "all-repos") _ _
            (λ _.
              Returns-bind IsValidRepo IsValidOrg _ _ (repo_decoded "all-repos" v)
                (λ r _ p. record { scope = h.scope; shared = p; per_repo = h.per_repo }))
            (λ _.
              Returns-if IsValidOrg (y.value k == "org") _ _
                (λ _.
                  Returns-bind IsValidOrgScope IsValidOrg _ _
                    (Returns-of IsValidOrgScope _
                      (decode_org_scope-IsValidOrgScope sys y base_dir org v))
                    (λ s _ p. record { scope = p; shared = h.shared; per_repo = h.per_repo }))
                (λ _. tt)))

  decode_org-IsValidOrg :
      (org : String) (n : y.Node) → Returns IsValidOrg (decode_org sys y base_dir org n)
  unfolding decode_org
  decode_org-IsValidOrg org n =
      Returns-if IsValidOrg (not (y.is_mapping n)) _ _ (λ _. tt)
        (λ _.
          Returns-each_pair IsValidOrg (org_round sys y base_dir org) (org_round-IsValidOrg org)
            (y.content n) _
            (record {
              scope = tt;
              shared = tt;
              per_repo = empty-IsMapOf (λ name r. IsValidRepo r);
            }))

  abbrev AreValid : Map Org → Type 0
  AreValid = IsMapOf (λ name o. IsValidOrg o)

  orgs_round-AreValid :
      (k v : y.Node) (m : Map Org) → AreValid m → Returns AreValid (orgs_round sys y base_dir k v m)
  orgs_round-AreValid k v m h =
      Returns-bind IsValidOrg AreValid _ _ (decode_org-IsValidOrg (y.value k) v)
        (λ o _ p. insert-IsMapOf (λ name o. IsValidOrg o) (y.value k) o m h p)

  none_yet : AreValid []
  none_yet = empty-IsMapOf (λ name o. IsValidOrg o)

  load_github-IsValidConfig :
      (o : Option y.Node) → Returns IsValidConfig (load_github sys y base_dir o)
  load_github-IsValidConfig none = none_yet
  load_github-IsValidConfig (some gh) =
      Returns-if IsValidConfig (not (y.is_mapping gh)) _ _ (λ _. tt)
        (λ _.
          Returns-bind AreValid IsValidConfig _ _
            (Returns-each_pair AreValid (orgs_round sys y base_dir) orgs_round-AreValid
              (y.content gh) [] none_yet)
            (λ orgs _ p. p))

  load_root-IsValidConfig : (root : y.Node) → Returns IsValidConfig (load_root sys y base_dir root)
  load_root-IsValidConfig root =
      Returns-if IsValidConfig (not (y.is_mapping root)) _ _ (λ _. tt)
        (λ _.
          Returns-then IsValidConfig (lookup_key sys y "github.com" (y.content root))
            (load_github sys y base_dir) load_github-IsValidConfig)

  load_document-IsValidConfig :
      (l : List y.Node) → Returns IsValidConfig (load_document sys y base_dir l)
  load_document-IsValidConfig [] = none_yet
  load_document-IsValidConfig (root ∷ _) = load_root-IsValidConfig root

-- Every configuration that `LoadBytes` returns holds, for every organization, in its own block, in the
-- block of all repos and in that of each repo, maps of entries that carry the name they are stored
-- under and have exactly one source, and no name that is both managed and ignored in the same block;
-- and each entry of an organization's own block has a visibility that fits its list of repos.
pub load_bytes-IsValidConfig :
    (sys : System) (y : Yaml) (bytes base_path : String) (cfg : Config)
    → load_bytes sys y bytes base_path ≡ ok cfg
    → IsValidConfig cfg
unfolding load_bytes
load_bytes-IsValidConfig sys y bytes base_path cfg =
    let base_dir = sys.dir base_path in
    Returns-ok IsValidConfig _ cfg (
      Returns-then IsValidConfig (wrap "parse yaml" (y.unmarshal bytes)) _ (λ top.
        Returns-if IsValidConfig (y.is_document top) _ _
          (λ _. load_document-IsValidConfig sys y base_dir (y.content top))
          (λ _. load_root-IsValidConfig sys y base_dir top)))

-- ===== src/Config/Repos/Valid.antt =====
-- What decoding a repo promises.
use mathlib.Core.Path.{subst}
use ghsecretman.Config.Yaml.{Returns-each_pair, each_pair, Yaml}
use ghsecretman.Config.Entries.{
  decode_entries-IsValidEntries, decode_entries, IsValidEntries, IsValidEntry,
}
use ghsecretman.Base.Maps.{has, Map, empty-IsMapOf}
use ghsecretman.Config.Repos.{
  decode_ignored, repo_conflict, empty_repo, check_managed_ignored_conflict, decode_managed,
  decode_repo, managed_round, repo_round, conflict_loop,
}
use ghsecretman.System.{System}
use ghsecretman.Config.{Managed, Repo}
use ghsecretman.Base.{
  Returns-then, ok_injective, Returns-ok, Returns-bind, Returns-if, Returns-of, Returns, guard_ok,
  bind_ok, Error, String, true, false, not, List, [], ◌∷◌, ◌≡◌, arith, ok, inl, inr, ◌==◌, contains,
  Bool-cases, ◌<>◌,
}

-- No name is both managed and ignored.
abbrev pub IsApart : {V : Type 0} → Map V → List String → Type 0
IsApart m l = (n : String) → contains l n ≡ true → has n m ≡ false

pub record IsValidManaged (m : Managed) : Type 0 where
  pub vars : IsValidEntries m.vars
  pub secrets : IsValidEntries m.secrets
  pub dependabot : IsValidEntries m.dependabot

pub record IsValidRepo (r : Repo) : Type 0 where
  pub managed : IsValidManaged r.managed
  pub vars : IsApart r.managed.vars r.ignored.vars
  pub secrets : IsApart r.managed.secrets r.ignored.secrets
  pub dependabot : IsApart r.managed.dependabot r.ignored.dependabot

pub conflict_loop-IsApart :
    {V : Type 0} (conflict : String → Error) (m : Map V) (l : List String) (u : Unit)
    → conflict_loop conflict m l ≡ ok u
    → IsApart m l
unfolding conflict_loop
conflict_loop-IsApart conflict m [] u h n e = ground arith
conflict_loop-IsApart conflict m (x ∷ l) u h n e = elim (Bool-cases (has x m)) [
  | inl both ↦ absurd (ground arith)
  | inr free ↦ ground (arith, conflict_loop-IsApart conflict m l u (ground arith) n)
]

empty_managed-IsValidManaged : IsValidManaged (record { vars = []; secrets = []; dependabot = [] })
empty_managed-IsValidManaged = record {
  vars = empty-IsMapOf IsValidEntry;
  secrets = empty-IsMapOf IsValidEntry;
  dependabot = empty-IsMapOf IsValidEntry;
}

module _ (sys : System) (y : Yaml) (base_dir repo : String) where
  decoded :
      (section : String) (n : y.Node)
      → Returns IsValidEntries (decode_entries sys y base_dir repo section n)
  decoded section n =
      Returns-of IsValidEntries _ (decode_entries-IsValidEntries sys y base_dir repo section n)

  managed_round-IsValidManaged :
      (k v : y.Node) (a : Managed)
      → IsValidManaged a
      → Returns IsValidManaged (managed_round sys y base_dir repo k v a)
  managed_round-IsValidManaged k v a h =
      Returns-if IsValidManaged (y.value k == "vars") _ _
        (λ _.
          Returns-bind IsValidEntries IsValidManaged _ _ (decoded "vars" v)
            (λ es _ p. record { vars = p; secrets = h.secrets; dependabot = h.dependabot }))
        (λ _.
          Returns-if IsValidManaged (y.value k == "secrets") _ _
            (λ _.
              Returns-bind IsValidEntries IsValidManaged _ _ (decoded "secrets" v)
                (λ es _ p. record { vars = h.vars; secrets = p; dependabot = h.dependabot }))
            (λ _.
              Returns-if IsValidManaged (y.value k == "dependabot") _ _
                (λ _.
                  Returns-bind IsValidEntries IsValidManaged _ _ (decoded "dependabot" v)
                    (λ es _ p. record { vars = h.vars; secrets = h.secrets; dependabot = p }))
                (λ _. tt)))

  decode_managed-IsValidManaged :
      (n : y.Node) → Returns IsValidManaged (decode_managed sys y base_dir repo n)
  unfolding decode_managed
  decode_managed-IsValidManaged n =
      Returns-if IsValidManaged (not (y.is_mapping n)) _ _ (λ _. tt)
        (λ _.
          Returns-each_pair IsValidManaged (managed_round sys y base_dir repo)
            managed_round-IsValidManaged (y.content n) _ empty_managed-IsValidManaged)

  repo_round-IsValidManaged :
      (k v : y.Node) (a : Repo)
      → IsValidManaged a.managed
      → Returns (λ r. IsValidManaged r.managed) (repo_round sys y base_dir repo k v a)
  repo_round-IsValidManaged k v a h =
      let P = λ (r : Repo). IsValidManaged r.managed in
      Returns-if P (y.value k == "managed") _ _
        (λ _. Returns-bind IsValidManaged P _ _ (decode_managed-IsValidManaged v) (λ m _ p. p))
        (λ _.
          Returns-if P (y.value k == "ignored") _ _
            (λ _.
              Returns-then P (decode_ignored sys y ("repo " <> sys.quote repo) v)
                (λ ig. ok (record a { ignored = ig })) (λ ig. h))
            (λ _. tt))

  -- A repo that is decoded has, in each section, a map of entries that carry the name they are
  -- stored under and have exactly one source, and no name that is both managed and ignored.
  pub decode_repo-IsValidRepo :
      (n : y.Node) (r : Repo) → decode_repo sys y base_dir repo n ≡ ok r → IsValidRepo r
  unfolding decode_repo check_managed_ignored_conflict
  decode_repo-IsValidRepo n r h =
      let P = λ (r : Repo). IsValidManaged r.managed in
      let (a, loop, rest) =
        bind_ok (each_pair (repo_round sys y base_dir repo) (y.content n) empty_repo) _ r
          (guard_ok (not (y.is_mapping n)) _ _ r h) in
      let (u, checked, last) = bind_ok (check_managed_ignored_conflict sys repo a) _ r rest in
      let (u1, vars, two) =
        bind_ok (conflict_loop (repo_conflict sys repo "vars") a.managed.vars a.ignored.vars) _ u
          checked in
      let (u2, secrets, dependabot) =
        bind_ok
          (conflict_loop (repo_conflict sys repo "secrets") a.managed.secrets a.ignored.secrets) _ u
          two in
      let made : IsValidRepo a = record {
        managed =
            Returns-ok P _ a
              (Returns-each_pair P (repo_round sys y base_dir repo) repo_round-IsValidManaged
                (y.content n) empty_repo empty_managed-IsValidManaged)
              loop;
        vars = conflict_loop-IsApart _ _ _ u1 vars;
        secrets = conflict_loop-IsApart _ _ _ u2 secrets;
        dependabot = conflict_loop-IsApart _ _ _ u dependabot;
      } in
      subst IsValidRepo (ok_injective a r last) made

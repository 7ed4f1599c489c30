-- ===== src/Config/Entries.antt =====
-- The entries of a managed block of a repo: `decodeEntry` and `decodeEntries`.
use mathlib.Core.Path.{subst}
use ghsecretman.Config.Yaml.{each_pair-kept, each_pair, Yaml}
use ghsecretman.System.{System}
use ghsecretman.Base.Maps.{insert-IsMapOf, empty-IsMapOf, IsMapOf, insert, Map}
use ghsecretman.Config.{Entry}
use ghsecretman.Base.{
  ok_injective, guard_ok, bind_ok, is_one, ◌>>=◌, message, ℕ, ◌+◌, String, ◌<>◌, Bool, true, false,
  not, [], ◌≡◌, refl, arith, Result, ok, err, ◌==◌, if◌then◌else◌,
}

abbrev pub in_repo : System → String → String → String
in_repo sys repo text = "repo " <> (sys.quote repo <> (": " <> text))

abbrev pub empty_entry : String → Entry
empty_entry name = record {
  name = name;
  value = "";
  env = "";
  file = "";
  file_abs = "";
  has_value = false;
}

-- `count` of `validateEntrySources`.
abbrev pub one_if : Bool → ℕ
one_if true = 1
one_if false = 0

unfoldable pub source_count : Entry → ℕ
source_count e = one_if e.has_value + (one_if (not (e.env == "")) + one_if (not (e.file == "")))

unfoldable pub validate_entry_sources :
    System → String → String → String → Entry → Result (Unit {0})
unfolding source_count
validate_entry_sources sys ctx section name e =
    if is_one (source_count e)
    then ok tt
    else err (
        message (
          ctx
          <> (": "
              <> (section
                  <> ("."
                      <> (name
                          <> (": must set exactly one of value, env, file (got "
                              <> (sys.decimal (source_count e) <> ")"))))))))

module _ (sys : System) (y : Yaml) where
  abbrev pub set_value : y.Node → Entry → Entry
  set_value v e = record e { has_value = true; value = y.value v }

  abbrev pub set_env : y.Node → Entry → Entry
  set_env v e = record e { env = y.value v }

  abbrev pub set_file : String → y.Node → Entry → Entry
  set_file base_dir v e = record e {
    file = y.value v;
    file_abs =
        if y.value v == ""
        then e.file_abs
        else if sys.is_abs (y.value v)
        then sys.clean (y.value v)
        else sys.clean (sys.join base_dir (y.value v));
  }

  abbrev pub entry_round :
      String → String → String → String → y.Node → y.Node → Entry → Result Entry
  entry_round base_dir repo section name k v e =
      if y.value k == "value"
      then ok (set_value v e)
      else if y.value k == "env"
      then ok (set_env v e)
      else if y.value k == "file"
      then ok (set_file base_dir v e)
      else err (
          message (
            in_repo sys repo (
              "managed."
              <> (section <> ("." <> (name <> (": unknown key " <> sys.quote (y.value k))))))))

  unfoldable pub decode_entry : String → String → String → String → y.Node → Result Entry
  unfolding validate_entry_sources
  decode_entry base_dir repo section name n = do
    e ← each_pair (entry_round base_dir repo section name) (y.content n) (empty_entry name)
    _ ← validate_entry_sources sys ("repo " <> sys.quote repo) ("managed." <> section) name e
    ok e

  abbrev pub entries_round :
      String → String → String → y.Node → y.Node → Map Entry → Result (Map Entry)
  entries_round base_dir repo section k v out =
      let name = y.value k in
      if not (y.is_mapping v)
      then err (
          message (
            in_repo sys repo
              ("managed." <> (section <> ("." <> (name <> " must use object form (got scalar)"))))))
      else decode_entry base_dir repo section name v >>= λ e. ok (insert name e out)

  unfoldable pub decode_entries : String → String → String → y.Node → Result (Map Entry)
  decode_entries base_dir repo section n =
      if not (y.is_mapping n)
      then err (message (in_repo sys repo ("managed." <> (section <> " must be a mapping"))))
      else each_pair (entries_round base_dir repo section) (y.content n) []

-- What decoding an entry promises: its name is its key, and it has exactly one source.
pub record IsValidEntry (name : String) (e : Entry) : Type 0 where
  pub named : e.name ≡ name
  pub one_source : source_count e ≡ 1

abbrev pub IsValidEntries : Map Entry → Type 0
IsValidEntries = IsMapOf IsValidEntry

pub validate_entry_sources-one :
    (sys : System) (ctx section name : String) (e : Entry) (r : Unit)
    → validate_entry_sources sys ctx section name e ≡ ok r
    → source_count e ≡ 1
unfolding validate_entry_sources
validate_entry_sources-one sys ctx section name e r h = ground arith

module _ (sys : System) (y : Yaml) (base_dir repo section : String) where
  entry_round-named :
      (name : String) (k v : y.Node) (a b : Entry)
      → a.name ≡ name
      → entry_round sys y base_dir repo section name k v a ≡ ok b
      → b.name ≡ name
  entry_round-named name k v a b named h = ground arith

  pub decode_entry-IsValidEntry :
      (name : String) (n : y.Node) (e : Entry)
      → decode_entry sys y base_dir repo section name n ≡ ok e
      → IsValidEntry name e
  unfolding decode_entry
  decode_entry-IsValidEntry name n e h =
      let round = entry_round sys y base_dir repo section name in
      let (a, loop, rest) = bind_ok (each_pair round (y.content n) (empty_entry name)) _ e h in
      let (u, valid, last) = bind_ok (validate_entry_sources sys _ _ name a) _ e rest in
      let made : IsValidEntry name a = record {
        named =
            each_pair-kept (λ x. x.name ≡ name) round (entry_round-named name) (y.content n)
              (empty_entry name) a refl loop;
        one_source = validate_entry_sources-one sys _ _ name a u valid;
      } in
      subst (IsValidEntry name) (ok_injective a e last) made

  entries_round-IsValidEntries :
      (k v : y.Node) (a b : Map Entry)
      → IsValidEntries a
      → entries_round sys y base_dir repo section k v a ≡ ok b
      → IsValidEntries b
  entries_round-IsValidEntries k v a b h g =
      let name = y.value k in
      let (e, decoded, last) =
        bind_ok (decode_entry sys y base_dir repo section name v) _ b
          (guard_ok (not (y.is_mapping v)) _ _ b g) in
      subst IsValidEntries (ok_injective (insert name e a) b last)
        (insert-IsMapOf IsValidEntry name e a h (decode_entry-IsValidEntry name v e decoded))

  pub decode_entries-IsValidEntries :
      (n : y.Node) (m : Map Entry)
      → decode_entries sys y base_dir repo section n ≡ ok m
      → IsValidEntries m
  unfolding decode_entries
  decode_entries-IsValidEntries n m h =
      each_pair-kept IsValidEntries (entries_round sys y base_dir repo section)
        entries_round-IsValidEntries (y.content n) [] m (empty-IsMapOf IsValidEntry)
        (guard_ok (not (y.is_mapping n)) _ _ m h)

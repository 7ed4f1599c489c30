-- ===== src/Resolve/Sources.antt =====
-- What `Resolve` reads for an entry that decoding admits.
use ghsecretman.Config.{Entry}
use ghsecretman.System.{System}
use ghsecretman.Config.Entries.{source_count}
use ghsecretman.Resolve.{resolve}
use ghsecretman.Base.{
  file_error, Error, env_error, true, false, some, ◌≡◌, ◌≢◌, arith, ok, ◌⊎◌, String, none, err,
  ◌==◌, if◌then◌else◌,
}

-- An entry with exactly one source resolves from that source: to its literal value; to the value of the
-- environment variable that it names, or to an error with the entry and the variable where that is not
-- set; or to the content of its file, or to an error with the file where that cannot be read. The file
-- is that of the absolute path, where decoding has made one.
pub resolve-one_source :
    (sys : System) (e : Entry)
    → source_count e ≡ 1
    → (e.has_value ≡ true) × (e.env ≡ "") × (e.file ≡ "") × (resolve sys (some e) ≡ ok e.value)
      ⊎ (e.has_value ≡ false)
        × (e.env ≢ "")
        × (e.file ≡ "")
        × ((v : String) → sys.lookup_env e.env ≡ some v → resolve sys (some e) ≡ ok v)
        × (sys.lookup_env e.env ≡ none → resolve sys (some e) ≡ err (env_error e.name e.env))
      ⊎ (e.has_value ≡ false)
        × (e.env ≡ "")
        × (e.file ≢ "")
        × (let path = if e.file_abs == "" then e.file else e.file_abs in
            ((d : String) → sys.read_file path ≡ ok d → resolve sys (some e) ≡ ok d)
            × ((x : Error)
                → sys.read_file path ≡ err x
                → resolve sys (some e) ≡ err (file_error path x)))
unfolding resolve source_count
resolve-one_source sys e one = ground arith

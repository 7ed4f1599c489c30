-- ===== src/Resolve.antt =====
-- internal/resolve/resolve.go: the text of an entry, from its value, its file or its variable.
pub mod Sources
use ghsecretman.Base.{
  String, not, Option, none, some, Result, ok, err, message, file_error, env_error, nil_dereference,
  ◌==◌, if◌then◌else◌,
}
use ghsecretman.System.{System}
use ghsecretman.Config.{Entry}

-- `os.ReadFile(path)` and the `FileError` around its error.
unfoldable pub read_value : System → String → Result String
read_value sys path = elim (sys.read_file path) [ ok d ↦ ok d | err e ↦ err (file_error path e) ]

unfoldable pub file_path : Entry → String
file_path e = if e.file_abs == "" then e.file else e.file_abs

-- `os.LookupEnv(e.Env)` and the `EnvError` where the variable is not set.
unfoldable pub env_value : System → Entry → Result String
env_value sys e = elim (sys.lookup_env e.env) [
  | some v ↦ ok v
  | none ↦ err (env_error e.name e.env)
]

-- The entry is a pointer, and a nil one makes Go panic.
unfoldable pub resolve : System → Option Entry → Result String
unfolding read_value file_path env_value
resolve sys none = err nil_dereference
resolve sys (some e) =
    if e.has_value
    then ok e.value
    else if not (e.file == "")
    then read_value sys (file_path e)
    else if not (e.env == "")
    then env_value sys e
    else err (message "entry has no source")

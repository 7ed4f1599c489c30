-- ===== src/System.antt =====
-- What the program takes from Go's standard library and the operating system: files, the environment,
-- paths and the `%q` and `%d` verbs of fmt. All of it is a parameter.
use ghsecretman.Base.{
  String, ◌<>◌, Bool, ℕ, Option, Result, Error, message, wrapped, file_error, env_error,
  nil_dereference, index_out_of_range,
}

pub record System : Type 0 where
  -- `os.ReadFile`, its bytes as a text.
  pub read_file : String → Result String
  -- `os.LookupEnv`.
  pub lookup_env : String → Option String
  -- `filepath.IsAbs`, `filepath.Clean`, `filepath.Join` of two parts and `filepath.Dir`.
  pub is_abs : String → Bool
  pub clean : String → String
  pub join : String → String → String
  pub dir : String → String
  -- The verbs `%q` and `%d`.
  pub quote : String → String
  pub decimal : ℕ → String

-- `err.Error()`.
unfoldable pub error_text : System → Error → String
error_text sys (message m) = m
error_text sys (wrapped p e) = p <> (": " <> error_text sys e)
error_text sys (file_error path e) = "read file " <> (sys.quote path <> (": " <> error_text sys e))
error_text sys (env_error name var) =
    "entry " <> (sys.quote name <> (": env var " <> (sys.quote var <> " not set")))
error_text sys nil_dereference = "invalid memory address or nil pointer dereference"
error_text sys index_out_of_range = "index out of range"

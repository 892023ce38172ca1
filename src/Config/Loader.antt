-- ===== src/Config/Loader.antt =====
-- config/loader.py: reading, parsing and validating the file. What the file system, PyYAML and pydantic
-- answer is a parameter.
pub mod Accepted
use mcp_gatekeeper.Prelude.{List, [], ◌∷◌, ◌++◌, map, Text, codes, join_with, truthy, or_text, some}
use mcp_gatekeeper.Prelude.Results.{Result, ok, err, ◌>>=◌}
use mcp_gatekeeper.Config.{GatekeeperConfig}
use mcp_gatekeeper.Config.Checks.{validate_upstreams}

-- What `read_text` raises: FileNotFoundError, another OSError with its text, or some other exception,
-- such as the one for bytes that are no UTF-8.
pub data ReadError : Type 0 where
  not_found : ReadError
  os_error : Text → ReadError
  other_read : Text → ReadError

-- What `yaml.safe_load` raises.
pub data LoadError : Type 0 where
  yaml_error : Text → LoadError
  other_load : Text → LoadError

-- A parsed document: None, a mapping, or an object of another type, which is named.
pub data Document (D : Type 0) : Type 0 where
  empty : Document D
  mapping : D → Document D
  other : Text → Document D

-- An item of `error.errors()`, the parts of its place as texts.
pub record ErrorItem : Type 0 where
  pub loc : List Text
  pub msg : Text

-- What `load_config` raises: a ConfigError, or an exception that it lets through.
pub data Raised : Type 0 where
  config_error : Text → Raised
  uncaught : Text → Raised

abbrev pub error_line : ErrorItem → Text
error_line item =
    codes "  - "
    ++ (or_text (some (join_with (codes ".") item.loc)) (codes "(root)")
        ++ (codes ": " ++ item.msg))

unfoldable pub format_validation_error : List ErrorItem → Text → Text
format_validation_error items source =
    join_with (codes "\n") ((source ++ codes " is not valid:") ∷ map error_line items)

-- The `except` clauses of `read_text`, of `safe_load` and of `model_validate`.
abbrev pub except_read : Text → Result ReadError Text → Result Raised Text
except_read path (ok text) = ok text
except_read path (err not_found) = err (config_error (codes "config file not found: " ++ path))
except_read path (err (os_error m)) =
    err (config_error (codes "could not read " ++ (path ++ (codes ": " ++ m))))
except_read path (err (other_read m)) = err (uncaught m)

abbrev pub except_yaml : {A : Type 0} → Text → Result LoadError A → Result Raised A
except_yaml path (ok document) = ok document
except_yaml path (err (yaml_error m)) =
    err (config_error (path ++ (codes " is not valid YAML: " ++ m)))
except_yaml path (err (other_load m)) = err (uncaught m)

unfoldable pub except_validation : {A : Type 0} → Text → Result (List ErrorItem) A → Result Raised A
unfolding format_validation_error
except_validation source (ok c) = ok c
except_validation source (err items) = err (config_error (format_validation_error items source))

abbrev pub value_error : {A : Type 0} → Result Text A → Result (List ErrorItem) A
value_error (ok c) = ok c
value_error (err m) = err (record { loc = []; msg = codes "Value error, " ++ m } ∷ [])

-- `repr` of a text is Python's. `fields` is pydantic's validation up to the model's own last validator.
module _ {D : Type 0} (repr : Text → Text)
    (fields : D → Result (List ErrorItem) GatekeeperConfig) where
  -- `GatekeeperConfig.model_validate`, whose last step is `_validate_upstreams`.
  unfoldable pub model_validate : D → Result (List ErrorItem) GatekeeperConfig
  unfolding validate_upstreams
  model_validate document = fields document >>= λ c. value_error (validate_upstreams repr c)

  unfoldable pub parse_config : Document D → Text → Result Raised GatekeeperConfig
  unfolding model_validate except_validation
  parse_config empty source = err (config_error (source ++ codes " is empty"))
  parse_config (other name) source =
      err (config_error (source ++ (codes " must be a YAML mapping, found " ++ name)))
  parse_config (mapping document) source = except_validation source (model_validate document)

  -- `read_text` is the file system, `safe_load` is PyYAML.
  unfoldable pub load_config :
      (Text → Result ReadError Text)
      → (Text → Result LoadError (Document D))
      → Text
      → Result Raised GatekeeperConfig
  unfolding parse_config
  load_config read_text safe_load path = except_read path (read_text path) >>= λ text.
      except_yaml path (safe_load text) >>= λ document. parse_config document path

-- ===== src/Config/Loader/Accepted.antt =====
-- Which files `load_config` (config/loader.py) accepts, and what holds of what it returns.
use mcp_gatekeeper.Prelude.{List, true, ◌&&◌, Text, all, ◌≡◌, ◌↔◌, refl, sym, ap, ◌∙◌, arith}
use mcp_gatekeeper.Prelude.Results.{Result, ok, err, bind-ok}
use mcp_gatekeeper.Config.{GatekeeperConfig}
use mcp_gatekeeper.Config.Checks.{validate_upstreams, target_known}
use mcp_gatekeeper.Config.Targets.{
  distinct, names_of, validate_upstreams_iff, validate_upstreams_same,
}
use mcp_gatekeeper.Config.Loader.{
  except_read, except_yaml, except_validation, value_error, Document, empty, mapping, other,
  ErrorItem, ReadError, LoadError, model_validate, parse_config, load_config,
}

read-ok :
    (path text : Text) (r : Result ReadError Text) → except_read path r ≡ ok text → r ≡ ok text
read-ok path text (ok t) h = cc h
read-ok path text (err ReadError.not_found) h = ground (arith, h)
read-ok path text (err (ReadError.os_error m)) h = ground (arith, h)
read-ok path text (err (ReadError.other_read m)) h = ground (arith, h)

yaml-ok :
    {A : Type 0} (path : Text) (a : A) (r : Result LoadError A)
    → except_yaml path r ≡ ok a
    → r ≡ ok a
yaml-ok path a (ok t) h = cc h
yaml-ok path a (err (LoadError.yaml_error m)) h = ground (arith, h)
yaml-ok path a (err (LoadError.other_load m)) h = ground (arith, h)

validation-ok :
    {A : Type 0} (source : Text) (a : A) (r : Result (List ErrorItem) A)
    → except_validation source r ≡ ok a
    → r ≡ ok a
unfolding except_validation
validation-ok source a (ok t) h = cc h
validation-ok source a (err items) h = ground (arith, h)

value-ok : {A : Type 0} (a : A) (r : Result Text A) → value_error r ≡ ok a → r ≡ ok a
value-ok a (ok t) h = cc h
value-ok a (err m) h = ground (arith, h)

module _ {D : Type 0} (repr : Text → Text) (fields : D → Result (List ErrorItem) GatekeeperConfig)
    (read_text : Text → Result ReadError Text)
    (safe_load : Text → Result LoadError (Document D)) where
  -- The file is read, it is a YAML mapping, its fields are valid and its upstreams are.
  abbrev pub Accepts : Text → GatekeeperConfig → Type 0
  Accepts path c =
      (text : Text) × (document : D) × (read_text path ≡ ok text)
      × (safe_load text ≡ ok (mapping document))
      × (fields document ≡ ok c)
      × (validate_upstreams repr c ≡ ok c)

  parse_config_parts :
      (document : Document D) (source : Text) (c : GatekeeperConfig)
      → parse_config repr fields document source ≡ ok c
      → (d : D) × (document ≡ mapping d) × (fields d ≡ ok c) × (validate_upstreams repr c ≡ ok c)
  unfolding parse_config model_validate
  parse_config_parts empty source c h = ground (arith, h)
  parse_config_parts (other name) source c h = ground (arith, h)
  parse_config_parts (mapping d) source c h =
      let (c', (valid, kept)) =
        bind-ok (fields d) (λ c. value_error (validate_upstreams repr c)) c
          (validation-ok source c _ h) in
      let kept' = value-ok c (validate_upstreams repr c') kept in
      let same : c' ≡ c = validate_upstreams_same repr c' c kept' in
      (d, refl, rw valid (ap ok same), ap (validate_upstreams repr) (sym same) ∙ kept')

  -- Loading returns a configuration exactly when the file can be read, its text is a YAML mapping, the
  -- fields of that mapping make the configuration, and its upstreams pass their validator.
  pub load_config_iff :
      (path : Text) (c : GatekeeperConfig)
      → (load_config repr fields read_text safe_load path ≡ ok c) ↔ Accepts path c
  unfolding load_config
  load_config_iff path c = (
    (λ h.
        let (text, (read, rest)) = bind-ok (except_read path (read_text path)) _ c h in
        let (document, (load, parsed)) = bind-ok (except_yaml path (safe_load text)) _ c rest in
        let (d, shape, valid, kept) = parse_config_parts document path c parsed in
        (
          text,
          d,
          read-ok path text (read_text path) read,
          yaml-ok path document (safe_load text) load ∙ ap ok shape,
          valid,
          kept,
        )),
    λ (text, d, read, load, valid, kept). rw (read, load, valid, kept),
  )

  -- In a configuration that loading returns, no two upstreams have the same name, and each rule that
  -- names an upstream names one of them.
  pub load_config-targets :
      (path : Text) (c : GatekeeperConfig)
      → load_config repr fields read_text safe_load path ≡ ok c
      → (distinct (names_of c.upstreams) && all (target_known (names_of c.upstreams)) c.policy.rules
          ≡ true)
  load_config-targets path c h =
      let (_, _, _, _, _, v) = (load_config_iff path c).0 h in (validate_upstreams_iff repr c).0 v

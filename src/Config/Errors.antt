-- ===== src/Config/Errors.antt =====
-- src/config/errors.rs: the failures of the configuration.
use brazen.Base.{Bytes, str, ◌++◌, none, [], ◌∷◌}
use brazen.Canonical.Error.{CanonicalError, config}

pub data ConfigError : Type 0 where
  no_provider : ConfigError
  unknown_provider : Bytes → ConfigError
  -- the provider's name and the field
  incomplete_provider : Bytes → Bytes → ConfigError
  -- the key and the detail
  bad_value : Bytes → Bytes → ConfigError
  malformed_file : Bytes → ConfigError
  ingress : Bytes → ConfigError

-- The UTF-8 bytes of a dash.
abbrev em_dash : Bytes
em_dash = 0xE2 ∷ 0x80 ∷ 0x94 ∷ []

-- `Display for ConfigError`
unfoldable pub display : ConfigError → Bytes
display no_provider =
    str
      "no provider resolved: the routing table holds the rows you declared in config and the built-in rows you hold a credential for (`bz --list-providers` shows it) "
    ++ em_dash
    ++ str
        " name one with --provider, sign in with `bz --login`, set a key, or declare a [[provider]] row; a model routes only to a table row that owns it (a known alias, a model-id family, or an id in its cached model list "
    ++ em_dash
    ++ str " run `bz --list-models`)"
display (unknown_provider name) = str "unknown provider `" ++ name ++ str "`"
display (incomplete_provider name field) =
    str "provider `" ++ name ++ str "` is missing required field `" ++ field ++ str "`"
display (bad_value key detail) = str "bad value for `" ++ key ++ str "`: " ++ detail
display (malformed_file detail) = str "malformed config: " ++ detail
display (ingress detail) = str "ingress: " ++ detail

-- `From<ConfigError> for CanonicalError`
unfoldable pub to_canonical : {V : Type 0} → ConfigError → CanonicalError V
unfolding display
to_canonical e = record {
  kind = config;
  message = display e;
  provider_detail = none;
  retry_after_seconds = none;
}

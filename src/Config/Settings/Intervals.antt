-- ===== src/Config/Settings/Intervals.antt =====
-- The interval of the poller in the settings that internal/config/config.go loads.
use autonomous_remediation_e.Prelude.{
  ◌≡◌, ◌≢◌, refl, true, false, [], Option, none, some, Bytes, bytes_eq, codes, inl, inr, arith,
  Bool-cases,
}
use autonomous_remediation_e.Prelude.Strings.{trim_space, has_prefix}
use autonomous_remediation_e.Config.Yaml.{
  obj, ParsedYaml, mapping, not_a_mapping, line_too_long, out_of_fuel, parse_basic_yaml,
}
use autonomous_remediation_e.Config.Yaml.Total.{parse_basic_yaml-total}
use autonomous_remediation_e.Config.Settings.{
  Config, Library, yaml_out_of_fuel, Loaded, ok, err, or_err, is_positive, paced, unmarshal_json,
  apply_json, apply_yaml, parse_config, bad_settings,
}

-- The parser of the file has ended, and the interval of what was loaded is above 0.
abbrev pub IsPaced : Loaded → Type 0
IsPaced (ok cfg) = is_positive cfg.poll_interval ≡ true
IsPaced (err e) = e ≢ yaml_out_of_fuel

paced-IsPaced : (cfg : Option Config) → IsPaced (or_err bad_settings (paced cfg))
unfolding paced or_err
paced-IsPaced none = λ e. cc e
paced-IsPaced (some cfg) = elim (Bool-cases (is_positive cfg.poll_interval)) [
  | inl e ↦ ground arith
  | inr e ↦ ground arith
]

module _ (lib : Library) (default : Config) where
  apply_json-IsPaced : (json : Option Bytes) → IsPaced (apply_json lib default json)
  unfolding apply_json
  apply_json-IsPaced none = λ e. cc e
  apply_json-IsPaced (some json) = paced-IsPaced (unmarshal_json lib json default)

  apply_yaml-IsPaced : (p : ParsedYaml) → p ≢ out_of_fuel → IsPaced (apply_yaml lib default p)
  unfolding apply_yaml
  apply_yaml-IsPaced (mapping m) h = apply_json-IsPaced (lib.marshal (obj m))
  apply_yaml-IsPaced not_a_mapping h = λ e. cc e
  apply_yaml-IsPaced line_too_long h = λ e. cc e
  apply_yaml-IsPaced out_of_fuel h = absurd (h refl)

  -- On top of defaults with an interval above 0, a file that is not JSON is refused or gives an
  -- interval above 0; the parser always ends.
  pub parse_config-IsPaced :
      (content : Bytes)
      → is_positive default.poll_interval ≡ true
      → has_prefix (codes "{") (trim_space content) ≡ false
      → IsPaced (parse_config lib default content)
  unfolding parse_config
  parse_config-IsPaced content start yaml = elim (Bool-cases (bytes_eq (trim_space content) [])) [
    | inl e ↦ rw e start
    | inr e ↦
        rw (e, yaml)
          (apply_yaml-IsPaced (parse_basic_yaml lib.is_float (trim_space content))
            (parse_basic_yaml-total lib.is_float (trim_space content)))
  ]

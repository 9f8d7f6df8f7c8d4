-- ===== src/Config/Settings.antt =====
-- internal/config/config.go: the settings, their defaults, and how a file changes them. A duration
-- is an int64 as its bit pattern, a number below 2^64. The JSON of the library and
-- `time.ParseDuration` are parameters.
pub mod Intervals
use autonomous_remediation_e.Prelude.{
  ℕ, suc, ◌-◌, ◌*◌, ◌%◌, ◌^◌, Bool, true, false, ◌&&◌, not, String, List, [], ◌∷◌, Option, none,
  some, Bytes, bytes_eq, codes, str_eq, ltb, ◌==◌, if◌then◌else◌,
}
use autonomous_remediation_e.Prelude.Strings.{
  trim_space, has_prefix, signed_part, natural, max_int64,
}
use autonomous_remediation_e.Config.Yaml.{
  Yaml, obj, ParsedYaml, mapping, not_a_mapping, line_too_long, out_of_fuel, parse_basic_yaml,
}

pub record ServiceConfig : Type 0 where
  pub name : String
  pub health_url : String
  pub pid_file : String
  pub port : ℕ

pub record PathConfig : Type 0 where
  pub path : String
  pub min_free_pct : ℕ

pub record Config : Type 0 where
  pub unix_socket_path : String
  pub http_addr : String
  pub hmac_secret : String
  pub audit_log_path : String
  pub lock_dir : String
  pub journal_dir : String
  pub damping_state_file : String
  pub host_uuid : String
  pub poll_interval : ℕ
  pub monitored_services : List ServiceConfig
  pub monitored_paths : List PathConfig

-- `DefaultConfig`, by whether the user is root and the name of the host, which may be missing.
unfoldable pub default_config : Bool → String → Config
default_config is_root hostname = record {
  unix_socket_path = if is_root then "/run/remediation.sock" else "/tmp/remediation.sock";
  http_addr = "127.0.0.1:9443";
  hmac_secret = "";
  audit_log_path =
      if is_root
      then "/var/lib/autonomous-remediation/audit/audit.wal"
      else "/tmp/remediation-audit.wal";
  lock_dir = if is_root then "/var/run/remediation/" else "/tmp/remediation-locks/";
  journal_dir =
      if is_root then "/var/lib/autonomous-remediation/journal/" else "/tmp/remediation-journal/";
  damping_state_file =
      if is_root
      then "/var/lib/autonomous-remediation/damping.json"
      else "/tmp/remediation-damping.json";
  host_uuid = if str_eq hostname "" then "remediation-daemon-node" else hostname;
  poll_interval = 2000000000;
  monitored_services =
      record {
        name = "ai-gateway";
        health_url = "http://127.0.0.1:8080/healthz";
        pid_file = "/var/run/ai-gateway.pid";
        port = 8080;
      }
      ∷ record {
        name = "guardrail-proxy";
        health_url = "http://127.0.0.1:8081/healthz";
        pid_file = "/var/run/guardrail-proxy.pid";
        port = 8081;
      }
      ∷ [];
  monitored_paths = record { path = "/var/log"; min_free_pct = 15 } ∷ [];
}

-- A value of type `any`: missing or null, a text, a float64 as the int64 that it is converted to,
-- or of another type.
pub data Raw : Type 0 where
  missing : Raw
  raw_text : Bytes → Raw
  raw_number : ℕ → Raw
  raw_other : Raw

-- What decoding into the alias gives.
pub record Decoded : Type 0 where
  pub config : Config
  pub raw_poll_interval : Raw
  pub raw_poll_interval_seconds : Raw

-- What the library gives: the decoder, on top of settings that are there, the encoder, the parsers
-- of durations and of float64.
pub record Library : Type 0 where
  pub decode : Bytes → Config → Option Decoded
  pub marshal : Yaml → Option Bytes
  pub parse_duration : Bytes → Option ℕ
  pub is_float : Bytes → Bool

-- `time.Duration(n) * time.Second`
abbrev pub seconds : ℕ → ℕ
seconds n = n * 1000000000 % 2 ^ 64

abbrev pub negated : Option ℕ → Option ℕ
negated none = none
negated (some n) = some ((2 ^ 64 - n) % 2 ^ 64)

-- `strconv.Atoi`
abbrev pub int_of : Bool × Bytes → Option ℕ
int_of (false, s) = natural max_int64 s
int_of (true, s) = negated (natural (suc max_int64) s)

unfoldable pub atoi : Bytes → Option ℕ
atoi s = int_of (signed_part s)

abbrev pub seconds_of : Option ℕ → Option ℕ
seconds_of none = none
seconds_of (some n) = some (seconds n)

-- The interval that a text stands for: a duration, else a number of seconds.
unfoldable pub text_interval : Option ℕ → Bytes → Option ℕ
text_interval (some d) v = some d
text_interval none v = seconds_of (atoi v)

abbrev pub or_current : ℕ → Option ℕ → ℕ
or_current current none = current
or_current current (some d) = d

-- The interval from the key `poll_interval_seconds`.
unfoldable pub interval_seconds : Raw → ℕ → ℕ
interval_seconds missing current = current
interval_seconds (raw_text v) current = or_current current (seconds_of (atoi v))
interval_seconds (raw_number v) current = seconds v
interval_seconds raw_other current = current

-- The interval after both keys; `none` is the error of a text that is none.
unfoldable pub interval_of : Library → Raw → Raw → ℕ → Option ℕ
interval_of lib missing raw_seconds current = some (interval_seconds raw_seconds current)
interval_of lib (raw_text v) raw_seconds current = text_interval (lib.parse_duration v) v
interval_of lib (raw_number v) raw_seconds current = some (seconds v)
interval_of lib raw_other raw_seconds current = some current

unfoldable pub with_interval : Config → Option ℕ → Option Config
with_interval cfg none = none
with_interval cfg (some d) = some (record cfg { poll_interval = d })

unfoldable pub with_decoded : Library → Option Decoded → Option Config
with_decoded lib none = none
with_decoded lib (some d) =
    with_interval d.config
      (interval_of lib d.raw_poll_interval d.raw_poll_interval_seconds d.config.poll_interval)

-- `UnmarshalJSON`, on top of settings that are there.
unfoldable pub unmarshal_json : Library → Bytes → Config → Option Config
unmarshal_json lib content cfg = with_decoded lib (lib.decode content cfg)

pub data ConfigError : Type 0 where
  bad_json bad_yaml unmarshalled bad_settings unread : ConfigError
  yaml_out_of_fuel : ConfigError

pub data Loaded : Type 0 where
  ok : Config → Loaded
  err : ConfigError → Loaded

unfoldable pub or_err : ConfigError → Option Config → Loaded
or_err e none = err e
or_err e (some cfg) = ok cfg

-- A duration above 0.
abbrev pub is_positive : ℕ → Bool
is_positive d = ltb 0 d && ltb d (2 ^ 63)

-- The default for an interval that is not positive.
unfoldable pub paced : Option Config → Option Config
paced none = none
paced (some cfg) = some (record cfg {
  poll_interval = if is_positive cfg.poll_interval then cfg.poll_interval else 2000000000;
})

-- The settings of a YAML file, encoded as JSON and applied.
unfoldable pub apply_json : Library → Config → Option Bytes → Loaded
apply_json lib cfg none = err unmarshalled
apply_json lib cfg (some json) = or_err bad_settings (paced (unmarshal_json lib json cfg))

unfoldable pub apply_yaml : Library → Config → ParsedYaml → Loaded
apply_yaml lib cfg (mapping m) = apply_json lib cfg (lib.marshal (obj m))
apply_yaml lib cfg not_a_mapping = err bad_yaml
apply_yaml lib cfg line_too_long = err bad_yaml
apply_yaml lib cfg out_of_fuel = err yaml_out_of_fuel

module _ (lib : Library) (default : Config) where
  -- `ParseConfig`, on top of the defaults.
  unfoldable pub parse_config : Bytes → Loaded
  parse_config content =
      let trimmed = trim_space content in
      if bytes_eq trimmed []
      then ok default
      else if has_prefix (codes "{") trimmed
      then or_err bad_json (unmarshal_json lib trimmed default)
      else apply_yaml lib default (parse_basic_yaml lib.is_float trimmed)

  unfoldable pub parse_read : Option Bytes → Loaded
  parse_read none = err unread
  parse_read (some content) = parse_config content

  -- `LoadConfig`, where the function reads a file.
  unfoldable pub load_config : (String → Option Bytes) → String → Loaded
  load_config read_file path = if str_eq path "" then ok default else parse_read (read_file path)

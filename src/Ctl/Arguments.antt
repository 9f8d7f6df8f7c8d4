-- ===== src/Ctl/Arguments.antt =====
-- The command lines of `run` and `triage` (cmd/remediation-ctl/main.go), written and read.
use autonomous_remediation_e.Prelude.{
  ◌≡◌, refl, ap, ◌∙◌, Bool, true, false, String, List, [], ◌∷◌, none, Bytes, bytes_eq, codes, arith,
  if◌then◌else◌,
}
use autonomous_remediation_e.Prelude.Scalars.{of_codes}
use autonomous_remediation_e.Prelude.Strings.{trim_space}
use autonomous_remediation_e.Prelude.Octets
use autonomous_remediation_e.Host.{System}
use autonomous_remediation_e.Proposer.{Library, or_text}
use autonomous_remediation_e.Engine.{EngineConfig}
use autonomous_remediation_e.Ctl.{
  Installation, Outcome, Environment, with_flags, flagged, node_config, damping_path,
}
use autonomous_remediation_e.Ctl.Flags.{
  Flag, text, switch, got, parse_flags, put_flag, find_flag, text_flag, bool_flag,
}
use autonomous_remediation_e.Ctl.Flags.RoundTrip.{
  Setting, valued, write_settings, put_settings, Fits,
}
use autonomous_remediation_e.Ctl.Flags.Spelling.{is_name}
use autonomous_remediation_e.Ctl.Run.{
  RunReadings, run_flags, direct_run, run_parsed, with_engine, handle_run,
}
use autonomous_remediation_e.Ctl.Resolve.{
  TriageReadings, triage_flags, triage_config, resolve_incident, resolve_api_key, resolve_base_url,
  resolve_model,
}
use autonomous_remediation_e.Ctl.Triage.{with_incident, triage_parsed, handle_triage}
use autonomous_remediation_e.Ctl.Spelled.{
  Style, spelled_all, whole_line, spelled-put_all, spelled_all-Fits,
}

-- The paths that both commands take.
pub record Paths : Type 0 where
  pub audit_log : Bytes
  pub lock_dir : Bytes
  pub journal_dir : Bytes
  pub damping_file : Bytes

abbrev pub path_values : Paths → List (String × Bytes)
path_values paths =
    ("audit-log", paths.audit_log)
    ∷ ("lock-dir", paths.lock_dir)
    ∷ ("journal-dir", paths.journal_dir)
    ∷ ("damping-file", paths.damping_file)
    ∷ []

-- The configuration of the engine over them.
abbrev pub paths_config : Paths → EngineConfig
paths_config paths = record {
  lock_dir = of_codes paths.lock_dir;
  audit_log_path = of_codes paths.audit_log;
  journal_dir = of_codes paths.journal_dir;
  damping_state_path = of_codes paths.damping_file;
  host_uuid = "remediation-ctl-node";
}

abbrev IsOwn : Paths → Type 0
IsOwn paths = bytes_eq paths.damping_file (codes "/tmp/remediation-damping.json") ≡ false

damping_path-own :
    (env : Environment) (fs : List Flag)
    → bytes_eq (text_flag "damping-file" fs) (codes "/tmp/remediation-damping.json") ≡ false
    → damping_path env fs ≡ text_flag "damping-file" fs
unfolding damping_path
damping_path-own env fs h = ground arith

-- The flags of `run` as they are set.
abbrev run_line : Bytes → Bytes → Bytes → Paths → List Flag
run_line runbook resource target paths =
    record { name = codes "runbook"; value = text runbook }
    ∷ record { name = codes "resource"; value = text resource }
    ∷ record { name = codes "target"; value = text target }
    ∷ record { name = codes "audit-log"; value = text paths.audit_log }
    ∷ record { name = codes "lock-dir"; value = text paths.lock_dir }
    ∷ record { name = codes "journal-dir"; value = text paths.journal_dir }
    ∷ record { name = codes "damping-file"; value = text paths.damping_file }
    ∷ []

node_config-run_line :
    (env : Environment) (runbook resource target : Bytes) (paths : Paths)
    → IsOwn paths
    → node_config env (run_line runbook resource target paths) ≡ paths_config paths
unfolding node_config find_flag Octets.bytes_eq
node_config-run_line env runbook resource target paths own =
    rw (damping_path-own env (run_line runbook resource target paths) own) refl

-- A flag for the resource: `--resource`, or `--target`.
abbrev pub resource_flag : Bool → String
resource_flag true = "resource"
resource_flag false = "target"

abbrev pub run_values : Bool → Bytes → Bytes → Paths → List (String × Bytes)
run_values named runbook resource paths =
    ("runbook", runbook) ∷ (resource_flag named, resource) ∷ path_values paths

or_text-full : (a b : Bytes) → bytes_eq a [] ≡ false → or_text a b ≡ a
unfolding Octets.bytes_eq
or_text-full [] b h = ground arith
or_text-full (c ∷ cs) b h = refl

-- The arguments of `run` are read as the flags that they set.
run_values-parse_flags :
    (style : String → Style) (named : Bool) (runbook resource : Bytes) (paths : Paths)
    → parse_flags none
        (write_settings (spelled_all style (run_values named runbook resource paths)))
        run_flags
      ≡ got
          (run_line runbook (if named then resource else []) (if named then [] else resource) paths)
unfolding put_flag Fits is_name Octets.bytes_eq
run_values-parse_flags style true runbook resource paths =
    let values = run_values true runbook resource paths in
    whole_line _ run_flags (
      spelled_all-Fits style values run_flags (
        (refl, refl),
        ((refl, refl), ((refl, refl), ((refl, refl), ((refl, refl), ((refl, refl), tt))))),
      ))
    ∙ ap got (spelled-put_all style values run_flags)
run_values-parse_flags style false runbook resource paths =
    let values = run_values false runbook resource paths in
    whole_line _ run_flags (
      spelled_all-Fits style values run_flags (
        (refl, refl),
        ((refl, refl), ((refl, refl), ((refl, refl), ((refl, refl), ((refl, refl), tt))))),
      ))
    ∙ ap got (spelled-put_all style values run_flags)

-- What `triage` is given, apart from the paths.
pub record Question : Type 0 where
  pub incident : Bytes
  pub api_key : Bytes
  pub base_url : Bytes
  pub model : Bytes
  pub live : Bool

abbrev pub triage_values : Question → Paths → List (String × Bytes)
triage_values q paths =
    ("incident", q.incident)
    ∷ ("api-key", q.api_key)
    ∷ ("base-url", q.base_url)
    ∷ ("model", q.model)
    ∷ path_values paths

-- The arguments of `triage`, `--execute` first.
abbrev pub triage_line : Bool → (String → Style) → Question → Paths → List (Bool × Setting)
triage_line two style q paths =
    (two, valued (codes "execute") q.live) ∷ spelled_all style (triage_values q paths)

abbrev triage_set : Question → Paths → List Flag
triage_set q paths =
    record { name = codes "incident"; value = text q.incident }
    ∷ record { name = codes "api-key"; value = text q.api_key }
    ∷ record { name = codes "base-url"; value = text q.base_url }
    ∷ record { name = codes "model"; value = text q.model }
    ∷ record { name = codes "execute"; value = switch q.live }
    ∷ record { name = codes "audit-log"; value = text paths.audit_log }
    ∷ record { name = codes "lock-dir"; value = text paths.lock_dir }
    ∷ record { name = codes "journal-dir"; value = text paths.journal_dir }
    ∷ record { name = codes "damping-file"; value = text paths.damping_file }
    ∷ []

triage_line-parse_flags :
    (two : Bool) (style : String → Style) (q : Question) (paths : Paths)
    → parse_flags none (write_settings (triage_line two style q paths)) triage_flags
      ≡ got (triage_set q paths)
unfolding put_flag put_settings Fits is_name Octets.bytes_eq
triage_line-parse_flags two style q paths =
    let values = triage_values q paths in
    let fits = spelled_all-Fits style values triage_flags (
      (refl, refl),
      (
        (refl, refl),
        (
          (refl, refl),
          ((refl, refl), ((refl, refl), ((refl, refl), ((refl, refl), ((refl, refl), tt))))),
        ),
      ),
    ) in
    whole_line _ triage_flags ((refl, refl), fits)
    ∙ ap got
        (spelled-put_all style values (put_flag (codes "execute") (switch q.live) triage_flags))

node_config-triage_set :
    (env : Environment) (q : Question) (paths : Paths)
    → IsOwn paths
    → node_config env (triage_set q paths) ≡ paths_config paths
unfolding node_config find_flag Octets.bytes_eq
node_config-triage_set env q paths own = rw (damping_path-own env (triage_set q paths) own) refl

-- The model that a question names is the one that is asked.
triage_config-triage_set :
    (env : Environment) (key : Bytes) (q : Question) (paths : Paths)
    → bytes_eq (trim_space q.base_url) [] ≡ false
    → bytes_eq (trim_space q.model) [] ≡ false
    → triage_config env key (triage_set q paths) ≡ record {
      base_url = trim_space q.base_url;
      api_key = key;
      model = trim_space q.model;
      timeout = 60000000000;
    }
unfolding triage_config resolve_base_url resolve_model find_flag Octets.bytes_eq
triage_config-triage_set env key q paths based modelled =
    rw (or_text-full (trim_space q.base_url) _ based, or_text-full (trim_space q.model) _ modelled)
      refl

module _ {X : Type 0} (os : System X) (p : Installation X) where
  run_line-run_parsed :
      (rs : RunReadings) (named : Bool) (runbook resource : Bytes) (paths : Paths)
      → bytes_eq runbook [] ≡ false
      → bytes_eq resource [] ≡ false
      → IsOwn paths
      → run_parsed os p rs
          (run_line runbook (if named then resource else []) (if named then [] else resource) paths)
        ≡ with_engine os p
            (paths_config paths)
            (direct_run os p rs (of_codes runbook) (of_codes resource))
  unfolding run_parsed find_flag Octets.bytes_eq
  run_line-run_parsed rs true runbook resource paths given targeted own =
      rw
        (
          or_text-full resource [] targeted,
          given,
          targeted,
          node_config-run_line p.environment runbook resource [] paths own,
        )
        refl
  run_line-run_parsed rs false runbook resource paths given targeted own =
      rw (given, targeted, node_config-run_line p.environment runbook [] resource paths own) refl

module _ {X : Type 0} (os : System X) (p : Installation X) (lib : Library) (prompt : Bytes) where
  -- What `triage` does for a question over these paths.
  pub record IsAsked (rs : TriageReadings) (q : Question) (paths : Paths) (o : Outcome X)
      : Type 0 where
    pub flags : List Flag
    pub ends_so : o ≡ with_incident os p lib prompt rs flags (resolve_incident rs q.incident)
    pub execute : bool_flag "execute" flags ≡ q.live
    pub key : resolve_api_key p.environment (text_flag "api-key" flags) ≡ trim_space q.api_key
    pub asked : triage_config p.environment (trim_space q.api_key) flags ≡ record {
      base_url = trim_space q.base_url;
      api_key = trim_space q.api_key;
      model = trim_space q.model;
      timeout = 60000000000;
    }
    pub configured : node_config p.environment flags ≡ paths_config paths

  -- `run` on the flags for a runbook, a resource and the paths acts on that runbook and that resource
  -- with an engine of exactly these paths, and `triage` reads that incident, asks the model of that name
  -- at that base URL with that key, executes if it is told to, and configures its engine with exactly these
  -- paths. That holds however each flag is written: with one dash or two, joined to its value or before it,
  -- and with `--resource` or `--target`; if the runbook, the resource, the key, the model and the base URL are
  -- given, and the damping file is not the default.
  pub commands-spelled_all :
      (style : String → Style) (paths : Paths) (rs : RunReadings) (named : Bool)
      (runbook resource : Bytes) (ts : TriageReadings) (two : Bool) (q : Question)
      → bytes_eq runbook [] ≡ false
      → bytes_eq resource [] ≡ false
      → bytes_eq paths.damping_file (codes "/tmp/remediation-damping.json") ≡ false
      → bytes_eq (trim_space q.api_key) [] ≡ false
      → bytes_eq (trim_space q.base_url) [] ≡ false
      → bytes_eq (trim_space q.model) [] ≡ false
      → (handle_run os p rs
            (write_settings (spelled_all style (run_values named runbook resource paths)))
          ≡ with_engine os p
              (paths_config paths)
              (direct_run os p rs (of_codes runbook) (of_codes resource)))
        × IsAsked ts q paths
            (handle_triage os p lib prompt ts (write_settings (triage_line two style q paths)))
  unfolding resolve_api_key handle_run handle_triage with_flags flagged triage_parsed find_flag
      Octets.bytes_eq
  commands-spelled_all style paths rs named runbook resource ts two q given targeted own keyed based
        modelled =
      (
        ap (flagged p.formats "run" (run_parsed os p rs))
              (run_values-parse_flags style named runbook resource paths)
            ∙ run_line-run_parsed os p rs named runbook resource paths given targeted own,
        record {
          flags = triage_set q paths;
          ends_so =
              ap (flagged p.formats "triage" (triage_parsed os p lib prompt ts))
                (triage_line-parse_flags two style q paths);
          execute = refl;
          key = or_text-full (trim_space q.api_key) _ keyed;
          asked =
              triage_config-triage_set p.environment (trim_space q.api_key) q paths based modelled;
          configured = node_config-triage_set p.environment q paths own;
        },
      )

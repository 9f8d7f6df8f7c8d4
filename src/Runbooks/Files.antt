-- ===== src/Runbooks/Files.antt =====
-- The calls by which internal/runbooks/runbooks.go reads and writes files, and what else it takes
-- from the operating system.
use Prim.Native.String.append
use autonomous_remediation_e.Prelude.{
  ℕ, [], Bool, true, false, String, Option, none, some, str_append, if◌then◌else◌, codes, ◌≢◌, sym,
  str_eq, ◌∙◌, ◌==◌, ◌&&◌, not,
}
use autonomous_remediation_e.Prelude.Strings.{trim_space, atoi, or_no_pid}
use autonomous_remediation_e.Prelude.Assoc.{lookup, insert, erase}
use autonomous_remediation_e.Host.{World, System}
use autonomous_remediation_e.Executor.{Action, ExecutionResult}
use autonomous_remediation_e.Verifier.{Condition, custom}

-- What is not among the calls of `System`: a dial, with a timeout, a sleep, the own process, and
-- whether a path is a file.
pub record Platform (X : Type 0) : Type 0 where
  pub dial : String → ℕ → World X → World X × Bool
  pub sleep : ℕ → World X → World X
  pub getpid : ℕ
  pub is_file : World X → String → Bool

module _ {X : Type 0} (os : System X) where
  -- `os.ReadFile`, `os.WriteFile` and `os.Rename`, with whether they succeeded.
  unfoldable pub read_file : String → World X → Option String
  read_file path w = if os.can_read w path then lookup path w.files else none

  unfoldable pub write_file : String → String → World X → World X × Bool
  write_file path content w =
      if os.can_write w path
      then (record w { files = insert path content w.files }, true)
      else (w, false)

  unfoldable pub moved : String → String → Option String → World X → World X × Bool
  moved from to none w = (w, false)
  moved from to (some content) w =
      if os.can_write w to
      then (record w { files = insert to content (erase from w.files) }, true)
      else (w, false)

  unfoldable pub rename : String → String → World X → World X × Bool
  rename from to w = moved from to (lookup from w.files) w

  -- The process to reload: a fixed one, else the one that a file names, if there is a file.
  unfoldable pub reload_pid : ℕ → String → World X → ℕ
  reload_pid target_pid pid_file w =
      if (target_pid == 0) && not (str_eq pid_file "")
      then (elim (read_file pid_file w) [
        | none ↦ 0
        | some content ↦ or_no_pid (atoi (trim_space (codes content)))
      ])
      else target_pid

  -- The reload: by the function of the configuration, else by SIGHUP, whose error is ignored.
  unfoldable pub reload :
      Option (World X → World X × Option String) → ℕ → String → World X → World X × Option String
  reload (some f) target_pid pid_file w = f w
  reload none target_pid pid_file w =
      let pid = reload_pid target_pid pid_file w in
      if pid == 0 then (w, none) else ((os.signal pid 1 w).0, none)

module _ {X : Type 0} where
  -- A condition that is a function, and an action that is one.
  abbrev pub custom_condition :
      String → (String → World X → World X × Bool × Option String) → Condition X
  custom_condition name check = record {
    name = name;
    type = custom;
    target = "";
    min_free_pct = 0;
    expected_status = 0;
    timeout = 0;
    pid = 0;
    check_fn = some check;
  }

  abbrev pub mutation :
      String
      → ℕ
      → (String → ℕ → World X → World X × Option ExecutionResult × Option String)
      → Action X
  mutation name timeout f = record {
    name = name;
    binary = "";
    args = [];
    timeout = timeout;
    uid = 0;
    gid = 0;
    target_pid = 0;
    signal = 0;
    mutate_fn = some f;
  }

-- A name is not one that goes on.
pub str_append-ne : (s t : String) → t ≢ "" → str_append s t ≢ s
str_append-ne String.[] t h = λ e. h (sym (append.nil t) ∙ e)
str_append-ne (String.◌∷◌ c s) t h = λ e. str_append-ne s t h (cc (append.cons c s t, e))

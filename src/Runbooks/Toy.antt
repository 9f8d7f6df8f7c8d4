-- ===== src/Runbooks/Toy.antt =====
-- A small host for the tests of the runbooks of internal/runbooks/runbooks.go.
use autonomous_remediation_e.Prelude.{ℕ, ◌+◌, ◌-◌, true, false, none, ◌==◌, inl, if◌then◌else◌}
use autonomous_remediation_e.Host.{System, copied, running, no_process, finished}
use autonomous_remediation_e.Runbooks.Files.{Platform}

-- A host with a clock, on which the process 7 runs, every request is answered 200, and no port
-- listens. Its files can be read and written.
abbrev pub local : {V : Type 0} → System (V × ℕ)
local {V} = record {
  can_read = λ w path. true;
  can_write = λ w path. true;
  copy = λ w b t. copied;
  command = λ binary args w. (w, none);
  run = λ binary args who timeout w.
      (w, record { stdout = ""; stderr = ""; outcome = finished; started = true });
  kill_group = λ w. w;
  getuid = λ w. 0;
  probe = λ w pid. if pid == 7 then running else no_process;
  signal = λ pid number w. (w, none);
  statfs = λ w path. inl (50, 100);
  meets = λ a b min. true;
  exists = λ w path. true;
  http_get = λ url timeout w. (w, inl 200);
  elapsed = λ w w'. w'.rest.1 - w.rest.1;
  expired = λ timeout w w'. false;
}

abbrev pub quiet : {V : Type 0} → Platform (V × ℕ)
quiet {V} = record {
  dial = λ address timeout w. (w, false);
  sleep = λ time w. record w { rest = (w.rest.0, w.rest.1 + time) };
  getpid = 1;
  is_file = λ w path. false;
}

-- ===== src/Host/Toy.antt =====
-- A small host for the tests: its files, a clock that a command moves on by a second, the process
-- 7 that runs, and a disk that is half free.
use autonomous_remediation_e.Prelude.{
  ℕ, ◌+◌, ◌*◌, true, false, [], ◌∷◌, none, leb, ◌==◌, str_eq, inl, if◌then◌else◌,
}
use autonomous_remediation_e.Host.{World, copied, running, no_process, finished, System}

abbrev pub toy : System ℕ
toy = record {
  can_read = λ w p. true;
  can_write = λ w p. true;
  copy = λ w b t. copied;
  command = λ binary args w. (record w { rest = w.rest + 1 }, none);
  run = λ binary args who timeout w. (
    record w { rest = w.rest + 1 },
    record { stdout = "done"; stderr = ""; outcome = finished; started = true },
  );
  kill_group = λ w. w;
  getuid = λ w. 0;
  probe = λ w pid. if pid == 7 then running else no_process;
  signal = λ pid number w. (w, none);
  statfs = λ w p. inl (50, 100);
  meets = λ a b min. leb (min * b) (a * 100);
  exists = λ w p. str_eq p "/a";
  http_get = λ url timeout w. (w, inl 200);
  elapsed = λ w w'. 1;
  expired = λ timeout w w'. false;
}

abbrev pub two_files : World ℕ
two_files = record { files = ("/a", "old") ∷ ("/a.bak", "old") ∷ []; rest = 0 }

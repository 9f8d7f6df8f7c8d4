-- ===== src/Damping/Rates.antt =====
-- The rates that the damping controller (internal/damping/damping.go) enforces on a resource,
-- over any sequence of attempts.
use autonomous_remediation_e.Prelude.{
  ℕ, ◌+◌, ◌≤◌, ◌<◌, ◌≡◌, refl, sym, ap, ◌∙◌, Bool, true, ◌&&◌, String, List, [], ◌∷◌, ◌++◌, Option,
  none, some, str_eq, str_eq_iff, ltb, leb, keep, count_if, last?, arith, Bool-cases, inl, inr,
  count_if_mono, count_if-keep, count_if-append, last?-append, last?-keep-append, subst,
}
use autonomous_remediation_e.Damping.{
  Controller, GateReadings, Reason, can_execute, record_execution_at, count_within, window_10min,
  window_1hour, default_cooldown, day, breach,
}
use autonomous_remediation_e.Damping.Gate.{
  executions_of, can_execute-executions, can_execute-breach, breach-none, trip-executions,
  record_execution_at-executions,
}
use autonomous_remediation_e.Damping.Attempts.{
  Op, attempt, force, is_recorded, step, logged, log_of, Ordered,
}

-- The executions from `a` to `a + window`, both included.
abbrev pub count_in : ℕ → ℕ → List ℕ → ℕ
count_in a window log = count_if (λ t. leb a t && leb t (a + window)) log

-- Consecutive executions are the cooldown apart.
abbrev pub Spaced : List ℕ → Type 0
Spaced [] = Unit
Spaced (x ∷ []) = Unit
Spaced (x ∷ y ∷ r) = (x + default_cooldown ≤ y) × Spaced (y ∷ r)

-- What the pruned executions on record still show of the log, for a clock at `last` or later.
record Shows (log executions : List ℕ) (last : ℕ) : Type 0 where
  counts :
      (window now : ℕ)
      → window < day
      → last ≤ now
      → count_within now window executions ≡ count_within now window log
  ends : last? executions ≡ last? log

record Limits (log : List ℕ) : Type 0 where
  ten_minutes : (a : ℕ) → count_in a window_10min log ≤ 2
  one_hour : (a : ℕ) → count_in a window_1hour log ≤ 4
  spaced : Spaced log

Spaced-append :
    (log : List ℕ) (t : ℕ)
    → Spaced log
    → ((s : ℕ) → last? log ≡ some s → s + default_cooldown ≤ t)
    → Spaced (log ++ (t ∷ []))
Spaced-append [] t h k = tt
Spaced-append (x ∷ []) t h k = (k x refl, tt)
Spaced-append (x ∷ y ∷ r) t h k = (h.0, Spaced-append (y ∷ r) t h.1 k)

-- A window that holds the new time holds only executions that the gate counted.
count_in-append :
    (window bound now done a : ℕ) (log : List ℕ)
    → now ≤ done
    → count_within now window log < bound
    → count_in a window log ≤ bound
    → count_in a window (log ++ (done ∷ [])) ≤ bound
unfolding count_within
count_in-append window bound now done a log le few h =
    let q : ℕ → Bool = λ t. leb a t && leb t (a + window) in
    elim (Bool-cases (q done)) [
      | inr out ↦ ground (arith, count_if-append q log (done ∷ []))
      | inl inside ↦ ground (
        arith,
        count_if-append q log (done ∷ []),
        count_if_mono q (λ t. leb now (t + window)) log (λ t k. ground arith),
      )
    ]

prune_counts :
    (log : List ℕ) (done window now : ℕ)
    → window < day
    → done ≤ now
    → count_within now window (keep (λ e. ltb done (e + day)) log) ≡ count_within now window log
unfolding count_within
prune_counts log done window now w le = count_if-keep _ _ log (λ x h. ground arith)

-- One attempt that is recorded.
Shows-record :
    (log executions : List ℕ) (last now done : ℕ)
    → Shows log executions last
    → last ≤ now
    → now ≤ done
    → Shows (log ++ (done ∷ [])) (keep (λ e. ltb done (e + day)) (executions ++ (done ∷ []))) done
unfolding count_within
Shows-record log executions last now done h le le' = record {
  counts = λ window at w late.
      prune_counts (executions ++ (done ∷ [])) done window at w late
      ∙ count_if-append _ executions (done ∷ [])
      ∙ ap (λ (n : ℕ). n + count_within at window (done ∷ [])) (h.counts window at w (omega arith))
      ∙ sym (count_if-append _ log (done ∷ []));
  ends = last?-keep-append _ executions done (ground arith) ∙ sym (last?-append log done);
}

Limits-record :
    (log executions : List ℕ) (last now done : ℕ)
    → Shows log executions last
    → Limits log
    → last ≤ now
    → now ≤ done
    → breach now executions ≡ none
    → Limits (log ++ (done ∷ []))
Limits-record log executions last now done s l le le' ok =
    let (few, fewer, gap) = breach-none now executions ok in
    record {
      ten_minutes = λ a.
          count_in-append window_10min 2 now done a log le'
            (subst (λ n. n < 2) (s.counts window_10min now (omega arith) le) few) (l.ten_minutes a);
      one_hour = λ a.
          count_in-append window_1hour 4 now done a log le'
            (subst (λ n. n < 4) (s.counts window_1hour now (omega arith) le) fewer) (l.one_hour a);
      spaced = Spaced-append log done l.spaced (λ t e. omega (arith, gap t (s.ends ∙ e)));
    }

Shows-later :
    {log executions : List ℕ} {last later : ℕ}
    → last ≤ later
    → Shows log executions last
    → Shows log executions later
Shows-later le h = record {
  counts = λ window now w late. h.counts window now w (omega arith);
  ends = h.ends;
}

is_recorded-none : (o : Option Reason) (b : Bool) → is_recorded o b ≡ true → o ≡ none
unfolding is_recorded
is_recorded-none o b h = ground arith

-- The log of `j` so far, beside the controller, at a time `last`.
record Kept (j : String) (c : Controller) (log : List ℕ) (last : ℕ) : Type 0 where
  shows : Shows log (executions_of j c) last
  limits : Limits log

attempt-Kept :
    (j k : String) (r : GateReadings) (done : ℕ) (commits written : Bool) (c : Controller)
    (log : List ℕ) (last : ℕ)
    → last ≤ r.now
    → r.now ≤ done
    → Kept j c log last
    → let o = attempt k r done commits written in Kept j (step o c) (logged j o c log) done
unfolding step logged
attempt-Kept j k r done commits written c log last le le' h =
    let c' = (can_execute r k c).0 in
    let same = can_execute-executions r k j c in
    let recorded = record_execution_at-executions written k j done c' in
    elim (Bool-cases (is_recorded (can_execute r k c).1 commits)) [
      | inr no_record ↦
          rw no_record
            (record { shows = rw same (Shows-later (omega arith) h.shows); limits = h.limits })
      | inl recorded_run ↦
          let passed = can_execute-breach r k c (is_recorded-none _ commits recorded_run) in
          elim (Bool-cases (str_eq k j)) [
            | inr other ↦
                rw (recorded_run, other)
                  (record {
                    shows =
                        subst (λ x. Shows log x done) (sym (rw other at recorded ∙ same))
                          (Shows-later (omega arith) h.shows);
                    limits = h.limits;
                  })
            | inl mine ↦
                let e : executions_of k c ≡ executions_of j c =
                  ap (λ x. executions_of x c) ((str_eq_iff k j).0 mine) in
                let pruned = keep (λ x. ltb done (x + day)) (executions_of j c ++ (done ∷ [])) in
                let now_on_record : executions_of j (record_execution_at written k done c')
                    ≡ pruned =
                  rw (mine, can_execute-executions r k k c, e) at recorded in
                rw (recorded_run, mine)
                  (record {
                    shows =
                        subst (λ x. Shows (log ++ (done ∷ [])) x done) (sym now_on_record)
                          (Shows-record log (executions_of j c) last r.now done h.shows le le');
                    limits =
                        Limits-record log (executions_of j c) last r.now done h.shows h.limits le
                          le' (subst (λ x. breach r.now x ≡ none) e passed);
                  })
          ]
    ]

force-Kept :
    (j k : String) (now d last : ℕ) (written : Bool) (c : Controller) (log : List ℕ)
    → Kept j c log last
    → let o = force now written k d in Kept j (step o c) (logged j o c log) last
unfolding step logged
force-Kept j k now d last written c log h = record {
  shows = subst (λ x. Shows log x last) (sym (trip-executions now written k j d c)) h.shows;
  limits = h.limits;
}

run-Limits :
    (j : String) (os : List Op) (c : Controller) (log : List ℕ) (last : ℕ)
    → Ordered last os
    → Kept j c log last
    → Limits (log_of j os c log)
unfolding log_of
run-Limits j [] c log last ord h = h.limits
run-Limits j (attempt k r done commits written ∷ os) c log last ord h =
    let o = attempt k r done commits written in
    run-Limits j os (step o c) (logged j o c log) done ord.2
      (attempt-Kept j k r done commits written c log last ord.0 ord.1 h)
run-Limits j (force now written k d ∷ os) c log last ord h =
    let o = force now written k d in
    run-Limits j os (step o c) (logged j o c log) last ord
      (force-Kept j k now d last written c log h)

-- The rates hold of every run of attempts and forced trips, on whatever resources, on a clock
-- that does not run backwards, from a controller with no executions of `j` on record: among the
-- times at which a run for `j` was recorded, no ten minutes hold more than 2, no hour holds more
-- than 4, and consecutive ones are 300 seconds apart. Executions that were pruned count too.
pub run-rates :
    (j : String) (os : List Op) (c : Controller)
    → executions_of j c ≡ []
    → Ordered 0 os
    → let log = log_of j os c [] in
      ((a : ℕ) → count_in a window_10min log ≤ 2)
      × ((a : ℕ) → count_in a window_1hour log ≤ 4)
      × Spaced log
unfolding count_within
run-rates j os c new ord =
    let start : Limits [] = record {
      ten_minutes = λ a. omega arith;
      one_hour = λ a. omega arith;
      spaced = tt;
    } in
    let shown : Shows [] (executions_of j c) 0 = record {
      counts = λ window now w late. rw new;
      ends = rw new;
    } in
    let l = run-Limits j os c [] 0 ord (record { shows = shown; limits = start }) in
    (l.ten_minutes, l.one_hour, l.spaced)

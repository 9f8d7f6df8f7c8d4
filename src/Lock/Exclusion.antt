-- ===== src/Lock/Exclusion.antt =====
-- Any interleaving of `TryLockPath` and `Unlock` (internal/lock/lock.go), by whatever workers of
-- whatever processes: the calls are steps on one kernel table.
use autonomous_remediation_e.Prelude.{
  ℕ, zero, suc, ◌+◌, ◌≤◌, ◌≡◌, ◌↔◌, ◌⊎◌, refl, ap, Bool, true, false, ◌&&◌, ◌||◌, not, List, [],
  ◌∷◌, Bytes, bytes_eq, bytes_eq_iff, count_if, arith, if◌then◌else◌, Bool-cases, inl, inr,
}
use autonomous_remediation_e.Lock.{
  Kernel, is_held, drop_lock, ResourceLock, FileAnswers, Acquired, acquired, refused, try_lock_path,
  unlock,
}

-- The kernel's table, and every lock that was ever acquired.
pub record World : Type 0 where
  pub kernel : Kernel
  pub locks : List ResourceLock

pub data Op : Type 0 where
  -- What the file system answers, the resource and the path.
  try : FileAnswers → Bytes → Bytes → Op
  -- `Unlock` of the lock at this place of the list.
  release : ℕ → Op

abbrev pub locked : Kernel × Acquired → List ResourceLock → World
locked (k, acquired l) ls = record { kernel = k; locks = l ∷ ls }
locked (k, refused e) ls = record { kernel = k; locks = ls }

unfoldable pub unlock_at : ℕ → List ResourceLock → Kernel → Kernel × List ResourceLock
unlock_at i [] k = (k, [])
unlock_at zero (l ∷ ls) k = let (k', l') = unlock l k in (k', l' ∷ ls)
unlock_at (suc i) (l ∷ ls) k = let (k', ls') = unlock_at i ls k in (k', l ∷ ls')

unfoldable pub step : Op → World → World
step (try answers resource path) w = locked (try_lock_path answers resource path w.kernel) w.locks
step (release i) w = let (k, ls) = unlock_at i w.locks w.kernel in record { kernel = k; locks = ls }

unfoldable pub run : List Op → World → World
run [] w = w
run (o ∷ os) w = run os (step o w)

abbrev pub start : World
start = record { kernel = record { held = [] }; locks = [] }

-- A lock that is not released.
abbrev pub is_active : ResourceLock → Bool
is_active l = not (l.released || not l.is_open)

-- How many locks on the path are not released.
abbrev pub holders : Bytes → List ResourceLock → ℕ
holders p ls = count_if (λ l. is_active l && bytes_eq l.path p) ls

abbrev entries : Bytes → List Bytes → ℕ
entries p qs = count_if (λ q. bytes_eq q p) qs

abbrev Inv : World → Type 0
Inv w = (p : Bytes) → (holders p w.locks ≡ entries p w.kernel.held) × (entries p w.kernel.held ≤ 1)

is_held_iff : (p : Bytes) (qs : List Bytes) → (is_held p qs ≡ false) ↔ (entries p qs ≡ 0)
unfolding is_held
is_held_iff p [] = (λ e. refl, λ e. refl)
is_held_iff p (q ∷ qs) = ground (arith, is_held_iff p qs)

entries-drop_lock :
    (p q : Bytes) (qs : List Bytes)
    → entries p (drop_lock q qs) ≡ (if bytes_eq q p then 0 else entries p qs)
unfolding drop_lock
entries-drop_lock p q [] = ground arith
entries-drop_lock p q (x ∷ qs) =
    ground (arith, entries-drop_lock p q qs, bytes_eq_iff x q, bytes_eq_iff x p, bytes_eq_iff q p)

-- An `Unlock` does nothing, or takes an active lock's path from the table and makes the lock
-- inactive.
abbrev Unlocks : List ResourceLock → Kernel → Kernel × List ResourceLock → Type 0
Unlocks ls k (k', ls') =
    (k' ≡ k) × (ls' ≡ ls)
    ⊎ (q : Bytes) × (k'.held ≡ drop_lock q k.held)
      × ((p : Bytes) → holders p ls' + (if bytes_eq q p then 1 else 0) ≡ holders p ls)

unlock_at-Unlocks : (i : ℕ) (ls : List ResourceLock) (k : Kernel) → Unlocks ls k (unlock_at i ls k)
unfolding unlock_at unlock
unlock_at-Unlocks i [] k = inl (refl, refl)
unlock_at-Unlocks zero (l ∷ ls) k = elim (Bool-cases (l.released || not l.is_open)) [
  | inl idle ↦ rw idle (inl (refl, refl))
  | inr live ↦ rw live (inr (l.path, refl, λ p. ground arith))
]
unlock_at-Unlocks (suc i) (l ∷ ls) k = elim (unlock_at-Unlocks i ls k) [
  | inl (same, rest) ↦ inl (same, ap (λ x. l ∷ x) rest)
  | inr (q, dropped, counts) ↦ inr (q, dropped, λ p. ground (arith, counts p))
]

step-Inv : (o : Op) (w : World) → Inv w → Inv (step o w)
unfolding step try_lock_path
step-Inv (try answers resource path) w inv p =
    ground (arith, inv p, is_held_iff path w.kernel.held, bytes_eq_iff path p)
step-Inv (release i) w inv p = elim (unlock_at-Unlocks i w.locks w.kernel) [
  | inl (same, rest) ↦ rw (same, rest) (inv p)
  | inr (q, dropped, counts) ↦
      rw dropped (ground (arith, inv p, counts p, entries-drop_lock p q w.kernel.held))
]

run-Inv : (os : List Op) (w : World) → Inv w → Inv (run os w)
unfolding run
run-Inv [] w h = h
run-Inv (o ∷ os) w h = run-Inv os (step o w) (step-Inv o w h)

-- Mutual exclusion: after any calls in any order, repeated `Unlock`s of one lock included, at
-- most one lock on a path is not released.
pub run-holders : (os : List Op) (p : Bytes) → holders p (run os start).locks ≤ 1
run-holders os p = let inv = run-Inv os start (λ q. (refl, omega arith)) p in omega arith

abbrev pub good : FileAnswers
good = record { directory = true; opened = true; fault = false }

unfoldable pub is_acquired : Kernel × Acquired → Bool
is_acquired (k, acquired l) = true
is_acquired (k, refused e) = false

-- After any calls in any order, an attempt on a path for which the file system makes no trouble
-- gets the lock exactly if no lock on that path is unreleased: a released lock never blocks the
-- next worker, and an unreleased one always does.
pub run-try_lock_path :
    (os : List Op) (resource p : Bytes)
    → (is_acquired (try_lock_path good resource p (run os start).kernel) ≡ true)
      ↔ (holders p (run os start).locks ≡ 0)
unfolding try_lock_path is_acquired
run-try_lock_path os resource p =
    let w = run os start in
    let inv = run-Inv os start (λ q. (refl, omega arith)) p in
    ground (arith, inv, is_held_iff p w.kernel.held)

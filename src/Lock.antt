-- ===== src/Lock.antt =====
-- internal/lock/lock.go: the coordinator of the resource locks, over the kernel's table of
-- exclusive advisory locks. `digest` stands for crypto/sha256 of the UTF-8 bytes of a text, and a
-- text is the list of its code points.
pub mod Names
pub mod Exclusion
mod Tests
use autonomous_remediation_e.Prelude.{
  ℕ, zero, suc, ◌+◌, ◌/◌, ◌%◌, Bool, true, false, ◌&&◌, ◌||◌, List, [], ◌∷◌, ◌++◌, map, Option,
  none, some, not, Bytes, bytes_eq, codes, take, length, ltb, leb, ◌==◌, if◌then◌else◌,
}

abbrev pub is_between : ℕ → ℕ → ℕ → Bool
is_between lo hi c = leb lo c && leb c hi

-- The characters that `LockPathFor` keeps.
unfoldable pub is_plain : ℕ → Bool
is_plain c =
    is_between b'a' b'z' c
    || is_between b'A' b'Z' c
    || is_between b'0' b'9' c
    || c == b'-'
    || c == b'_'

abbrev pub plain : ℕ → ℕ
plain c = if is_plain c then c else b'_'

-- `strings.Trim(s, "_")`.
unfoldable pub trim_left : Bytes → Bytes
trim_left [] = []
trim_left (c ∷ cs) = let rest = trim_left cs in if c == b'_' then rest else c ∷ cs

abbrev pub cons_trimmed : ℕ → Bytes → Bytes
cons_trimmed c [] = if c == b'_' then [] else c ∷ []
cons_trimmed c (x ∷ xs) = c ∷ x ∷ xs

unfoldable pub trim_right : Bytes → Bytes
trim_right [] = []
trim_right (c ∷ cs) = cons_trimmed c (trim_right cs)

unfoldable pub sanitized : Bytes → Bytes
sanitized resource =
    let s = trim_right (trim_left (map plain resource)) in
    if ltb 64 (length s) then take 64 s else s

abbrev pub hex_digit : ℕ → ℕ
hex_digit n = if ltb n 10 then n + 48 else n + 87

-- `hex.EncodeToString`.
unfoldable pub hex : Bytes → Bytes
hex [] = []
hex (x ∷ xs) = hex_digit (x / 16 % 16) ∷ hex_digit (x % 16) ∷ hex xs

abbrev pub prefix_of : Bytes → Bytes
prefix_of [] = codes "res"
prefix_of (c ∷ cs) = c ∷ cs

unfoldable pub lock_filename : (Bytes → Bytes) → Bytes → Bytes
lock_filename digest resource =
    prefix_of (sanitized resource) ++ (b'_' ∷ (hex (take 4 (digest resource)) ++ codes ".lock"))

-- `LockPathFor`, in a directory whose path is clean.
unfoldable pub lock_path_for : (Bytes → Bytes) → Bytes → Bytes → Bytes
lock_path_for digest lock_dir resource = lock_dir ++ (b'/' ∷ lock_filename digest resource)

-- The paths that some open file holds an exclusive lock on.
pub record Kernel : Type 0 where
  pub held : List Bytes

unfoldable pub is_held : Bytes → List Bytes → Bool
is_held p [] = false
is_held p (q ∷ qs) = bytes_eq q p || is_held p qs

unfoldable pub drop_lock : Bytes → List Bytes → List Bytes
drop_lock p [] = []
drop_lock p (q ∷ qs) = let rest = drop_lock p qs in if bytes_eq q p then rest else q ∷ rest

-- `ResourceLock`; `is_open` says that `file` is not nil.
pub record ResourceLock : Type 0 where
  pub resource_id : Bytes
  pub path : Bytes
  pub is_open : Bool
  pub released : Bool

pub data LockError : Type 0 where
  lock_held no_directory no_file flock_failed : LockError

-- What the file system answers: whether the directory can be made, whether the file can be
-- opened, and whether `flock` fails for another reason than a lock that is held.
pub record FileAnswers : Type 0 where
  pub directory : Bool
  pub opened : Bool
  pub fault : Bool

pub data Acquired : Type 0 where
  acquired : ResourceLock → Acquired
  refused : LockError → Acquired

-- `TryLockPath`.
unfoldable pub try_lock_path : FileAnswers → Bytes → Bytes → Kernel → Kernel × Acquired
try_lock_path answers resource path k =
    if answers.directory
    then if answers.opened
      then if answers.fault
        then (k, refused flock_failed)
        else if is_held path k.held
        then (k, refused lock_held)
        else (
          record { held = path ∷ k.held },
          acquired
              (record { resource_id = resource; path = path; is_open = true; released = false }),
        )
      else (k, refused no_file)
    else (k, refused no_directory)

-- `TryLock`.
unfoldable pub try_lock : (Bytes → Bytes) → Bytes → FileAnswers → Bytes → Kernel → Kernel × Acquired
try_lock digest lock_dir answers resource k =
    try_lock_path answers resource (lock_path_for digest lock_dir resource) k

-- `Unlock`. The kernel drops the lock; an error of `Close` is not modelled.
unfoldable pub unlock : ResourceLock → Kernel → Kernel × ResourceLock
unlock l k =
    if l.released || not l.is_open
    then (k, l)
    else (record { held = drop_lock l.path k.held }, record l { released = true; is_open = false })

-- `IsReleased`.
unfoldable pub is_released : ResourceLock → Bool
is_released l = l.released

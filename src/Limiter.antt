-- ===== src/Limiter.antt =====
-- internal/security/limiter.go: the limiter of failed logins. The map of failures is an association
-- list with one entry for a key, a time is a count of microseconds, and the mutex makes each call
-- one step. `now` is time.Now(), which does not go back.
pub mod Bounds
pub mod Abstract
pub mod Entries
pub mod Counted
pub mod Kept
pub mod Refined
use personal_cloud_ai_servic.Prelude.{
  String, List, ℕ, Option, any, keep, [], Bool, find, not, ◌∷◌, if◌then◌else◌, ◌==◌, ltb, str_eq,
  true, ◌&&◌, ◌++◌, some, ◌*◌, ◌+◌, false, ◌-◌, leb, length, none,
}

pub record Entry : Type 0 where
  pub key : String
  pub times : List ℕ

pub record LoginLimiter : Type 0 where
  pub failures : List Entry
  pub window : ℕ
  pub limit : ℕ
  pub max_keys : ℕ
  pub overflow : List ℕ
  pub overflow_limit : ℕ
  pub last_sweep : ℕ

abbrev pub minute : ℕ
minute = 60000000

-- window and limit fall back where they are not positive.
unfoldable pub new_login_limiter : ℕ → ℕ → ℕ → LoginLimiter
new_login_limiter now window limit = record {
  failures = [];
  window = if window == 0 then 10 * minute else window;
  limit = if limit == 0 then 10 else limit;
  max_keys = 10000;
  overflow = [];
  overflow_limit = 1000;
  last_sweep = now;
}

-- failure.After(now.Add(-window)).
unfoldable pub recent : ℕ → ℕ → ℕ → Bool
recent now window t = ltb now (t + window)

abbrev pub has_key : String → Entry → Bool
has_key key e = str_eq e.key key

abbrev pub times_of : Option Entry → List ℕ
times_of none = []
times_of (some e) = e.times

-- failures[key], the nil slice for a key without an entry.
unfoldable pub failures_of : String → List Entry → List ℕ
failures_of key entries = times_of (find (has_key key) entries)

unfoldable pub tracked : String → List Entry → Bool
unfolding any
tracked key entries = any (has_key key) entries

-- delete(failures, key), and failures[key] = times.
unfoldable pub delete_key : String → List Entry → List Entry
unfolding keep
delete_key key entries = keep (λ e. not (has_key key e)) entries

unfoldable pub set_key : String → List ℕ → List Entry → List Entry
unfolding delete_key
set_key key times entries = (record { key = key; times = times }) ∷ delete_key key entries

unfoldable pub is_empty : List ℕ → Bool
is_empty [] = true
is_empty (t ∷ ts) = false

unfoldable pub sweep_entries : ℕ → ℕ → List Entry → List Entry
unfolding keep recent is_empty
sweep_entries now window [] = []
sweep_entries now window (e ∷ es) =
    let rest = sweep_entries now window es in
    let times = keep (recent now window) e.times in
    if is_empty times then rest else (record e { times = times }) ∷ rest

unfoldable pub sweep_overflow : ℕ → LoginLimiter → LoginLimiter
unfolding keep recent
sweep_overflow now l = record l { overflow = keep (recent now minute) l.overflow }

-- sweepLocked.
unfoldable pub sweep : ℕ → LoginLimiter → LoginLimiter
unfolding sweep_overflow sweep_entries
sweep now limiter =
    let l = sweep_overflow now limiter in
    if ltb (now - l.last_sweep) minute
    then l
    else record l { failures = sweep_entries now l.window l.failures; last_sweep = now }

-- The branch of a new key while the map is full.
unfoldable pub is_full_for : String → LoginLimiter → Bool
unfolding tracked
is_full_for key l = not (tracked key l.failures) && leb l.max_keys (length l.failures)

abbrev pub store_recent : String → List ℕ → List Entry → List Entry
store_recent key times entries =
    if is_empty times then delete_key key entries else set_key key times entries

unfoldable pub allow_swept : ℕ → String → LoginLimiter → Bool × LoginLimiter
unfolding is_full_for sweep_overflow keep recent failures_of is_empty delete_key set_key
allow_swept now key l =
    if is_full_for key l
    then (let swept = sweep_overflow now l in
        (ltb (length swept.overflow) swept.overflow_limit, swept))
    else (let times = keep (recent now l.window) (failures_of key l.failures) in
        (ltb (length times) l.limit, record l { failures = store_recent key times l.failures }))

unfoldable pub allow : ℕ → String → LoginLimiter → Bool × LoginLimiter
unfolding sweep allow_swept
allow now key l = allow_swept now key (sweep now l)

abbrev pub append_overflow : ℕ → LoginLimiter → LoginLimiter
append_overflow now l =
    if ltb (length l.overflow) l.overflow_limit
    then record l { overflow = l.overflow ++ (now ∷ []) }
    else l

unfoldable pub record_swept : ℕ → String → LoginLimiter → LoginLimiter
unfolding is_full_for sweep_overflow set_key failures_of
record_swept now key l =
    if is_full_for key l
    then append_overflow now (sweep_overflow now l)
    else record l { failures = set_key key (failures_of key l.failures ++ (now ∷ [])) l.failures }

unfoldable pub record_failure : ℕ → String → LoginLimiter → LoginLimiter
unfolding sweep record_swept
record_failure now key l = record_swept now key (sweep now l)

unfoldable pub clear : String → LoginLimiter → LoginLimiter
unfolding delete_key
clear key l = record l { failures = delete_key key l.failures }

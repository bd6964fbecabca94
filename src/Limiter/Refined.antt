-- ===== src/Limiter/Refined.antt =====
-- LoginLimiter of internal/security/limiter.go answers as its abstract view, while its map is not
-- full.
use personal_cloud_ai_servic.Limiter.Counted.{IsRefined, sweep-IsRefined}
use personal_cloud_ai_servic.Limiter.Kept.{
  room, allow-IsRefined, allow-answer, record-IsRefined, clear-IsRefined,
}
use personal_cloud_ai_servic.Limiter.Bounds.{records, clears, limiter_step, LimiterCall, allows}
use personal_cloud_ai_servic.Limiter.Abstract.{
  Failure, spec_step, spec_allows, answers, spec_answers, in_order, has_room,
}
use personal_cloud_ai_servic.Prelude.{
  keep, ℕ, List, ◌≡◌, length, true, ◌∷◌, Bool-cases, arith, [], String, ltb, ◌+◌, ◌-◌, refl, count,
  inl, inr, ap, ◌∙◌, ◌<◌, find,
}
use personal_cloud_ai_servic.Limiter.{
  sweep, LoginLimiter, sweep_overflow, failures_of, minute, is_full_for, allow_swept, record_swept,
  clear, allow, record_failure, new_login_limiter,
}

-- No call changes the settings.
abbrev SameSettings : LoginLimiter → LoginLimiter → Type 0
SameSettings l m = (l.window ≡ m.window) × (l.limit ≡ m.limit) × (l.max_keys ≡ m.max_keys)

sweep-SameSettings : (now : ℕ) (l : LoginLimiter) → SameSettings (sweep now l) l
unfolding sweep sweep_overflow
sweep-SameSettings now l = elim (Bool-cases (ltb (now - l.last_sweep) minute)) [
  | inl soon ↦ rw soon (refl, refl, refl)
  | inr due ↦ rw due (refl, refl, refl)
]

allow-SameSettings :
    (now : ℕ) (key : String) (l : LoginLimiter) → SameSettings (allow_swept now key l).1 l
unfolding allow_swept sweep_overflow
allow-SameSettings now key l = elim (Bool-cases (is_full_for key l)) [
  | inl full ↦ rw full (refl, refl, refl)
  | inr free ↦ rw free (refl, refl, refl)
]

record-SameSettings :
    (now : ℕ) (key : String) (l : LoginLimiter)
    → length l.failures < l.max_keys
    → SameSettings (record_swept now key l) l
unfolding record_swept
record-SameSettings now key l h = rw (room key l h) (refl, refl, refl)

clear-SameSettings : (key : String) (l : LoginLimiter) → SameSettings (clear key l) l
unfolding clear
clear-SameSettings key l = (refl, refl, refl)

settings_trans : (k l m : LoginLimiter) → SameSettings k l → SameSettings l m → SameSettings k m
settings_trans k l m a b = (a.0 ∙ b.0, a.1 ∙ b.1, a.2 ∙ b.2)

-- The rest of the answers under the settings of before.
same_answers :
    (k l : LoginLimiter) (log : List Failure) (calls : List LimiterCall)
    → SameSettings k l
    → answers k calls ≡ spec_answers k.window k.limit log calls
    → answers k calls ≡ spec_answers l.window l.limit log calls
same_answers k l log calls same h =
    h
    ∙ ap (λ w. spec_answers w k.limit log calls) same.0
    ∙ ap (λ n. spec_answers l.window n log calls) same.1

recount :
    (before n : ℕ) (l : LoginLimiter) (log : List Failure)
    → IsRefined before n l log
    → IsRefined before (length l.failures) l log
recount before n l log h = record { one_each = h.one_each; few = omega arith; same = h.same }

refined_answers :
    (before n : ℕ) (l : LoginLimiter) (log : List Failure) (calls : List LimiterCall)
    → has_room l calls ≡ true
    → in_order before calls ≡ true
    → IsRefined before n l log
    → answers l calls ≡ spec_answers l.window l.limit log calls
unfolding answers spec_answers in_order has_room limiter_step allow record_failure
refined_answers before n l log [] few order h = refl
refined_answers before n l log (allows now key ∷ calls) few order h =
    let swept = sweep now l in
    let kept = sweep-SameSettings now l in
    let refined =
      sweep-IsRefined before now (length l.failures) l log (ground arith)
        (recount before n l log h) in
    let next = (allow_swept now key swept).1 in
    let same = settings_trans next swept l (allow-SameSettings now key swept) kept in
    let rest = same_answers next l log calls same (
      refined_answers now (length l.failures + 1) next log calls (ground arith) (ground arith)
        (allow-IsRefined now (length l.failures) key swept log (ground (arith, kept.2)) refined)) in
    let first =
      allow-answer now (length l.failures) key swept log (ground (arith, kept.2)) refined
      ∙ ap (λ w. spec_allows w swept.limit now key log) kept.0
      ∙ ap (λ m. spec_allows l.window m now key log) kept.1 in
    ap (λ b. b ∷ answers next calls) first
    ∙ ap (λ bs. spec_allows l.window l.limit now key log ∷ bs) rest
refined_answers before n l log (records now key ∷ calls) few order h =
    let swept = sweep now l in
    let kept = sweep-SameSettings now l in
    let refined =
      sweep-IsRefined before now (length l.failures) l log (ground arith)
        (recount before n l log h) in
    let next = record_swept now key swept in
    let same =
      settings_trans next swept l
        (record-SameSettings now key swept (ground (arith, refined.few, kept.2))) kept in
    same_answers next l (spec_step log (records now key)) calls same (
      refined_answers now (length l.failures + 1) next (spec_step log (records now key)) calls
        (ground arith) (ground arith)
        (record-IsRefined now (length l.failures) key swept log (ground (arith, kept.2)) refined))
refined_answers before n l log (clears key ∷ calls) few order h =
    same_answers (clear key l) l (spec_step log (clears key)) calls (clear-SameSettings key l) (
      refined_answers before (n + 1) (clear key l) (spec_step log (clears key)) calls (ground arith)
        (ground arith) (clear-IsRefined before n key l log h))

new-IsRefined : (now window limit : ℕ) → IsRefined now 0 (new_login_limiter now window limit) []
unfolding new_login_limiter count failures_of find keep
new-IsRefined now window limit = record {
  one_each = λ k. omega arith;
  few = omega arith;
  same = λ k later le. refl;
}

-- A limiter from NewLoginLimiter answers every sequence of calls, in the order of their times and
-- with fewer keys tracked than its limit of keys before each of them, as its abstract view: Allow
-- answers true exactly where fewer failures than the limit lie within the window among all that were
-- recorded for the key since it was cleared.
pub limiter_refines_spec :
    (start window limit : ℕ) (calls : List LimiterCall)
    → has_room (new_login_limiter start window limit) calls ≡ true
    → in_order start calls ≡ true
    → answers (new_login_limiter start window limit) calls
      ≡ spec_answers
          (new_login_limiter start window limit).window
          (new_login_limiter start window limit).limit
          []
          calls
limiter_refines_spec start window limit calls free order =
    refined_answers start 0 (new_login_limiter start window limit) [] calls free order
      (new-IsRefined start window limit)

-- ===== src/Limiter/Bounds.antt =====
-- The memory of the login limiter (internal/security/limiter.go) is bounded.
use personal_cloud_ai_servic.Limiter.{
  sweep_entries, LoginLimiter, sweep_overflow, sweep, delete_key, set_key, allow_swept,
  record_swept, allow, Entry, tracked, is_full_for, append_overflow, record_failure, recent, clear,
  minute, has_key, is_empty, failures_of,
}
use personal_cloud_ai_servic.Prelude.{
  Bool, List, ℕ, keep, length, arith, Bool-cases, String, ◌∷◌, ◌≤◌, any, ◌++◌, ltb, not, ◌≡◌, [],
  ◌-◌, ◌&&◌, inl, true, suc, leb, inr, ◌<◌, ap, false, refl,
}

module _ {ℓ} {A : Type ℓ} (p : A → Bool) where
  length-keep : (xs : List A) → length (keep p xs) ≤ length xs
  unfolding keep
  length-keep [] = omega arith
  length-keep (x ∷ xs) = ground (arith, length-keep xs)

module _ {ℓ} {A : Type ℓ} (p : A → Bool) where
  -- A list that has an element to drop gets shorter.
  length-drop : (xs : List A) → any p xs ≡ true → length (keep (λ x. not (p x)) xs) < length xs
  unfolding keep any
  length-drop [] h = absurd (ground arith)
  length-drop (x ∷ xs) h = elim (Bool-cases (p x)) [
    | inl e ↦ ground (arith, length-keep (λ x. not (p x)) xs)
    | inr e ↦ ground (arith, length-drop xs)
  ]

length-appended : (xs : List ℕ) (t : ℕ) → length (xs ++ (t ∷ [])) ≡ suc (length xs)
length-appended [] t = refl
length-appended (x ∷ xs) t = ap suc (length-appended xs t)

pub length-sweep_entries :
    (now window : ℕ) (es : List Entry) → length (sweep_entries now window es) ≤ length es
unfolding sweep_entries
length-sweep_entries now window [] = omega arith
length-sweep_entries now window (e ∷ es) = ground (arith, length-sweep_entries now window es)

-- The limits that NewLoginLimiter sets on the tracked keys and on the overflow.
pub record IsBounded (l : LoginLimiter) : Type 0 where
  pub keys : length l.failures ≤ l.max_keys
  pub spill : length l.overflow ≤ l.overflow_limit

sweep_overflow-IsBounded :
    (now : ℕ) (l : LoginLimiter) → IsBounded l → IsBounded (sweep_overflow now l)
unfolding sweep_overflow
sweep_overflow-IsBounded now l h = record {
  keys = h.keys;
  spill = ground (arith, length-keep (recent now minute) l.overflow, h.spill);
}

sweep-IsBounded : (now : ℕ) (l : LoginLimiter) → IsBounded l → IsBounded (sweep now l)
unfolding sweep
sweep-IsBounded now l h =
    let s = sweep_overflow now l in
    let b : IsBounded s = sweep_overflow-IsBounded now l h in
    elim (Bool-cases (ltb (now - s.last_sweep) minute)) [
      | inl soon ↦ rw soon b
      | inr due ↦ rw due (record {
        keys = ground (arith, length-sweep_entries now s.window s.failures, b.keys);
        spill = b.spill;
      })
    ]

pub length-delete_key : (key : String) (es : List Entry) → length (delete_key key es) ≤ length es
unfolding delete_key
length-delete_key key es = length-keep (λ e. not (has_key key e)) es

length-set_key :
    (key : String) (times : List ℕ) (es : List Entry) (n : ℕ)
    → length es ≤ n
    → (not (tracked key es) && leb n (length es)) ≡ false
    → length (set_key key times es) ≤ n
unfolding set_key tracked delete_key
length-set_key key times es n h room = elim (Bool-cases (any (has_key key) es)) [
  | inl old ↦ ground (arith, length-drop (has_key key) es old)
  | inr new ↦ ground (arith, length-keep (λ e. not (has_key key e)) es)
]

allow_swept-IsBounded :
    (now : ℕ) (key : String) (l : LoginLimiter) → IsBounded l → IsBounded (allow_swept now key l).1
unfolding allow_swept is_full_for
allow_swept-IsBounded now key l h =
    elim (Bool-cases (not (tracked key l.failures) && leb l.max_keys (length l.failures))) [
      | inl full ↦ rw full (sweep_overflow-IsBounded now l h)
      | inr room ↦
          rw room
            (elim (Bool-cases
              (is_empty (keep (recent now l.window) (failures_of key l.failures)))) [
                | inl gone ↦ rw gone (record {
                  keys = ground (arith, length-delete_key key l.failures, h.keys);
                  spill = h.spill;
                })
                | inr some_left ↦ rw some_left (record {
                  keys =
                      length-set_key key (keep (recent now l.window) (failures_of key l.failures))
                        l.failures l.max_keys h.keys room;
                  spill = h.spill;
                })
              ])
    ]

append-IsBounded : (now : ℕ) (l : LoginLimiter) → IsBounded l → IsBounded (append_overflow now l)
append-IsBounded now l h = elim (Bool-cases (ltb (length l.overflow) l.overflow_limit)) [
  | inl room ↦
      rw room (record { keys = h.keys; spill = ground (arith, length-appended l.overflow now) })
  | inr full ↦ rw full h
]

record_swept-IsBounded :
    (now : ℕ) (key : String) (l : LoginLimiter) → IsBounded l → IsBounded (record_swept now key l)
unfolding record_swept is_full_for
record_swept-IsBounded now key l h =
    elim (Bool-cases (not (tracked key l.failures) && leb l.max_keys (length l.failures))) [
      | inl full ↦
          rw full (append-IsBounded now (sweep_overflow now l) (sweep_overflow-IsBounded now l h))
      | inr room ↦ rw room (record {
        keys =
            length-set_key key (failures_of key l.failures ++ (now ∷ [])) l.failures l.max_keys
              h.keys room;
        spill = h.spill;
      })
    ]

pub data LimiterCall : Type 0 where
  allows : ℕ → String → LimiterCall
  records : ℕ → String → LimiterCall
  clears : String → LimiterCall

unfoldable pub limiter_step : LoginLimiter → LimiterCall → LoginLimiter
unfolding allow record_failure clear
limiter_step l (allows now key) = (allow now key l).1
limiter_step l (records now key) = record_failure now key l
limiter_step l (clears key) = clear key l

unfoldable pub limiter_run : LoginLimiter → List LimiterCall → LoginLimiter
unfolding limiter_step
limiter_run l [] = l
limiter_run l (call ∷ calls) = limiter_run (limiter_step l call) calls

limiter_step-IsBounded :
    (l : LoginLimiter) (call : LimiterCall) → IsBounded l → IsBounded (limiter_step l call)
unfolding limiter_step allow record_failure clear
limiter_step-IsBounded l (allows now key) h =
    allow_swept-IsBounded now key (sweep now l) (sweep-IsBounded now l h)
limiter_step-IsBounded l (records now key) h =
    record_swept-IsBounded now key (sweep now l) (sweep-IsBounded now l h)
limiter_step-IsBounded l (clears key) h = record {
  keys = ground (arith, length-delete_key key l.failures, h.keys);
  spill = h.spill;
}

-- No sequence of calls makes a bounded limiter track more than its limit of keys, or keep more than
-- its limit of overflow failures.
pub limiter_run-IsBounded :
    (l : LoginLimiter) (calls : List LimiterCall) → IsBounded l → IsBounded (limiter_run l calls)
unfolding limiter_run
limiter_run-IsBounded l [] h = h
limiter_run-IsBounded l (call ∷ calls) h =
    limiter_run-IsBounded (limiter_step l call) calls (limiter_step-IsBounded l call h)

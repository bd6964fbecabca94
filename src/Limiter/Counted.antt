-- ===== src/Limiter/Counted.antt =====
-- The recent failures that internal/security/limiter.go keeps of a key, and the abstract view.
use personal_cloud_ai_servic.Limiter.Bounds.{length-sweep_entries, length-delete_key}
use personal_cloud_ai_servic.Limiter.Entries.{
  HasOneEach, count-sweep, failures-sweep, failures-delete_own, failures-delete_other,
  delete-HasOneEach, set-HasOneEach, failures-set_other, is_empty-nil, failures-set_own,
}
use personal_cloud_ai_servic.Limiter.Abstract.{Failure, counts_for}
use personal_cloud_ai_servic.Prelude.{
  keep, ℕ, ◌≤◌, List, Bool, ◌≡◌, length, true, ◌∷◌, ◌++◌, Bool-cases, arith, [], String, ltb, ◌+◌,
  ◌-◌, refl, bit, count, inl, inr, ap, ◌∙◌, str_eq, false, subst, eq_iff, sym,
}
use personal_cloud_ai_servic.Limiter.{
  recent, sweep, LoginLimiter, sweep_overflow, failures_of, minute, store_recent, Entry, set_key,
  is_empty,
}

-- What is recent later was recent before.
recent_before :
    (now later window t : ℕ)
    → now ≤ later
    → recent later window t ≡ true
    → recent now window t ≡ true
unfolding recent
recent_before now later window t le e = ground arith

keep-recent :
    (now later window : ℕ) (ts : List ℕ)
    → now ≤ later
    → keep (recent later window) (keep (recent now window) ts) ≡ keep (recent later window) ts
unfolding keep
keep-recent now later window [] le = refl
keep-recent now later window (t ∷ ts) le = elim (Bool-cases (recent now window t)) [
  | inl e ↦ elim (Bool-cases (recent later window t)) [
    | inl d ↦ rw (e, d) (ap (λ xs. t ∷ xs) (keep-recent now later window ts le))
    | inr d ↦ rw (e, d) (keep-recent now later window ts le)
  ]
  | inr e ↦ elim (Bool-cases (recent later window t)) [
    | inl d ↦ absurd (ground (arith, recent_before now later window t le d))
    | inr d ↦ rw (e, d) (keep-recent now later window ts le)
  ]
]

pub length-keep_append :
    (p : ℕ → Bool) (ts : List ℕ) (t : ℕ)
    → length (keep p (ts ++ (t ∷ []))) ≡ length (keep p ts) + bit (p t)
unfolding keep
length-keep_append p [] t = ground arith
length-keep_append p (x ∷ xs) t = ground (arith, length-keep_append p xs t)

-- The limiter after some calls, the last of them at `before`: for every key and from then on, it
-- has as many recent failures as the abstract record. It tracks at most `n` keys.
pub record IsRefined (before n : ℕ) (l : LoginLimiter) (log : List Failure) : Type 0 where
  pub one_each : HasOneEach l.failures
  pub few : length l.failures ≤ n
  pub same :
      (k : String) (now : ℕ)
      → before ≤ now
      → length (keep (recent now l.window) (failures_of k l.failures))
        ≡ count (counts_for k now l.window) log

pub sweep-IsRefined :
    (before now n : ℕ) (l : LoginLimiter) (log : List Failure)
    → before ≤ now
    → IsRefined before n l log
    → IsRefined now n (sweep now l) log
unfolding sweep sweep_overflow
sweep-IsRefined before now n l log le h = elim (Bool-cases (ltb (now - l.last_sweep) minute)) [
  | inl soon ↦ rw soon (record {
    one_each = h.one_each;
    few = h.few;
    same = λ k later later_le. h.same k later (omega arith);
  })
  | inr due ↦ rw due (record {
    one_each = λ k. omega (arith, count-sweep now l.window k l.failures, h.one_each k);
    few = omega (arith, length-sweep_entries now l.window l.failures, h.few);
    same = λ k later later_le.
        ap (λ ts. length (keep (recent later l.window) ts))
          (failures-sweep now l.window k l.failures (h.one_each k))
        ∙ ap length (keep-recent now later l.window (failures_of k l.failures) later_le)
        ∙ h.same k later (omega arith);
  })
]

overflow-IsRefined :
    (before n now : ℕ) (l : LoginLimiter) (log : List Failure)
    → IsRefined before n l log
    → IsRefined before n (sweep_overflow now l) log
unfolding sweep_overflow
overflow-IsRefined before n now l log h = record {
  one_each = h.one_each;
  few = h.few;
  same = h.same;
}

failures-store_own :
    (key : String) (ts : List ℕ) (es : List Entry) → failures_of key (store_recent key ts es) ≡ ts
failures-store_own key ts es = elim (Bool-cases (is_empty ts)) [
  | inl z ↦ rw z (failures-delete_own key es ∙ sym (is_empty-nil ts z))
  | inr z ↦ rw z (failures-set_own key ts es)
]

failures-store_other :
    (key k : String) (ts : List ℕ) (es : List Entry)
    → str_eq key k ≡ false
    → failures_of k (store_recent key ts es) ≡ failures_of k es
failures-store_other key k ts es other = elim (Bool-cases (is_empty ts)) [
  | inl z ↦ rw z (failures-delete_other key k es other)
  | inr z ↦ rw z (failures-set_other key k ts es other)
]

pub store-HasOneEach :
    (key : String) (ts : List ℕ) (es : List Entry)
    → HasOneEach es
    → HasOneEach (store_recent key ts es)
store-HasOneEach key ts es h = elim (Bool-cases (is_empty ts)) [
  | inl z ↦ rw z (delete-HasOneEach key es h)
  | inr z ↦ rw z (set-HasOneEach key ts es h)
]

pub length-set_key_le :
    (key : String) (ts : List ℕ) (es : List Entry) → length (set_key key ts es) ≤ length es + 1
unfolding set_key
length-set_key_le key ts es = ground (arith, length-delete_key key es)

pub length-store :
    (key : String) (ts : List ℕ) (es : List Entry) → length (store_recent key ts es) ≤ length es + 1
length-store key ts es = elim (Bool-cases (is_empty ts)) [
  | inl z ↦ rw z (omega (arith, length-delete_key key es))
  | inr z ↦ rw z (length-set_key_le key ts es)
]

-- Allow stores what is recent of its key.
pub stored_same :
    (now : ℕ) (key k : String) (l : LoginLimiter) (later : ℕ)
    → now ≤ later
    → keep (recent later l.window) (
        failures_of k
          (store_recent key (keep (recent now l.window) (failures_of key l.failures)) l.failures))
      ≡ keep (recent later l.window) (failures_of k l.failures)
stored_same now key k l later le =
    let ts = keep (recent now l.window) (failures_of key l.failures) in
    elim (Bool-cases (str_eq key k)) [
      | inl t ↦
          subst
            (λ s.
              keep (recent later l.window) (failures_of s (store_recent key ts l.failures))
              ≡ keep (recent later l.window) (failures_of s l.failures))
            ((eq_iff key k).0 t)
            (ap (keep (recent later l.window)) (failures-store_own key ts l.failures)
              ∙ keep-recent now later l.window (failures_of key l.failures) le)
      | inr t ↦ ap (keep (recent later l.window)) (failures-store_other key k ts l.failures t)
    ]

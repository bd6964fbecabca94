-- ===== src/Limiter/Kept.antt =====
-- Each call of internal/security/limiter.go keeps the abstract view, while the map is not full.
use personal_cloud_ai_servic.Limiter.Counted.{
  IsRefined, length-keep_append, store-HasOneEach, length-set_key_le, length-store, stored_same,
}
use personal_cloud_ai_servic.Limiter.Bounds.{length-delete_key, records, clears}
use personal_cloud_ai_servic.Limiter.Entries.{
  failures-delete_own, failures-delete_other, delete-HasOneEach, set-HasOneEach, failures-set_other,
  failures-set_own, same_key,
}
use personal_cloud_ai_servic.Limiter.Abstract.{Failure, counts_for, spec_step, spec_allows}
use personal_cloud_ai_servic.Prelude.{
  keep, ℕ, List, ◌≡◌, length, true, ◌∷◌, ◌++◌, Bool-cases, arith, [], String, ltb, ◌+◌, refl, bit,
  count, inl, inr, ap, ◌∙◌, str_eq, false, subst, ◌<◌, eq_iff, ◌&&◌, sym, not, count-keep_same,
}
use personal_cloud_ai_servic.Limiter.{
  recent, LoginLimiter, failures_of, Entry, set_key, is_full_for, allow_swept, record_swept,
  delete_key, clear,
}

-- The map is not full.
pub room :
    (key : String) (l : LoginLimiter) → length l.failures < l.max_keys → is_full_for key l ≡ false
unfolding is_full_for
room key l h = ground arith

pub allow-IsRefined :
    (now n : ℕ) (key : String) (l : LoginLimiter) (log : List Failure)
    → n < l.max_keys
    → IsRefined now n l log
    → IsRefined now (n + 1) (allow_swept now key l).1 log
unfolding allow_swept
allow-IsRefined now n key l log few h = rw (room key l (omega (arith, h.few))) (record {
  one_each =
      store-HasOneEach key (keep (recent now l.window) (failures_of key l.failures)) l.failures
        h.one_each;
  few = omega (
    arith,
    length-store key (keep (recent now l.window) (failures_of key l.failures)) l.failures,
    h.few,
  );
  same = λ k later le. ap length (stored_same now key k l later le) ∙ h.same k later le;
})

pub allow-answer :
    (now n : ℕ) (key : String) (l : LoginLimiter) (log : List Failure)
    → n < l.max_keys
    → IsRefined now n l log
    → (allow_swept now key l).0 ≡ spec_allows l.window l.limit now key log
unfolding allow_swept spec_allows
allow-answer now n key l log few h =
    rw (room key l (omega (arith, h.few))) (ap (λ x. ltb x l.limit) (h.same key now (omega arith)))

counts-recorded :
    (key k : String) (now later window : ℕ) (log : List Failure)
    → count (counts_for k later window) (spec_step log (records now key))
      ≡ bit (str_eq key k && recent later window now) + count (counts_for k later window) log
unfolding spec_step count counts_for
counts-recorded key k now later window log = refl

recorded_own :
    (now : ℕ) (key k : String) (es : List Entry)
    → str_eq key k ≡ true
    → failures_of k (set_key key (failures_of key es ++ (now ∷ [])) es)
      ≡ failures_of k es ++ (now ∷ [])
recorded_own now key k es t =
    subst
      (λ s.
        failures_of s (set_key key (failures_of key es ++ (now ∷ [])) es)
        ≡ failures_of s es ++ (now ∷ []))
      ((eq_iff key k).0 t) (failures-set_own key (failures_of key es ++ (now ∷ [])) es)

recorded_same :
    (now : ℕ) (key k : String) (l : LoginLimiter) (log : List Failure) (later : ℕ)
    → length (keep (recent later l.window) (failures_of k l.failures))
      ≡ count (counts_for k later l.window) log
    → length (
        keep
          (recent later l.window)
          (failures_of k (set_key key (failures_of key l.failures ++ (now ∷ [])) l.failures)))
      ≡ count (counts_for k later l.window) (spec_step log (records now key))
recorded_same now key k l log later h = elim (Bool-cases (str_eq key k)) [
  | inl t ↦
      ap (λ ts. length (keep (recent later l.window) ts)) (recorded_own now key k l.failures t)
      ∙ length-keep_append (recent later l.window) (failures_of k l.failures) now
      ∙ ground (arith, h, t, counts-recorded key k now later l.window log)
  | inr t ↦
      ap (λ ts. length (keep (recent later l.window) ts))
        (failures-set_other key k (failures_of key l.failures ++ (now ∷ [])) l.failures t)
      ∙ ground (arith, h, t, counts-recorded key k now later l.window log)
]

pub record-IsRefined :
    (now n : ℕ) (key : String) (l : LoginLimiter) (log : List Failure)
    → n < l.max_keys
    → IsRefined now n l log
    → IsRefined now (n + 1) (record_swept now key l) (spec_step log (records now key))
unfolding record_swept
record-IsRefined now n key l log few h = rw (room key l (omega (arith, h.few))) (record {
  one_each = set-HasOneEach key (failures_of key l.failures ++ (now ∷ [])) l.failures h.one_each;
  few =
      omega
        (arith, length-set_key_le key (failures_of key l.failures ++ (now ∷ [])) l.failures, h.few);
  same = λ k later le. recorded_same now key k l log later (h.same k later le);
})

count-cleared_own :
    (key : String) (now window : ℕ) (log : List Failure)
    → count (counts_for key now window) (keep (λ f. not (str_eq f.key key)) log) ≡ 0
unfolding count keep counts_for
count-cleared_own key now window [] = refl
count-cleared_own key now window (f ∷ fs) = ground (arith, count-cleared_own key now window fs)

kept_failure :
    (key k : String) (now window : ℕ) (f : Failure)
    → str_eq key k ≡ false
    → (str_eq f.key k && recent now window f.at) ≡ true
    → not (str_eq f.key key) ≡ true
kept_failure key k now window f other e = elim (Bool-cases (str_eq f.key key)) [
  | inl t ↦ absurd (ground (arith, same_key f.key key k t))
  | inr t ↦ rw t refl
]

count-cleared_other :
    (key k : String) (now window : ℕ) (log : List Failure)
    → str_eq key k ≡ false
    → count (counts_for k now window) (keep (λ f. not (str_eq f.key key)) log)
      ≡ count (counts_for k now window) log
unfolding counts_for
count-cleared_other key k now window log other =
    count-keep_same (λ f. str_eq f.key k && recent now window f.at) (λ f. not (str_eq f.key key))
      log (λ f e. kept_failure key k now window f other e)

none_kept : (now window : ℕ) → length (keep (recent now window) []) ≡ 0
unfolding keep
none_kept now window = refl

cleared_same :
    (key k : String) (l : LoginLimiter) (log : List Failure) (now : ℕ)
    → length (keep (recent now l.window) (failures_of k l.failures))
      ≡ count (counts_for k now l.window) log
    → length (keep (recent now l.window) (failures_of k (delete_key key l.failures)))
      ≡ count (counts_for k now l.window) (spec_step log (clears key))
unfolding spec_step
cleared_same key k l log now h = elim (Bool-cases (str_eq key k)) [
  | inl t ↦
      subst
        (λ s.
          length (keep (recent now l.window) (failures_of s (delete_key key l.failures)))
          ≡ count (counts_for s now l.window) (keep (λ f. not (str_eq f.key key)) log))
        ((eq_iff key k).0 t)
        (ap (λ ts. length (keep (recent now l.window) ts)) (failures-delete_own key l.failures)
          ∙ none_kept now l.window
          ∙ sym (count-cleared_own key now l.window log))
  | inr t ↦
      ap (λ ts. length (keep (recent now l.window) ts)) (failures-delete_other key k l.failures t)
      ∙ h
      ∙ sym (count-cleared_other key k now l.window log t)
]

pub clear-IsRefined :
    (before n : ℕ) (key : String) (l : LoginLimiter) (log : List Failure)
    → IsRefined before n l log
    → IsRefined before (n + 1) (clear key l) (spec_step log (clears key))
unfolding clear
clear-IsRefined before n key l log h = record {
  one_each = delete-HasOneEach key l.failures h.one_each;
  few = omega (arith, length-delete_key key l.failures, h.few);
  same = λ k now le. cleared_same key k l log now (h.same k now le);
}

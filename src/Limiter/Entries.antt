-- ===== src/Limiter/Entries.antt =====
-- The association list of failures as the map of internal/security/limiter.go.

use personal_cloud_ai_servic.Limiter.{
  delete_key, failures_of, set_key, is_empty, sweep_entries, Entry, has_key, recent,
}
use personal_cloud_ai_servic.Prelude.{
  List, String, str_eq, keep, find, count, ℕ, arith, Bool-cases, ◌≤◌, true, false, ◌∷◌,
  count-keep_le, eq_iff, [], inl, ap, not, count-none, subst, inr, ◌≡◌, refl, sym,
}

-- At most one entry for each key.
abbrev pub HasOneEach : List Entry → Type 0
HasOneEach es = (k : String) → count (has_key k) es ≤ 1

pub same_key : (a b k : String) → str_eq a b ≡ true → str_eq a k ≡ str_eq b k
same_key a b k e = ap (λ s. str_eq s k) ((eq_iff a b).0 e)

-- delete(failures, key).
pub find-delete_other :
    (key k : String) (es : List Entry)
    → str_eq key k ≡ false
    → find (has_key k) (delete_key key es) ≡ find (has_key k) es
unfolding delete_key keep find
find-delete_other key k [] other = refl
find-delete_other key k (e ∷ es) other = elim (Bool-cases (str_eq e.key key)) [
  | inl t ↦ ground (arith, same_key e.key key k t, find-delete_other key k es other)
  | inr t ↦ ground (arith, find-delete_other key k es other)
]

pub count-delete_own :
    (key : String) (es : List Entry) → count (has_key key) (delete_key key es) ≡ 0
unfolding delete_key keep count
count-delete_own key [] = refl
count-delete_own key (e ∷ es) = ground (arith, count-delete_own key es)

pub delete-HasOneEach :
    (key : String) (es : List Entry) → HasOneEach es → HasOneEach (delete_key key es)
unfolding delete_key
delete-HasOneEach key es h k =
    omega (arith, count-keep_le (has_key k) (λ e. not (has_key key e)) es, h k)

-- failures[key] = times.
pub failures-set_own :
    (key : String) (times : List ℕ) (es : List Entry)
    → failures_of key (set_key key times es) ≡ times
unfolding failures_of set_key find
failures-set_own key times es = rw ((eq_iff key key).1 refl) refl

pub failures-set_other :
    (key k : String) (times : List ℕ) (es : List Entry)
    → str_eq key k ≡ false
    → failures_of k (set_key key times es) ≡ failures_of k es
unfolding failures_of set_key find
failures-set_other key k times es other = rw (other, find-delete_other key k es other) refl

pub failures-delete_own :
    (key : String) (es : List Entry) → failures_of key (delete_key key es) ≡ []
unfolding failures_of
failures-delete_own key es =
    rw (count-none (has_key key) (delete_key key es) (count-delete_own key es)) refl

pub failures-delete_other :
    (key k : String) (es : List Entry)
    → str_eq key k ≡ false
    → failures_of k (delete_key key es) ≡ failures_of k es
unfolding failures_of
failures-delete_other key k es other = rw (find-delete_other key k es other) refl

pub set-HasOneEach :
    (key : String) (times : List ℕ) (es : List Entry)
    → HasOneEach es
    → HasOneEach (set_key key times es)
unfolding set_key count
set-HasOneEach key times es h k = elim (Bool-cases (str_eq key k)) [
  | inl t ↦
      let own : count (has_key k) (delete_key key es) ≡ 0 =
        subst (λ s. count (has_key s) (delete_key key es) ≡ 0) ((eq_iff key k).0 t)
          (count-delete_own key es) in
      ground arith
  | inr t ↦ ground (arith, delete-HasOneEach key es h k)
]

-- sweepLocked keeps what is recent of every key.
pub is_empty-nil : (ts : List ℕ) → is_empty ts ≡ true → ts ≡ []
unfolding is_empty
is_empty-nil [] e = refl
is_empty-nil (t ∷ ts) e = absurd (ground arith)

pub count-sweep :
    (now window : ℕ) (k : String) (es : List Entry)
    → count (has_key k) (sweep_entries now window es) ≤ count (has_key k) es
unfolding sweep_entries count
count-sweep now window k [] = omega arith
count-sweep now window k (e ∷ es) = ground (arith, count-sweep now window k es)

pub failures-sweep :
    (now window : ℕ) (k : String) (es : List Entry)
    → count (has_key k) es ≤ 1
    → failures_of k (sweep_entries now window es) ≡ keep (recent now window) (failures_of k es)
unfolding sweep_entries failures_of find count
failures-sweep now window k [] h = refl
failures-sweep now window k (e ∷ es) h =
    let gone = is_empty (keep (recent now window) e.times) in
    elim (Bool-cases (str_eq e.key k)) [
      | inl t ↦
          let none_left : count (has_key k) (sweep_entries now window es) ≡ 0 =
            ground (arith, count-sweep now window k es) in
          elim (Bool-cases gone) [
            | inl z ↦
                rw (t, z, count-none (has_key k) (sweep_entries now window es) none_left)
                  (sym (is_empty-nil (keep (recent now window) e.times) z))
            | inr z ↦ rw (z, t) refl
          ]
      | inr t ↦
          let rest = failures-sweep now window k es (ground arith) in
          elim (Bool-cases gone) [ inl z ↦ rw (z, t) rest | inr z ↦ rw (z, t) rest ]
    ]

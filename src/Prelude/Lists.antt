-- ===== src/Prelude/Lists.antt =====
-- Lists as tables: a row is found, counted and rewritten by a test on rows.
use Prim.Native.Nat.{ℕ, suc, ◌+◌, ◌≤◌, ◌<◌}
use mathlib.Core.Path.{◌≡◌, refl}
use mathlib.Core.Logic.{inl, inr}
use mathlib.Core.Bool.{Bool, true, false, ◌&&◌, ◌||◌}
use mathlib.Core.Option.{Option, none, some}
use mathlib.Core.List.{List, [], ◌∷◌}
use native.Mathlib.Omega.{arith}
use personal_cloud_ai_servic.Prelude.Tests.{if◌then◌else◌, bit, Bool-cases}

module _ {ℓ} {A : Type ℓ} where
  abbrev pub length : List A → ℕ
  length [] = 0
  length (x ∷ xs) = suc (length xs)

  -- Every element that passes a test has the property.
  abbrev pub All {κ} : (A → Type κ) → List A → Type κ
  All P [] = Unit
  All P (x ∷ xs) = P x × All P xs

  unfoldable pub find : (A → Bool) → List A → Option A
  find p [] = none
  find p (x ∷ xs) = if p x then some x else find p xs

  unfoldable pub any : (A → Bool) → List A → Bool
  any p [] = false
  any p (x ∷ xs) = p x || any p xs

  unfoldable pub count : (A → Bool) → List A → ℕ
  count p [] = 0
  count p (x ∷ xs) = bit (p x) + count p xs

  -- UPDATE … SET f WHERE p.
  unfoldable pub update : (A → Bool) → (A → A) → List A → List A
  update p f [] = []
  update p f (x ∷ xs) = (if p x then f x else x) ∷ update p f xs

  unfoldable pub keep : (A → Bool) → List A → List A
  keep p [] = []
  keep p (x ∷ xs) = let rest = keep p xs in if p x then x ∷ rest else rest

module _ {ℓ} {A : Type ℓ} (p : A → Bool) where
  pub find_sound : (xs : List A) {x : A} → find p xs ≡ some x → p x ≡ true
  unfolding find
  find_sound [] h = ground arith
  find_sound (x ∷ xs) h = elim (Bool-cases (p x)) [
    | inl e ↦ ground arith
    | inr e ↦ find_sound xs (ground arith)
  ]

  pub find-none : (xs : List A) → find p xs ≡ none → count p xs ≡ 0
  unfolding find count
  find-none [] h = refl
  find-none (x ∷ xs) h = ground (arith, find-none xs)

  pub count-none : (xs : List A) → count p xs ≡ 0 → find p xs ≡ none
  unfolding find count
  count-none [] h = refl
  count-none (x ∷ xs) h = ground (arith, count-none xs)

  pub count-some : (xs : List A) {x : A} → find p xs ≡ some x → 0 < count p xs
  unfolding find count
  count-some [] h = ground arith
  count-some (x ∷ xs) {x = y} h = ground (arith, count-some xs {x = y})

  -- The only row that passes a test is the one that is found.
  pub find_only :
      (xs : List A) {x : A} (q : A → Bool)
      → find q xs ≡ some x
      → p x ≡ true
      → count p xs ≤ 1
      → find p xs ≡ some x
  unfolding find count
  find_only [] q h e u = ground arith
  find_only (y ∷ xs) {x = x} q h e u = elim (Bool-cases (q y)) [
    | inl t ↦ ground arith
    | inr t ↦ elim (Bool-cases (p y)) [
      | inl s ↦
          let later : find p xs ≡ some x = find_only xs q (ground arith) e (ground arith) in
          absurd (ground (arith, count-some xs {x = x}))
      | inr s ↦ ground (arith, find_only xs {x = x} q)
    ]
  ]

  -- A row that is found fails a test that no row passes.
  pub find_fails :
      (xs : List A) {x : A} (q : A → Bool) → find q xs ≡ some x → count p xs ≤ 0 → p x ≡ false
  unfolding find count
  find_fails [] q h e = ground arith
  find_fails (y ∷ xs) {x = x} q h e = ground (arith, find_fails xs {x = x} q)

  -- What stands under a test after a rewriting that the test does not see.
  pub find-update :
      (q : A → Bool) (f : A → A) (xs : List A) {x : A}
      → ((y : A) → p (f y) ≡ p y)
      → find p xs ≡ some x
      → find p (update q f xs) ≡ some (if q x then f x else x)
  unfolding find update
  find-update q f [] same h = ground arith
  find-update q f (y ∷ ys) {x = x} same h = elim (Bool-cases (p y)) [
    | inl e ↦ elim (Bool-cases (q y)) [ inl t ↦ ground (arith, same y) | inr t ↦ ground arith ]
    | inr e ↦ elim (Bool-cases (q y)) [
      | inl t ↦ ground (arith, same y, find-update q f ys {x = x} same)
      | inr t ↦ ground (arith, find-update q f ys {x = x} same)
    ]
  ]

  pub any-find : (xs : List A) → any p xs ≡ false → find p xs ≡ none
  unfolding find any
  any-find [] h = refl
  any-find (x ∷ xs) h = ground (arith, any-find xs)

  pub any-count : (xs : List A) → count p xs ≡ 0 → any p xs ≡ false
  unfolding any count
  any-count [] h = refl
  any-count (x ∷ xs) h = ground (arith, any-count xs)

  pub update-none : (f : A → A) (xs : List A) → find p xs ≡ none → update p f xs ≡ xs
  unfolding find update
  update-none f [] h = refl
  update-none f (x ∷ xs) h = ground (arith, update-none f xs)

module _ {ℓ} {A : Type ℓ} where
  pub any-keep : (p q : A → Bool) (xs : List A) → any p (keep q xs) ≡ any (λ x. q x && p x) xs
  unfolding any keep
  any-keep p q [] = refl
  any-keep p q (x ∷ xs) = ground (arith, any-keep p q xs)

  -- What is kept passes the test.
  pub keep-All : (q : A → Bool) (xs : List A) → All (λ x. q x ≡ true) (keep q xs)
  unfolding keep
  keep-All q [] = tt
  keep-All q (x ∷ xs) = elim (Bool-cases (q x)) [
    | inl e ↦ rw e (e, keep-All q xs)
    | inr e ↦ rw e (keep-All q xs)
  ]

  pub All-keep {κ} : (P : A → Type κ) (q : A → Bool) (xs : List A) → All P xs → All P (keep q xs)
  unfolding keep
  All-keep P q [] h = h
  All-keep P q (x ∷ xs) h = elim (Bool-cases (q x)) [
    | inl e ↦ rw e (h.0, All-keep P q xs h.1)
    | inr e ↦ rw e (All-keep P q xs h.1)
  ]

  absent-All :
      (p : A → Bool) (xs : List A) (w : A) → count p xs ≡ 0 → All (λ x. p x ≡ true → x ≡ w) xs
  unfolding count
  absent-All p [] w h = tt
  absent-All p (x ∷ xs) w h = (λ e. absurd (ground arith), absent-All p xs w (ground arith))

  -- Where one row at most passes a test, the row that is found is the one that passes.
  pub unique-All :
      (p : A → Bool) (xs : List A) {w : A}
      → find p xs ≡ some w
      → count p xs ≤ 1
      → All (λ x. p x ≡ true → x ≡ w) xs
  unfolding count find
  unique-All p [] h u = tt
  unique-All p (x ∷ xs) {w = w} h u = elim (Bool-cases (p x)) [
    | inl e ↦ (λ _. ground arith, absent-All p xs w (ground arith))
    | inr e ↦ (λ t. absurd (ground arith), unique-All p xs (ground arith) (ground arith))
  ]

module _ {ℓ} {A : Type ℓ} (p q : A → Bool) where
  pub any-le :
      (xs : List A) → ((x : A) → p x ≡ true → q x ≡ true) → any q xs ≡ false → any p xs ≡ false
  unfolding any
  any-le [] h e = refl
  any-le (x ∷ xs) h e = ground (arith, h x, any-le xs h)

  pub count-le : ((x : A) → p x ≡ true → q x ≡ true) → (xs : List A) → count p xs ≤ count q xs
  unfolding count
  count-le h [] = omega arith
  count-le h (x ∷ xs) = ground (arith, h x, count-le h xs)

  -- Rewriting rows that pass `q` in a way that `p` does not see.
  pub count-update_same :
      (f : A → A) (xs : List A)
      → ((x : A) → q x ≡ true → p (f x) ≡ p x)
      → count p (update q f xs) ≡ count p xs
  unfolding count update
  count-update_same f [] h = refl
  count-update_same f (x ∷ xs) h = ground (arith, h x, count-update_same f xs h)

  pub count-update_le :
      (f : A → A) (xs : List A)
      → ((x : A) → q x ≡ true → p (f x) ≡ true → p x ≡ true)
      → count p (update q f xs) ≤ count p xs
  unfolding count update
  count-update_le f [] h = omega arith
  count-update_le f (x ∷ xs) h = ground (arith, h x, count-update_le f xs h)

  -- Rewriting the only row that passes `q` moves the count of `p` by that row alone.
  pub count-replace :
      (f : A → A) (xs : List A) (w : A)
      → find q xs ≡ some w
      → count q xs ≤ 1
      → count p (update q f xs) + bit (p w) ≡ count p xs + bit (p (f w))
  unfolding find count update
  count-replace f [] w h u = ground arith
  count-replace f (x ∷ xs) w h u = elim (Bool-cases (q x)) [
    | inl e ↦ ground (arith, count-none q xs, update-none q f xs)
    | inr e ↦ ground (arith, count-replace f xs w)
  ]

-- ===== src/Prelude/Rows.antt =====
-- Rows of a table that are counted or come first in an order.
use Prim.Native.Nat.{◌≤◌}
use mathlib.Core.Path.{◌≡◌, refl, subst}
use mathlib.Core.Logic.{inl, inr}
use mathlib.Core.Bool.{Bool, true, false}
use mathlib.Core.Option.{Option, none, some}
use mathlib.Core.List.{List, [], ◌∷◌}
use native.Mathlib.Omega.{arith}
use personal_cloud_ai_servic.Prelude.Tests.{if◌then◌else◌, bit, Bool-cases}
use personal_cloud_ai_servic.Prelude.Lists.{All, find, any, count, update, keep, count-le}

module _ {ℓ} {A : Type ℓ} (before : A → A → Bool) where
  abbrev pub sooner : A → Option A → A
  sooner x none = x
  sooner x (some y) = if before y x then y else x

  -- ORDER BY … LIMIT 1.
  unfoldable pub least : List A → Option A
  least [] = none
  least (x ∷ xs) = some (sooner x (least xs))

module _ {ℓ} {A : Type ℓ} (p q : A → Bool) where
  -- A row that is found counts.
  pub count-found : (xs : List A) {x : A} → find q xs ≡ some x → bit (p x) ≤ count p xs
  unfolding find count
  count-found [] h = ground arith
  count-found (y ∷ ys) {x = x} h = ground (arith, count-found ys {x = x})

  pub count-keep_le : (xs : List A) → count p (keep q xs) ≤ count p xs
  unfolding keep count
  count-keep_le [] = omega arith
  count-keep_le (x ∷ xs) = ground (arith, count-keep_le xs)

module _ {ℓ} {A : Type ℓ} (p q r : A → Bool) where
  -- Where the only row that passes a test fails a stricter one, no row passes that.
  pub count-only :
      (xs : List A) {w : A}
      → find q xs ≡ some w
      → r w ≡ true
      → p w ≡ false
      → ((x : A) → p x ≡ true → r x ≡ true)
      → count r xs ≤ 1
      → count p xs ≡ 0
  unfolding find count
  count-only [] h hr hp le u = ground arith
  count-only (x ∷ xs) {w = w} h hr hp le u = elim (Bool-cases (q x)) [
    | inl e ↦ ground (arith, count-le p r le xs)
    | inr e ↦ ground (arith, le x, count-found r q xs {x = w}, count-only xs {w = w})
  ]

module _ {ℓ} {A : Type ℓ} (before : A → A → Bool) where
  sooner-All {κ} :
      (P : A → Type κ) (x : A) (o : Option A)
      → P x
      → ((y : A) → o ≡ some y → P y)
      → P (sooner before x o)
  sooner-All P x none h k = h
  sooner-All P x (some y) h k = elim (Bool-cases (before y x)) [
    | inl t ↦ rw t (k y refl)
    | inr t ↦ rw t h
  ]

  pub least-All {κ} :
      (P : A → Type κ) (xs : List A) {x : A} → All P xs → least before xs ≡ some x → P x
  unfolding least
  least-All P [] h e = absurd (ground arith)
  least-All P (y ∷ ys) {x = x} h e =
      let picked : sooner before y (least before ys) ≡ x = cc in
      subst P picked (sooner-All P y (least before ys) h.0 (λ z last. least-All P ys h.1 last))

  -- A list with a row has a first one.
  pub least-some : (xs : List A) → least before xs ≡ none → xs ≡ []
  unfolding least
  least-some [] e = refl
  least-some (x ∷ xs) e = absurd (ground arith)

module _ {ℓ} {A : Type ℓ} where
  pub All-imply {κ μ} :
      {P : A → Type κ} {Q : A → Type μ} (xs : List A) → ((x : A) → P x → Q x) → All P xs → All Q xs
  All-imply [] h all = tt
  All-imply (x ∷ xs) h all = (h x all.0, All-imply xs h all.1)

  pub All-both {κ μ} :
      (P : A → Type κ) (Q : A → Type μ) (xs : List A)
      → All P xs
      → All Q xs
      → All (λ x. P x × Q x) xs
  All-both P Q [] h k = tt
  All-both P Q (x ∷ xs) h k = ((h.0, k.0), All-both P Q xs h.1 k.1)

  -- Every row of a rewritten table has a property.
  pub All-update {κ} :
      (Q : A → Type κ) (q : A → Bool) (f : A → A) (xs : List A)
      → All (λ x. (q x ≡ true → Q (f x)) × (q x ≡ false → Q x)) xs
      → All Q (update q f xs)
  unfolding update
  All-update Q q f [] h = tt
  All-update Q q f (x ∷ xs) h = elim (Bool-cases (q x)) [
    | inl e ↦ rw e (h.0.0 e, All-update Q q f xs h.1)
    | inr e ↦ rw e (h.0.1 e, All-update Q q f xs h.1)
  ]

module _ {ℓ} {A : Type ℓ} (p q : A → Bool) where
  -- Keeping all rows that pass a test.
  pub count-keep_same :
      (xs : List A) → ((x : A) → p x ≡ true → q x ≡ true) → count p (keep q xs) ≡ count p xs
  unfolding keep count
  count-keep_same [] h = refl
  count-keep_same (x ∷ xs) h = ground (arith, h x, count-keep_same xs h)

module _ {ℓ} {A : Type ℓ} (p : A → Bool) where
  pub find-All {κ} : (P : A → Type κ) (xs : List A) {x : A} → All P xs → find p xs ≡ some x → P x
  unfolding find
  find-All P [] h e = absurd (ground arith)
  find-All P (y ∷ ys) {x = x} h e = elim (Bool-cases (p y)) [
    | inl t ↦ subst P (ground arith) h.0
    | inr t ↦ find-All P ys h.1 (ground arith)
  ]

  pub count-zero : (xs : List A) → ((x : A) → p x ≡ false) → count p xs ≡ 0
  unfolding count
  count-zero [] h = refl
  count-zero (x ∷ xs) h = ground (arith, h x, count-zero xs h)

  -- Some row of a table passes a test that one row passes.
  pub any-found :
      (q : A → Bool) (xs : List A) {x : A} → find q xs ≡ some x → p x ≡ true → any p xs ≡ true
  unfolding find any
  any-found q [] h e = absurd (ground arith)
  any-found q (y ∷ ys) {x = x} h e = ground (arith, any-found q ys {x = x})

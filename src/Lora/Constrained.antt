-- ===== src/Lora/Constrained.antt =====
-- A claim keeps the constraints of lora_training_jobs (internal/store/lora_training.go).
use personal_cloud_ai_servic.Db.Keeps.{bind-ok}
use personal_cloud_ai_servic.Db.{Clock, Db, ok, row_or, no_rows, ◌>>=◌, pure}
use personal_cloud_ai_servic.Lora.Handoff.{set_claimed}
use personal_cloud_ai_servic.Lora.{
  training_checks, recipe_checks, progress_checks, live_of, user_active_unique, live,
  has_training_id, update_trainings, update_training,
}
use personal_cloud_ai_servic.Domain.Training.{Training, valid, in_queue, dispatched}
use personal_cloud_ai_servic.Prelude.{
  Bool, ◌≡◌, count, any, List, true, update, All, ◌∷◌, arith, Bool-cases, rune_count, [], inl, inr,
  refl, false, not, ℕ, Option, ◌&&◌, ◌||◌, leb, find, some, ◌∙◌, All-imply,
}

module _ {ℓ} {A : Type ℓ} (q : A → Bool) (f : A → A) where
  count-rewrite_each :
      (p : A → Bool) (xs : List A)
      → All (λ x. q x ≡ true → p (f x) ≡ p x) xs
      → count p (update q f xs) ≡ count p xs
  unfolding count update
  count-rewrite_each p [] h = refl
  count-rewrite_each p (x ∷ xs) h = elim (Bool-cases (q x)) [
    | inl e ↦ ground (arith, h.0 e, count-rewrite_each p xs h.1)
    | inr e ↦ ground (arith, count-rewrite_each p xs h.1)
  ]

  any-update_le :
      (p : A → Bool) (xs : List A)
      → ((x : A) → p (f x) ≡ true → p x ≡ true)
      → any p xs ≡ false
      → any p (update q f xs) ≡ false
  unfolding any update
  any-update_le p [] le h = refl
  any-update_le p (x ∷ xs) le h = ground (arith, le x, any-update_le p xs le)

claimed_texts :
    (c : Clock) (j : Training) → progress_checks j ≡ true → progress_checks (set_claimed c j) ≡ true
unfolding progress_checks set_claimed rune_count valid
claimed_texts c j h = ground arith

claimed_recipe : (c : Clock) (j : Training) → recipe_checks (set_claimed c j) ≡ recipe_checks j
unfolding recipe_checks set_claimed
claimed_recipe c j = refl

still_failing :
    (a' a b' b : Bool)
    → a' ≡ a
    → (b ≡ true → b' ≡ true)
    → not (a' && b') ≡ true
    → not (a && b) ≡ true
still_failing a' a b' b e k h = ground (arith, k)

claimed_checks :
    (c : Clock) (j : Training)
    → not (training_checks (set_claimed c j)) ≡ true
    → not (training_checks j) ≡ true
unfolding training_checks
claimed_checks c j h =
    still_failing (recipe_checks (set_claimed c j)) (recipe_checks j)
      (progress_checks (set_claimed c j)) (progress_checks j) (claimed_recipe c j)
      (claimed_texts c j) h

-- A user's live trainings stay as many where a queued one is claimed.
claimed_live :
    (c : Clock) (user : Option ℕ) (j : Training)
    → in_queue j.state ≡ true
    → live_of user (set_claimed c j) ≡ live_of user j
unfolding live_of live set_claimed in_queue dispatched
claimed_live c user j e = ground arith

-- The only row with the id is queued.
abbrev pub QueuedOnly : ℕ → List Training → Type 0
QueuedOnly id rows = All (λ k. has_training_id id k ≡ true → in_queue k.state ≡ true) rows

claimed_entry :
    (c : Clock) (j : Training) (all all' : List Training)
    → in_queue j.state ≡ true
    → count (live_of j.user_id) all' ≡ count (live_of j.user_id) all
    → (not (live j) || leb (count (live_of j.user_id) all) 1) ≡ true
    → (not (live (set_claimed c j)) || leb (count (live_of (set_claimed c j).user_id) all') 1)
      ≡ true
unfolding live set_claimed in_queue dispatched
claimed_entry c j all all' e same h = ground arith

unique_users :
    (c : Clock) (id : ℕ) (all rows : List Training)
    → QueuedOnly id all
    → QueuedOnly id rows
    → user_active_unique all rows ≡ true
    → user_active_unique
        (update (has_training_id id) (set_claimed c) all)
        (update (has_training_id id) (set_claimed c) rows)
      ≡ true
unfolding user_active_unique update
unique_users c id all [] only h e = refl
unique_users c id all (j ∷ js) only h e =
    let rest = unique_users c id all js only h.1 (ground arith) in
    let same : (u : Option ℕ)
        → count (live_of u) (update (has_training_id id) (set_claimed c) all)
          ≡ count (live_of u) all =
      λ u.
        count-rewrite_each (has_training_id id) (set_claimed c) (live_of u) all
          (All-imply all (λ k q t. claimed_live c u k (q t)) only) in
    elim (Bool-cases (has_training_id id j)) [
      | inl t ↦ ground (
        arith,
        rest,
        claimed_entry c j all (update (has_training_id id) (set_claimed c) all) (h.0 t)
            (same j.user_id),
      )
      | inr t ↦ ground (arith, rest, same j.user_id)
    ]

-- The constraints of the table, as every statement leaves them.
pub record IsConstrained (rows : List Training) : Type 0 where
  pub checked : any (λ j. not (training_checks j)) rows ≡ false
  pub one_each : user_active_unique rows rows ≡ true

update_trainings-ok :
    (q : Training → Bool) (f : Training → Training) (db : Db)
    → IsConstrained (update q f db.lora_training_jobs)
    → update_trainings q f db
      ≡ ok (
        count q db.lora_training_jobs,
        record db { lora_training_jobs = update q f db.lora_training_jobs },
      )
unfolding update_trainings
update_trainings-ok q f db good = rw (good.checked, good.one_each) refl

pub update_training-ok :
    (q : Training → Bool) (f : Training → Training) (db : Db) (w : Training)
    → find q db.lora_training_jobs ≡ some w
    → IsConstrained (update q f db.lora_training_jobs)
    → update_training q f db
      ≡ ok (f w, record db { lora_training_jobs = update q f db.lora_training_jobs })
unfolding update_training
update_training-ok q f db w found good =
    bind-ok (λ db. row_or no_rows (find q db.lora_training_jobs) db)
      (λ j. update_trainings q f >>= λ _. pure (f j)) db {a = w} {db' = db} (rw found refl)
    ∙ bind-ok (update_trainings q f) (λ _. pure (f w)) db (update_trainings-ok q f db good)

pub claimed-IsConstrained :
    (c : Clock) (id : ℕ) (rows : List Training)
    → QueuedOnly id rows
    → IsConstrained rows
    → IsConstrained (update (has_training_id id) (set_claimed c) rows)
claimed-IsConstrained c id rows only good = record {
  checked =
      any-update_le (has_training_id id) (set_claimed c) (λ j. not (training_checks j)) rows
        (claimed_checks c) good.checked;
  one_each = unique_users c id rows rows only only good.one_each;
}

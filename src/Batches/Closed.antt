-- ===== src/Batches/Closed.antt =====
-- What RequestGenerationBatchCancellation of internal/store/generation_batch.go leaves.
use personal_cloud_ai_servic.Jobs.{owned_by, increment_revision}
use personal_cloud_ai_servic.Batches.Calls.{
  cancel_if_open, cancel_open_batch, request_batch_cancellation, set_batch_cancelled, batch_jobs,
}
use personal_cloud_ai_servic.Db.Keeps.{
  After, Ends, After-bind, Ends-read, Keeps-pure, Ends-bind, Ends-ok,
}
use personal_cloud_ai_servic.Domain.Job.{Job}
use personal_cloud_ai_servic.Dispatch.{dispatchable, batch_open}
use personal_cloud_ai_servic.Domain.Rows.{Batch}
use personal_cloud_ai_servic.Db.{Clock, Db, ok, pure, no_rows}
use personal_cloud_ai_servic.Batches.{
  in_batch, has_batch_id, batch_by_id, BatchCounts, counted, is_own_batch,
}
use personal_cloud_ai_servic.Prelude.{
  ℕ, Bool, any, ◌==◌, ◌≡◌, find, ◌&&◌, true, some, is_some, false, Option, Bool-cases, update,
  String, List, arith, any-found, subst, ◌∷◌, trim_space, inl, not, count, inr, [], sym, find_sound,
  count-zero, refl, none,
}

-- The batch is there, and was told to stop.
abbrev is_stopped : ℕ → Batch → Bool
is_stopped id b = (b.id == id) && is_some b.cancellation_requested_at

abbrev Stops : ℕ → Db → Type 0
Stops id db = any (is_stopped id) db.generation_batches ≡ true

not_open :
    (id : ℕ) (o : Option ℕ) (batches : List Batch)
    → owned_by o id ≡ true
    → any (is_stopped id) batches ≡ true
    → batch_open batches o ≡ false
unfolding batch_open
not_open id none batches mine h = absurd (ground arith)
not_open id (some i) batches mine h =
    let same : i ≡ id = ground arith in
    subst (λ k. not (any (is_stopped k) batches) ≡ false) (sym same) (rw h refl)

stopped_job :
    (c : Clock) (max_active id : ℕ) (db : Db) (j : Job)
    → Stops id db
    → (in_batch id j && dispatchable c max_active db j) ≡ false
unfolding in_batch dispatchable
stopped_job c max_active id db j h = elim (Bool-cases (owned_by j.batch_id id)) [
  | inl mine ↦ ground (arith, not_open id j.batch_id db.generation_batches mine h)
  | inr other ↦ rw other refl
]

module _ {ℓ} {A : Type ℓ} (p q : A → Bool) (f : A → A) where
  any-updated :
      (xs : List A)
      → any q xs ≡ true
      → ((x : A) → q x ≡ true → p (f x) ≡ true)
      → any p (update q f xs) ≡ true
  unfolding any update
  any-updated [] h k = absurd (ground arith)
  any-updated (x ∷ xs) h k = ground (arith, k x, any-updated xs)

own_id : (b : Batch) → has_batch_id b.id b ≡ true
unfolding has_batch_id
own_id b = ground arith

set_cancelled-Stopped :
    (c : Clock) (id : ℕ) (b : Batch)
    → has_batch_id id b ≡ true
    → is_stopped id (set_batch_cancelled c b) ≡ true
unfolding has_batch_id set_batch_cancelled
set_cancelled-Stopped c id b e = ground arith

open-Stops :
    (c : Clock) (user : ℕ) (b : Batch) (db : Db) (q : Batch → Bool)
    → find q db.generation_batches ≡ some b
    → After (Stops b.id) (cancel_open_batch c user b db)
unfolding cancel_open_batch increment_revision
open-Stops c user b db q found =
    any-updated (is_stopped b.id) (has_batch_id b.id) (set_batch_cancelled c) db.generation_batches
      (any-found (has_batch_id b.id) q db.generation_batches found (own_id b))
      (set_cancelled-Stopped c b.id)

cancelled_row :
    (c : Clock) (user : ℕ) (b : Batch) (o : Option ℕ) (db : Db) (q : Batch → Bool)
    → find q db.generation_batches ≡ some b
    → b.cancellation_requested_at ≡ o
    → After (Stops b.id) (cancel_if_open c user b o db)
cancelled_row c user b (some t) db q found known =
    any-found (is_stopped b.id) q db.generation_batches found (ground arith)
cancelled_row c user b none db q found known =
    After-bind {P = Stops b.id} (cancel_open_batch c user b db) (λ _. pure true)
      (open-Stops c user b db q found) (λ _. Keeps-pure true)

-- The answer names the batch that was read.
named :
    (user id : ℕ) (db : Db)
    → Ends (λ view db'. (view.0.id ≡ id) × (db' ≡ db)) (batch_by_id user id db)
unfolding batch_by_id has_batch_id
named user id db =
    Ends-read (λ view db'. (view.0.id ≡ id) × (db' ≡ db)) (λ b. counted b) no_rows
      (λ db. find (λ b. has_batch_id id b && owned_by b.user_id user) db.generation_batches) db
      (λ b found. (
        ground (
          arith,
          find_sound (λ b. has_batch_id id b && owned_by b.user_id user) db.generation_batches
              found,
        ),
        refl,
      ))

abbrev Stopped : ((Batch × BatchCounts) × List Job) × Bool → Db → Type 0
Stopped answer db = Stops answer.0.0.0.id db

request-Stopped :
    (c : Clock) (user : ℕ) (public_id : String) (db : Db)
    → Ends Stopped (request_batch_cancellation c user public_id db)
unfolding request_batch_cancellation batch_jobs
request-Stopped c user public_id db =
    Ends-read Stopped _ no_rows
      (λ db. find (is_own_batch user (trim_space public_id)) db.generation_batches) db
      (λ b found.
        Ends-bind Stopped _ (cancel_if_open c user b b.cancellation_requested_at) db
          (λ changed db1 e1. Ends-bind Stopped _ (batch_by_id user b.id) db1 (λ view db2 e2.
            let known =
              Ends-ok (λ view db'. (view.0.id ≡ b.id) × (db' ≡ db1)) (batch_by_id user b.id db1)
                (named user b.id db1) e2 in
            let stops =
              Ends-ok (λ _. Stops b.id) (cancel_if_open c user b b.cancellation_requested_at db)
                (cancelled_row c user b b.cancellation_requested_at db
                  (is_own_batch user (trim_space public_id)) found refl)
                e1 in
            subst (λ i. Stops i db2) (sym known.0)
              (subst (λ d. Stops b.id d) (sym known.1) stops))))

-- After RequestGenerationBatchCancellation has answered, no job of the batch that it names can be
-- claimed for dispatch, at any time and with any limit of batches.
pub cancellation_stops :
    (c later : Clock) (user max_active : ℕ) (public_id : String) (db db' : Db)
    {answer : ((Batch × BatchCounts) × List Job) × Bool}
    → request_batch_cancellation c user public_id db ≡ ok (answer, db')
    → count
        (λ j. in_batch answer.0.0.0.id j && dispatchable later max_active db' j)
        db'.generation_jobs
      ≡ 0
cancellation_stops c later user max_active public_id db db' {answer} success =
    count-zero (λ j. in_batch answer.0.0.0.id j && dispatchable later max_active db' j)
      db'.generation_jobs
      (λ j. stopped_job later max_active answer.0.0.0.id db' j (
        Ends-ok Stopped (request_batch_cancellation c user public_id db)
          (request-Stopped c user public_id db) success))

-- ===== src/Batches/Calls.antt =====
-- GenerationBatchJobs, RequestGenerationBatchCancellation and SetGenerationBatchWinner of
-- internal/store/generation_batch.go.
use personal_cloud_ai_servic.Jobs.{increment_revision, owned_by}
use personal_cloud_ai_servic.Domain.Rows.{Batch}
use personal_cloud_ai_servic.Db.{
  Clock, Tx, ok, pure, ◌>>◌, ◌>>=◌, row_or, no_rows, fail, batch_winner_conflict,
}
use personal_cloud_ai_servic.Batches.{
  in_batch, has_batch_id, is_own_batch, batch_by_id, BatchCounts,
}
use personal_cloud_ai_servic.Prelude.{
  List, keep, update, find, ℕ, Bool, ◌∷◌, some, String, ltb, if◌then◌else◌, true, ◌&&◌, coalesce,
  Option, trim_space, [], ◌||◌, false, str_eq, ◌==◌, none, not,
}
use personal_cloud_ai_servic.Domain.Job.{
  Job, JobState, draft, preparing, uploading, waiting_for_resources, queued, state_eq, running,
  completed,
}

-- ORDER BY batch_position, id.
unfoldable pub place_before : Job → Job → Bool
place_before a b =
    ltb a.batch_position b.batch_position
    || ((a.batch_position == b.batch_position) && ltb a.id b.id)

unfoldable pub put_in_place : Job → List Job → List Job
unfolding place_before
put_in_place j [] = j ∷ []
put_in_place j (k ∷ ks) = if place_before k j then k ∷ put_in_place j ks else j ∷ k ∷ ks

unfoldable pub in_place : List Job → List Job
unfolding put_in_place
in_place [] = []
in_place (j ∷ js) = put_in_place j (in_place js)

unfoldable pub batch_jobs : ℕ → ℕ → Tx (List Job)
unfolding keep in_batch in_place
batch_jobs user id db =
    ok (in_place (keep (λ j. owned_by j.user_id user && in_batch id j) db.generation_jobs), db)

-- The states in which a child is told of the cancellation.
unfoldable pub stoppable : JobState → Bool
stoppable draft = true
stoppable preparing = true
stoppable uploading = true
stoppable waiting_for_resources = true
stoppable queued = true
stoppable running = true
stoppable _ = false

unfoldable pub told : ℕ → ℕ → Job → Bool
unfolding in_batch stoppable
told user id j = in_batch id j && owned_by j.user_id user && stoppable j.state

unfoldable pub set_told : Clock → Job → Job
set_told c j = record j {
  cancellation_requested_at = some (coalesce j.cancellation_requested_at c.now);
  updated_at = c.now;
}

unfoldable pub set_batch_cancelled : Clock → Batch → Batch
set_batch_cancelled c b = record b { cancellation_requested_at = some c.now; updated_at = c.now }

unfoldable pub cancel_open_batch : Clock → ℕ → Batch → Tx (Unit {0})
unfolding update has_batch_id set_batch_cancelled told set_told increment_revision
cancel_open_batch c user b = do
  λ db. ok (
    tt,
    record db {
      generation_batches = update (has_batch_id b.id) (set_batch_cancelled c) db.generation_batches;
      generation_jobs = update (told user b.id) (set_told c) db.generation_jobs;
    },
  )
  increment_revision

abbrev pub cancel_if_open : Clock → ℕ → Batch → Option ℕ → Tx Bool
cancel_if_open c user b (some t) = pure false
cancel_if_open c user b none = do cancel_open_batch c user b; pure true

-- The reads after the commit are part of the call.
unfoldable pub request_batch_cancellation :
    Clock → ℕ → String → Tx (((Batch × BatchCounts) × List Job) × Bool)
unfolding find is_own_batch trim_space cancel_open_batch batch_by_id batch_jobs
request_batch_cancellation c user public_id = do
  b ← λ db.
      row_or no_rows (find (is_own_batch user (trim_space public_id)) db.generation_batches) db
  changed ← cancel_if_open c user b b.cancellation_requested_at
  batch ← batch_by_id user b.id
  jobs ← batch_jobs user b.id
  pure ((batch, jobs), changed)

unfoldable pub is_public_job : ℕ → String → Job → Bool
is_public_job user public_id j = owned_by j.user_id user && str_eq j.public_id public_id

unfoldable pub set_winner : Clock → ℕ → Batch → Batch
set_winner c job b = record b { winner_job_id = some job; updated_at = c.now }

unfoldable pub store_winner : Clock → ℕ → ℕ → Tx (Unit {0})
unfolding update has_batch_id set_winner increment_revision
store_winner c batch job = do
  λ db. ok (
    tt,
    record db {
      generation_batches = update (has_batch_id batch) (set_winner c job) db.generation_batches;
    },
  )
  increment_revision

unfoldable pub set_batch_winner : Clock → ℕ → String → String → Tx (Batch × BatchCounts)
unfolding find is_own_batch is_public_job trim_space store_winner batch_by_id in_batch
set_batch_winner c user batch_public_id job_public_id = do
  b ← λ db.
      row_or no_rows (find (is_own_batch user (trim_space batch_public_id)) db.generation_batches)
        db
  j ← λ db.
      row_or no_rows (find (is_public_job user (trim_space job_public_id)) db.generation_jobs) db
  if not (in_batch b.id j) || not (state_eq j.state completed)
      then fail batch_winner_conflict
      else do store_winner c b.id j.id; batch_by_id user b.id

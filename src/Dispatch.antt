-- ===== src/Dispatch.antt =====
-- internal/store/generation_dispatch.go: which job is sent to the executor next, under a dispatch
-- lease, and the marks before and after the submission. Rows that another transaction has locked
-- (SKIP LOCKED) are not modelled: one claim runs at a time under the advisory lock.
pub mod Submission
pub mod Once
pub mod Turn
pub mod Due
use personal_cloud_ai_servic.Domain.Gpu.{priority_head_start}
use personal_cloud_ai_servic.Jobs.Create.{same_owner}
use personal_cloud_ai_servic.Domain.User.{User}
use personal_cloud_ai_servic.Domain.Rows.{Batch}
use personal_cloud_ai_servic.Gpu.{text_valid}
use personal_cloud_ai_servic.Db.{
  Clock, Db, Tx, ok, ◌>>=◌, job_state_conflict, pure, fail, second, no_rows, err, ◌>>◌,
  gpu_work_input,
}
use personal_cloud_ai_servic.Jobs.{
  has_job_id, update_job, increment_revision, record_transition, increment_user_revision,
  duration_since, increment_owner_revision,
}
use personal_cloud_ai_servic.Domain.Job.{
  JobState, Job, state_eq, preparing, uploading, waiting_for_resources, draft, queued, running,
  postprocessing, archiving,
}
use personal_cloud_ai_servic.Prelude.{
  ℕ, any, Option, count, List, keep, Bool, some, is_some, String, if◌then◌else◌, true, ◌&&◌,
  coalesce, ◌||◌, is_none, ◌==◌, ◌+◌, none, ltb, str_eq, false, length, not, ◌∷◌, ◌*◌, update, [],
}

-- GenerationDispatchLease, in seconds.
abbrev pub dispatch_lease : ℕ
dispatch_lease = 120

-- The states of a job that a batch counts as active.
unfoldable pub is_active_state : JobState → Bool
is_active_state preparing = true
is_active_state uploading = true
is_active_state waiting_for_resources = true
is_active_state queued = true
is_active_state running = true
is_active_state postprocessing = true
is_active_state archiving = true
is_active_state _ = false

unfoldable pub is_waiting_job : JobState → Bool
is_waiting_job waiting_for_resources = true
is_waiting_job _ = false

unfoldable pub is_draft : JobState → Bool
is_draft draft = true
is_draft _ = false

-- The WHERE of QueueGenerationJobDispatch.
unfoldable pub queueable : ℕ → Job → Bool
unfolding has_job_id is_waiting_job
queueable id j =
    has_job_id id j
    && is_waiting_job j.state
    && is_none j.batch_id
    && is_none j.prompt_id
    && is_none j.submission_started_at
    && is_none j.cancellation_requested_at
    && is_none j.dispatch_closed_at
    && is_none j.resources_released_at
    && is_some j.quota_reserved_on
    && ltb 0 (length j.payload_cipher)

unfoldable pub set_queued : Clock → Job → Job
set_queued c j = record j {
  dispatch_queued_at = some (coalesce j.dispatch_queued_at c.now);
  updated_at = c.now;
}

unfoldable pub queue_dispatch : Clock → ℕ → Tx Job
unfolding queueable set_queued update_job increment_revision
queue_dispatch c id = do
  job ← update_job job_state_conflict (queueable id) (set_queued c)
  increment_revision
  pure job

-- batch.cancellation_requested_at IS NULL, over a LEFT JOIN.
unfoldable pub batch_open : List Batch → Option ℕ → Bool
unfolding any
batch_open batches none = true
batch_open batches (some id) =
    not (any (λ b. (b.id == id) && is_some b.cancellation_requested_at) batches)

abbrev pub lease_over : Option ℕ → ℕ → Bool
lease_over none t = true
lease_over (some u) t = ltb u t

-- A sibling in the batch that must finish or start first.
unfoldable pub blocks : Job → Job → Bool
unfolding is_active_state is_draft
blocks candidate sibling =
    same_owner sibling.batch_id candidate.batch_id
    && not (sibling.id == candidate.id)
    && (is_active_state sibling.state
        || (is_draft sibling.state
            && ltb sibling.batch_position candidate.batch_position
            && is_none sibling.cancellation_requested_at))

-- The count of active batch jobs besides the candidate.
unfoldable pub active_batch_jobs : Job → List Job → ℕ
unfolding count is_active_state
active_batch_jobs candidate jobs =
    count (λ j. is_some j.batch_id && not (j.id == candidate.id) && is_active_state j.state) jobs

unfoldable pub batch_turn : ℕ → List Job → Job → Bool
unfolding is_draft any blocks active_batch_jobs
batch_turn max_active jobs j =
    (is_draft j.state
      || (is_some j.dispatch_queued_at
          && (state_eq j.state preparing
              || state_eq j.state uploading
              || state_eq j.state waiting_for_resources)))
    && not (any (blocks j) jobs)
    && ltb (active_batch_jobs j jobs) max_active

-- The WHERE of ClaimNextGenerationDispatch.
unfoldable pub dispatchable : Clock → ℕ → Db → Job → Bool
unfolding batch_open batch_turn is_waiting_job
dispatchable c max_active db j =
    is_none j.prompt_id
    && is_none j.submission_started_at
    && is_none j.dispatch_closed_at
    && is_none j.resources_released_at
    && is_none j.cancellation_requested_at
    && batch_open db.generation_batches j.batch_id
    && lease_over j.dispatch_until c.clock
    && (if is_none j.batch_id
        then is_some j.dispatch_queued_at && is_waiting_job j.state
        else batch_turn max_active db.generation_jobs j)

-- The head start of a priority owner; a job without an owner has none.
unfoldable pub job_head_start : List User → Option ℕ → ℕ
unfolding any
job_head_start users none = 0
job_head_start users (some id) =
    if any (λ u. (u.id == id) && u.queue_priority) users then priority_head_start * second else 0

-- ORDER BY created_at - head start, id, with the subtractions moved across.
unfoldable pub job_precedes : List User → Job → Job → Bool
unfolding job_head_start
job_precedes users a b =
    let x = a.created_at + job_head_start users b.user_id in
    let y = b.created_at + job_head_start users a.user_id in ltb x y || ((x == y) && ltb a.id b.id)

unfoldable pub first_job : List User → List Job → Option Job
unfolding job_precedes
first_job users [] = none
first_job users (j ∷ js) = elim (first_job users js) [
  | none ↦ some j
  | some k ↦ some (if job_precedes users k j then k else j)
]

unfoldable pub next_candidate : Clock → ℕ → Db → Option Job
unfolding dispatchable keep first_job
next_candidate c max_active db =
    first_job db.users (keep (dispatchable c max_active db) db.generation_jobs)

unfoldable pub claimed : Clock → String → Job → Job
unfolding is_draft
claimed c token j = record j {
  dispatch_queued_at = some (coalesce j.dispatch_queued_at j.created_at);
  dispatch_token = token;
  dispatch_until = some (c.clock + dispatch_lease * second);
  state = if is_draft j.state then preparing else j.state;
  status_message = "Подготавливаем задание к запуску";
  state_changed_at = if is_draft j.state then c.now else j.state_changed_at;
  updated_at = c.now;
}

abbrev pub clamp_batches : ℕ → ℕ
clamp_batches n = if ltb n 1 then 1 else if ltb 8 n then 8 else n

unfoldable pub touch_batch : Clock → Option ℕ → Tx (Unit {0})
touch_batch c none db = ok (tt, db)
touch_batch c (some id) db = ok (
  tt,
  record db {
    generation_batches =
        update (λ b. b.id == id) (λ b. record b { updated_at = c.now }) db.generation_batches;
  },
)

abbrev pub record_claim : Clock → Job → Job → Tx (Unit {0})
record_claim c previous job =
    if state_eq previous.state job.state
    then pure tt
    else record_transition (record {
      job_id = job.id;
      correlation_id = job.correlation_id;
      from_state = some previous.state;
      to_state = job.state;
      message = job.status_message;
      error_code = "";
      error_message = "";
      attempt = job.attempt;
      duration_ms = duration_since c previous.state_changed_at;
    })

unfoldable pub claim_candidate : Clock → String → Option Job → Tx Job
unfolding claimed update_job touch_batch record_transition increment_user_revision
    increment_revision
claim_candidate c token none = fail no_rows
claim_candidate c token (some previous) = do
  job ← update_job no_rows (has_job_id previous.id) (claimed c token)
  record_claim c previous job
  touch_batch c job.batch_id
  increment_owner_revision job.user_id
  increment_revision
  pure job

unfoldable pub claim_next_dispatch : Clock → String → ℕ → Tx Job
unfolding text_valid next_candidate claim_candidate
claim_next_dispatch c token max_active db =
    if str_eq token "" || not (text_valid token 96)
    then err gpu_work_input
    else claim_candidate c token (next_candidate c (clamp_batches max_active) db) db

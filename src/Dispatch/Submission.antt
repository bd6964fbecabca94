-- ===== src/Dispatch/Submission.antt =====
-- BeginGenerationJobSubmission, PostponeGenerationDispatch, RejectGenerationJobSubmission and
-- FenceGenerationJobResourceRelease of internal/store/generation_dispatch.go.
use personal_cloud_ai_servic.Gpu.{later_than}
use personal_cloud_ai_servic.Dispatch.{is_waiting_job}
use personal_cloud_ai_servic.Db.{Clock, Tx, ok, ◌>>=◌, pure, second, fail, job_state_conflict}
use personal_cloud_ai_servic.Jobs.{has_job_id}
use personal_cloud_ai_servic.Domain.Job.{Job}
use personal_cloud_ai_servic.Prelude.{
  any, Bool, some, ℕ, String, ◌+◌, coalesce, ◌&&◌, if◌then◌else◌, ◌*◌, none, update, str_eq,
  is_none, is_some, ◌||◌,
}

-- UPDATE without RETURNING: whether a row was Affected.
unfoldable pub affect : (Job → Bool) → (Job → Job) → Tx Bool
unfolding any
affect p f db =
    ok (any p db.generation_jobs, record db { generation_jobs = update p f db.generation_jobs })

unfoldable pub affect_one : (Job → Bool) → (Job → Job) → Tx (Unit {0})
unfolding affect
affect_one p f = do done ← affect p f; if done then pure tt else fail job_state_conflict

-- The WHERE of BeginGenerationJobSubmission.
unfoldable pub submittable : Clock → ℕ → String → Job → Bool
unfolding has_job_id is_waiting_job
submittable c id token j =
    has_job_id id j
    && str_eq j.dispatch_token token
    && later_than j.dispatch_until c.clock
    && is_waiting_job j.state
    && is_none j.prompt_id
    && is_none j.submission_started_at
    && is_none j.cancellation_requested_at
    && is_none j.dispatch_closed_at
    && is_none j.resources_released_at

unfoldable pub set_submitting : Clock → Job → Job
set_submitting c j = record j { submission_started_at = some c.clock; updated_at = c.now }

unfoldable pub begin_submission : Clock → ℕ → String → Tx (Unit {0})
unfolding submittable set_submitting affect_one
begin_submission c id token =
    if str_eq token ""
    then fail job_state_conflict
    else affect_one (submittable c id token) (set_submitting c)

-- The WHERE of PostponeGenerationDispatch.
unfoldable pub postponable : ℕ → String → Job → Bool
unfolding has_job_id is_waiting_job
postponable id token j =
    has_job_id id j
    && str_eq j.dispatch_token token
    && is_none j.submission_started_at
    && is_none j.prompt_id
    && is_waiting_job j.state
    && is_none j.cancellation_requested_at
    && is_none j.dispatch_closed_at
    && is_none j.resources_released_at

unfoldable pub set_postponed : Clock → Job → Job
set_postponed c j = record j {
  dispatch_token = "";
  dispatch_until = some (c.clock + 5 * second);
  status_message = "Ожидаем свободное место в очереди ComfyUI";
  updated_at = c.now;
}

unfoldable pub postpone_dispatch : Clock → ℕ → String → Tx (Unit {0})
unfolding postponable set_postponed affect_one
postpone_dispatch c id token = affect_one (postponable id token) (set_postponed c)

-- The WHERE of RejectGenerationJobSubmission.
unfoldable pub rejectable : ℕ → String → Job → Bool
unfolding has_job_id
rejectable id token j =
    has_job_id id j
    && str_eq j.dispatch_token token
    && is_some j.submission_started_at
    && is_none j.prompt_id

unfoldable pub set_rejected : Clock → Job → Job
set_rejected c j = record j { submission_rejected_at = some c.now; updated_at = c.now }

unfoldable pub reject_submission : Clock → ℕ → String → Tx (Unit {0})
unfolding rejectable set_rejected affect_one
reject_submission c id token = affect_one (rejectable id token) (set_rejected c)

-- The WHERE of FenceGenerationJobResourceRelease.
unfoldable pub fenceable : ℕ → String → Job → Bool
unfolding has_job_id
fenceable id token j =
    has_job_id id j
    && (str_eq j.dispatch_token token || str_eq j.dispatch_token "" || is_some j.prompt_id)
    && (is_some j.prompt_id || is_none j.submission_started_at || is_some j.submission_rejected_at)

unfoldable pub set_fenced : Clock → Job → Job
set_fenced c j = record j {
  dispatch_closed_at = some (coalesce j.dispatch_closed_at c.clock);
  dispatch_until = some c.clock;
  dispatch_queued_at = none;
  dispatch_token = "";
}

unfoldable pub fence_resource_release : Clock → ℕ → String → Tx Bool
unfolding fenceable set_fenced affect
fence_resource_release c id token = affect (fenceable id token) (set_fenced c)

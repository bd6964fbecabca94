-- ===== src/Jobs/Claim.antt =====
-- ClaimGenerationJob of internal/store/generation_job.go: the idempotency key and its job.
use personal_cloud_ai_servic.Jobs.{is_request, prompt_text}
use personal_cloud_ai_servic.Db.{
  Clock, Tx, row_or, ok, no_rows, ◌>>=◌, err, fail, ◌>>◌, constraint, pure, identity_required,
}
use personal_cloud_ai_servic.Jobs.Create.{
  new_job, check_parent, normalized, insert_job, identified, select_request_job, announce,
}
use personal_cloud_ai_servic.Domain.Job.{CreateJobParams, Job, queued, draft}
use personal_cloud_ai_servic.Domain.Rows.{GenerationRequest}
use personal_cloud_ai_servic.Prelude.{
  ℕ, any, trim_space, String, Bool, Option, ◌==◌, if◌then◌else◌, false, ◌&&◌, not, some, str_eq,
  update, find, ◌∷◌, [], is_none, none,
}

-- generation_requests.
unfoldable pub is_key : ℕ → String → GenerationRequest → Bool
is_key user request_id r = (r.user_id == user) && str_eq r.request_id request_id

unfoldable pub insert_request : CreateJobParams → Tx (Unit {0})
unfolding is_key any
insert_request p db =
    if any (is_key p.user_id p.request_id) db.generation_requests
    then ok (tt, db)
    else if not (any (λ u. u.id == p.user_id) db.users)
    then err constraint
    else ok (
      tt,
      record db {
        generation_requests =
            (record {
              user_id = p.user_id;
              request_id = p.request_id;
              correlation_id = p.correlation_id;
              job_id = none;
              prompt_id = none;
            })
            ∷ db.generation_requests;
      },
    )

unfoldable pub link_request : (GenerationRequest → Bool) → Job → Tx (Unit {0})
link_request p job db = ok (
  tt,
  record db {
    generation_requests =
        update p (λ r. record r { job_id = some job.id; correlation_id = job.correlation_id })
          db.generation_requests;
  },
)

unfoldable pub select_request : CreateJobParams → Tx GenerationRequest
unfolding is_key
select_request p db =
    row_or no_rows (find (is_key p.user_id p.request_id) db.generation_requests) db

-- A request that already has its prompt was accepted before a crash.
unfoldable pub recovered : Option String → Bool
unfolding trim_space
recovered none = false
recovered (some prompt) = not (str_eq (trim_space prompt) "")

unfoldable pub claimed_job : Clock → CreateJobParams → Option String → Job
unfolding recovered new_job
claimed_job c p prompt =
    if recovered prompt
    then new_job c p prompt queued "Восстановлен принятый ComfyUI prompt" ("comfyui" ∷ [])
    else new_job c p prompt draft "Запуск создан" []

abbrev pub finish_claim : CreateJobParams → Option Job → Tx (Job × Bool)
finish_claim p none = do
  job ← select_request_job p
  link_request (is_key p.user_id p.request_id) job
  pure (job, false)
finish_claim p (some job) = do
  link_request (is_key p.user_id p.request_id) job
  announce p job
  pure (job, str_eq (prompt_text job.prompt_id) "")

unfoldable pub claim_new : Clock → CreateJobParams → Tx (Job × Bool)
unfolding check_parent select_request claimed_job insert_job select_request_job link_request
    announce
claim_new c p = do
  check_parent p
  request ← select_request p
  inserted ← insert_job (claimed_job c p request.prompt_id)
  finish_claim p inserted

abbrev pub claim_or_adopt : Clock → CreateJobParams → Option Job → Tx (Job × Bool)
claim_or_adopt c p none = claim_new c p
claim_or_adopt c p (some job) = do
  link_request (λ r. is_key p.user_id p.request_id r && is_none r.job_id) job
  pure (job, false)

unfoldable pub look_up_request_job : CreateJobParams → Tx (Option Job)
unfolding is_request
look_up_request_job p db = ok (find (is_request p.user_id p.request_id) db.generation_jobs, db)

unfoldable pub claim_normalized : Clock → CreateJobParams → Tx (Job × Bool)
unfolding insert_request claim_new look_up_request_job link_request
claim_normalized c p =
    if not (identified p)
    then fail identity_required
    else do insert_request p; job ← look_up_request_job p; claim_or_adopt c p job

unfoldable pub claim_generation_job : Clock → CreateJobParams → Tx (Job × Bool)
unfolding normalized identified claim_normalized
claim_generation_job c params = claim_normalized c (normalized params)

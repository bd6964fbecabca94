-- ===== src/Jobs/Cancel.antt =====
-- BindGenerationJobPrompt, MarkGenerationJobResourcesReleased and the cancellation calls of
-- internal/store/generation_job.go.
use personal_cloud_ai_servic.Jobs.Claim.{is_key}
use personal_cloud_ai_servic.Jobs.Create.{same_prompt}
use personal_cloud_ai_servic.Domain.Rows.{MiningLease}
use personal_cloud_ai_servic.Domain.Job.{Job, cancellable, terminal}
use personal_cloud_ai_servic.Prelude.{
  any, String, trim_space, ℕ, some, rune_count, Bool, Option, none, ◌&&◌, List, find, true,
  if◌then◌else◌, is_none, not, str_eq, update, is_some, ◌||◌, leb, false,
}
use personal_cloud_ai_servic.Db.{
  Clock, Tx, ok, err, fail, constraint, prompt_required, ◌>>=◌, pure, job_state_conflict, ◌>>◌,
  no_rows,
}
use personal_cloud_ai_servic.Jobs.{
  has_job_id, select_job, increment_revision, select_own_job, is_own_job, update_job, owned_by,
  prompt_text,
}

-- WHERE id=$1 AND prompt_id IS NULL.
unfoldable pub unbound : ℕ → Job → Bool
unfolding has_job_id
unbound id j = has_job_id id j && is_none j.prompt_id

unfoldable pub set_prompt : Clock → String → Job → Job
set_prompt c prompt j = record j { prompt_id = some prompt; updated_at = c.now }

-- The unique key prompt_id and its CHECK.
unfoldable pub prompt_free : String → List Job → Bool
unfolding any rune_count
prompt_free prompt jobs =
    not (any (λ j. same_prompt j.prompt_id (some prompt)) jobs) && leb (rune_count prompt) 128

-- UPDATE … RETURNING, and the SELECT that follows where no row was written; whether one was.
abbrev pub written_or_read : (Job → Bool) → (Job → Job) → ℕ → Option Job → Tx (Job × Bool)
written_or_read p f id none db = (select_job id >>= λ job. pure (job, false)) db
written_or_read p f id (some j) db =
    ok ((f j, true), record db { generation_jobs = update p f db.generation_jobs })

unfoldable pub write_or_read : (Job → Bool) → (Job → Job) → ℕ → Tx (Job × Bool)
unfolding select_job
write_or_read p f id db = written_or_read p f id (find p db.generation_jobs) db

abbrev pub accepts_prompt : String → Option String → Bool
accepts_prompt prompt none = true
accepts_prompt prompt (some p) = str_eq p prompt

-- UPDATE generation_requests … WHERE … (prompt_id IS NULL OR prompt_id=$2). Its unique key prompt_id
-- is taken to be free.
abbrev pub bind_request : Job → String → Option ℕ → Tx (Unit {0})
bind_request job prompt none db = ok (tt, db)
bind_request job prompt (some user) db = ok (
  tt,
  record db {
    generation_requests =
        update (λ r. is_key user job.request_id r && accepts_prompt prompt r.prompt_id)
          (λ r. record r {
            job_id = some job.id;
            prompt_id = some prompt;
            correlation_id = job.correlation_id;
          })
          db.generation_requests;
  },
)

unfoldable pub bind_lease : Job → String → Tx (Unit {0})
bind_lease job prompt db = ok (
  tt,
  record db {
    mining_leases =
        update (λ l. same_prompt l.prompt_id (some prompt) && is_none l.generation_job_id)
          (λ l. record l { generation_job_id = some job.id; correlation_id = job.correlation_id })
          db.mining_leases;
  },
)

-- UPDATE … SET prompt_id, refused by the unique key.
unfoldable pub bind_row : Clock → ℕ → String → Tx (Job × Bool)
unfolding unbound set_prompt prompt_free write_or_read any
bind_row c id prompt db =
    if any (unbound id) db.generation_jobs && not (prompt_free prompt db.generation_jobs)
    then err constraint
    else write_or_read (unbound id) (set_prompt c prompt) id db

unfoldable pub bind_trimmed : Clock → ℕ → String → Tx Job
unfolding bind_row bind_lease increment_revision
bind_trimmed c id prompt = if str_eq prompt "" then fail prompt_required else do
  (job, changed) ← bind_row c id prompt
  if not changed && not (str_eq (prompt_text job.prompt_id) prompt)
      then fail job_state_conflict
      else do
        bind_request job prompt job.user_id
        bind_lease job prompt
        if changed then increment_revision else pure tt
        pure job

unfoldable pub bind_generation_job_prompt : Clock → ℕ → String → Tx Job
unfolding trim_space bind_trimmed
bind_generation_job_prompt c id prompt = bind_trimmed c id (trim_space prompt)

-- resources_released_at IS NULL AND NOT EXISTS(a mining lease of the job).
unfoldable pub releasable : ℕ → List MiningLease → Job → Bool
unfolding has_job_id any
releasable id leases j =
    has_job_id id j
    && is_none j.resources_released_at
    && not (any (λ l. owned_by l.generation_job_id id) leases)

unfoldable pub set_released : Clock → Job → Job
set_released c j = record j { resources_released_at = some c.now; updated_at = c.now }

unfoldable pub release_row : Clock → ℕ → Tx (Job × Bool)
unfolding releasable set_released write_or_read
release_row c id db = write_or_read (releasable id db.mining_leases) (set_released c) id db

unfoldable pub mark_resources_released : Clock → ℕ → Tx Job
unfolding release_row increment_revision
mark_resources_released c id = do
  (job, changed) ← release_row c id
  if not changed && is_none job.resources_released_at
      then fail job_state_conflict
      else do if changed then increment_revision else pure tt; pure job

unfoldable pub set_cancelling : Clock → Job → Job
set_cancelling c j = record j {
  cancellation_requested_at = some c.now;
  status_message = "Отменяем генерацию";
  updated_at = c.now;
}

unfoldable pub request_cancellation : Clock → ℕ → ℕ → Tx (Job × Bool)
unfolding select_own_job cancellable update_job set_cancelling increment_revision
request_cancellation c id user = do
  current ← select_own_job id user
  if not (cancellable current.state)
      then fail job_state_conflict
      else if is_some current.cancellation_requested_at
      then pure (current, false)
      else do
        job ← update_job no_rows (has_job_id id) (set_cancelling c)
        increment_revision
        pure (job, true)

-- WHERE id=$1 AND user_id=$2 AND cancellation_requested_at IS NOT NULL AND state NOT IN (…).
unfoldable pub clearable : ℕ → ℕ → Job → Bool
unfolding is_own_job terminal
clearable id user j =
    is_own_job id user j && is_some j.cancellation_requested_at && not (terminal j.state)

unfoldable pub set_cleared : Clock → String → Job → Job
set_cleared c message j = record j {
  cancellation_requested_at = none;
  cancellation_confirmed_at = none;
  status_message = message;
  updated_at = c.now;
}

abbrev pub cleared_or_read : (Job → Bool) → (Job → Job) → Tx Job → Option Job → Tx (Job × Bool)
cleared_or_read p f read none = do job ← read; pure (job, false)
cleared_or_read p f read (some j) = do
  job ← update_job no_rows p f
  increment_revision
  pure (job, true)

unfoldable pub clear_cancellation : Clock → ℕ → ℕ → String → Tx (Job × Bool)
unfolding clearable set_cleared trim_space update_job increment_revision select_own_job
clear_cancellation c id user message db =
    cleared_or_read (clearable id user) (set_cleared c (trim_space message))
      (select_own_job id user) (find (clearable id user) db.generation_jobs) db

-- The WHERE of ConfirmGenerationJobCancellation.
unfoldable pub confirmable : ℕ → Job → Bool
unfolding has_job_id terminal
confirmable id j =
    has_job_id id j
    && is_some j.cancellation_requested_at
    && is_none j.cancellation_confirmed_at
    && not (terminal j.state)
    && (is_some j.prompt_id || is_none j.submission_started_at || is_some j.submission_rejected_at)

unfoldable pub set_confirmed : Clock → Job → Job
set_confirmed c j = record j {
  cancellation_confirmed_at = some c.now;
  status_message = "Отмена подтверждена";
  updated_at = c.now;
}

unfoldable pub confirm_cancellation : Clock → ℕ → Tx (Job × Bool)
unfolding confirmable set_confirmed update_job increment_revision select_job
confirm_cancellation c id db =
    cleared_or_read (confirmable id) (set_confirmed c) (select_job id)
      (find (confirmable id) db.generation_jobs) db

-- ===== src/Jobs/Transition.antt =====
-- TransitionGenerationJob and PrepareGenerationJob of internal/store/generation_job.go.
use personal_cloud_ai_servic.Jobs.Notify.{is_failed, create_notification}
use personal_cloud_ai_servic.Jobs.{
  update_job, has_job_id, record_transition, increment_revision, select_job,
  increment_user_revision, prompt_text, duration_since, increment_owner_revision,
}
use personal_cloud_ai_servic.Db.{
  Clock, Tx, pure, fail, job_state_conflict, invalid_attempt, invalid_state,
  failure_reason_required, ◌>>=◌, no_rows, ◌>>◌,
}
use personal_cloud_ai_servic.Prelude.{
  String, trim_space, List, ℕ, if◌then◌else◌, Bool, ◌∷◌, [], ◌==◌, true, str_eq, some, ◌&&◌, false,
  coalesce, not, ltb, ◌||◌, is_none,
}
use personal_cloud_ai_servic.Domain.Job.{
  TransitionParams, JobState, Job, terminal, can_transition, valid, PreparedJob, state_eq, running,
  queued, draft, postprocessing, preparing, archiving, uploading, completed,
}

-- params.Attempt, or the current attempt where that is not positive.
unfoldable pub attempt_of : TransitionParams → Job → ℕ
attempt_of params current = if params.attempt == 0 then current.attempt else params.attempt

-- An error is kept only with a failure.
unfoldable pub error_of : JobState → String → String
error_of state text = if is_failed state then text else ""

-- state IN ('running','postprocessing','archiving','completed').
unfoldable pub has_started : JobState → Bool
has_started running = true
has_started postprocessing = true
has_started archiving = true
has_started completed = true
has_started _ = false

unfoldable pub is_queued : JobState → Bool
is_queued queued = true
is_queued _ = false

-- The message, the error and the attempt that the row gets.
pub record Report : Type 0 where
  pub message : String
  pub error_code : String
  pub error_message : String
  pub attempt : ℕ

unfoldable pub report_of : TransitionParams → Job → Report
unfolding trim_space error_of attempt_of
report_of params current = record {
  message = trim_space params.message;
  error_code = error_of params.state (trim_space params.error_code);
  error_message = error_of params.state (trim_space params.error_message);
  attempt = attempt_of params current;
}

unfoldable pub same_report : Job → Report → Bool
same_report j r =
    str_eq j.status_message r.message
    && str_eq j.error_code r.error_code
    && str_eq j.error_message r.error_message
    && (j.attempt == r.attempt)

-- The update that leaves the state.
unfoldable pub set_report : Clock → Report → Job → Job
set_report c r j = record j {
  status_message = r.message;
  error_code = r.error_code;
  error_message = r.error_message;
  attempt = r.attempt;
  updated_at = c.now;
}

-- The update that moves the state.
unfoldable pub set_state : Clock → JobState → Report → Job → Job
unfolding has_started terminal
set_state c state r j = record j {
  state = state;
  status_message = r.message;
  error_code = r.error_code;
  error_message = r.error_message;
  attempt = r.attempt;
  state_changed_at = c.now;
  updated_at = c.now;
  started_at = if has_started state then some (coalesce j.started_at c.now) else j.started_at;
  finished_at = if terminal state then some (coalesce j.finished_at c.now) else j.finished_at;
}

unfoldable pub move_state : Clock → ℕ → Job → JobState → Report → Tx (Job × Bool)
unfolding update_job record_transition create_notification increment_user_revision
    increment_revision
move_state c id current state r = do
  job ← update_job no_rows (has_job_id id) (set_state c state r)
  record_transition (record {
    job_id = job.id;
    correlation_id = job.correlation_id;
    from_state = some current.state;
    to_state = job.state;
    message = job.status_message;
    error_code = job.error_code;
    error_message = job.error_message;
    attempt = job.attempt;
    duration_ms = duration_since c current.state_changed_at;
  })
  create_notification job
  increment_owner_revision job.user_id
  increment_revision
  pure (job, true)

unfoldable pub amend : Clock → ℕ → Job → Report → Tx (Job × Bool)
unfolding update_job increment_revision same_report terminal
amend c id current r =
    if same_report current r
    then pure (current, false)
    else if terminal current.state
    then fail job_state_conflict
    else do
      job ← update_job no_rows (has_job_id id) (set_report c r)
      increment_revision
      pure (job, true)

-- The guards of a move to another state.
unfoldable pub move_allowed : Job → JobState → Bool
unfolding can_transition is_queued terminal
move_allowed current state =
    can_transition current.state state
    && not (is_queued state && str_eq (prompt_text current.prompt_id) "")
    && not (terminal state && is_none current.resources_released_at)

unfoldable pub transition_row : Clock → ℕ → TransitionParams → Job → Tx (Job × Bool)
unfolding report_of amend move_state move_allowed
transition_row c id params current =
    let r = report_of params current in
    if ltb r.attempt 1 || ltb 100 r.attempt
    then fail invalid_attempt
    else if is_failed params.state && (str_eq r.message "" || str_eq r.error_code "")
    then fail failure_reason_required
    else if state_eq current.state params.state
    then amend c id current r
    else if not (move_allowed current params.state)
    then fail job_state_conflict
    else move_state c id current params.state r

unfoldable pub transition_generation_job : Clock → ℕ → TransitionParams → Tx (Job × Bool)
unfolding valid select_job transition_row
transition_generation_job c id params =
    if not (valid params.state)
    then fail invalid_state
    else do current ← select_job id; transition_row c id params current

-- uniqueStrings of internal/store/generation_library.go.
unfoldable pub mentions : String → List String → Bool
mentions s [] = false
mentions s (x ∷ xs) = str_eq x s || mentions s xs

unfoldable pub unique_from : List String → List String → List String
unfolding mentions trim_space
unique_from seen [] = []
unique_from seen (x ∷ xs) =
    let item = trim_space x in
    elim (str_eq item "" || mentions item seen) [
      | true ↦ unique_from seen xs
      | false ↦ item ∷ unique_from (item ∷ seen) xs
    ]

unfoldable pub unique_strings : List String → List String
unfolding unique_from
unique_strings = unique_from []

-- state IN ('draft','preparing','uploading').
unfoldable pub preparable : ℕ → Job → Bool
unfolding has_job_id
preparable id j =
    has_job_id id j
    && (state_eq j.state draft || state_eq j.state preparing || state_eq j.state uploading)

unfoldable pub set_prepared : Clock → PreparedJob → Job → Job
unfolding trim_space unique_strings
set_prepared c p j = record j {
  template_id = trim_space p.template_id;
  workflow_id = trim_space p.workflow_id;
  model_name = trim_space p.model_name;
  seed = p.seed;
  payload_cipher = p.payload_cipher;
  dependencies = unique_strings p.dependencies;
  input_count = p.input_count;
  updated_at = c.now;
}

unfoldable pub prepare_generation_job : Clock → ℕ → PreparedJob → Tx Job
unfolding preparable set_prepared update_job increment_revision
prepare_generation_job c id prepared = do
  job ← update_job job_state_conflict (preparable id) (set_prepared c prepared)
  increment_revision
  pure job

-- ===== src/Lora/Handoff.antt =====
-- The dispatcher's statements of internal/store/lora_training.go: claim, hand-off to the agent,
-- progress, cancellation, recovery after a restart, and deletion.
use personal_cloud_ai_servic.Domain.User.{User}
use personal_cloud_ai_servic.Lora.Create.{is_visible}
use personal_cloud_ai_servic.Domain.Training.{
  is_uploading, TrainingState, started, valid, dispatched, Training, terminal, uploading, preparing,
  queued, cancelled, in_queue,
}
use personal_cloud_ai_servic.Lora.{update_training, update_trainings, has_training_id, live}
use personal_cloud_ai_servic.Db.{
  Clock, Tx, Db, ◌>>=◌, row_or, ok, no_rows, pure, fail, invalid_training_state,
}
use personal_cloud_ai_servic.Prelude.{
  any, keep, List, least, String, ℕ, count, Bool, if◌then◌else◌, ◌&&◌, some, ◌+◌, is_none, Option,
  str_eq, coalesce, ◌==◌, not, ltb, ◌||◌, is_some,
}
use personal_cloud_ai_servic.Dispatch.{job_head_start}

-- ORDER BY created_at - head start, id, with the subtractions moved across.
unfoldable pub training_precedes : List User → Training → Training → Bool
unfolding job_head_start
training_precedes users a b =
    let x = a.created_at + job_head_start users b.user_id in
    let y = b.created_at + job_head_start users a.user_id in ltb x y || ((x == y) && ltb a.id b.id)

unfoldable pub claimable : List Training → Training → Bool
unfolding any in_queue dispatched
claimable all j =
    in_queue j.state
    && is_none j.cancellation_requested_at
    && not (any (λ k. dispatched k.state) all)

unfoldable pub set_claimed : Clock → Training → Training
set_claimed c j = record j {
  state = uploading;
  stage = "Передаём датасет агенту";
  progress = 2;
  message = "Подготавливаем защищённую передачу файлов.";
  updated_at = c.now;
}

unfoldable pub next_training : Db → Option Training
unfolding keep claimable training_precedes least
next_training db =
    least (training_precedes db.users)
      (keep (claimable db.lora_training_jobs) db.lora_training_jobs)

unfoldable pub claim_next_training : Clock → Tx Training
unfolding next_training update_training set_claimed has_training_id
claim_next_training c = do
  job ← λ db. row_or no_rows (next_training db) db
  update_training (has_training_id job.id) (set_claimed c)

-- state='uploading' AND agent_job_id='' AND agent_submission_started_at IS NULL.
unfoldable pub is_unsent : Training → Bool
unfolding is_uploading
is_unsent j =
    is_uploading j.state && str_eq j.agent_job_id "" && is_none j.agent_submission_started_at

-- Back to the queue, or cancelled where that was asked for, each with its message.
unfoldable pub set_requeued : Clock → String → String → Training → Training
set_requeued c message cancelled_message j =
    if is_none j.cancellation_requested_at
    then record j {
      state = queued;
      stage = "В очереди";
      progress = 0;
      message = message;
      updated_at = c.now;
    }
    else record j {
      state = cancelled;
      stage = "Отменено";
      progress = 100;
      message = cancelled_message;
      finished_at = some (coalesce j.finished_at c.now);
      updated_at = c.now;
    }

-- The messages of a requeue and of a recovery.
abbrev pub requeue_cancelled : String
requeue_cancelled = "Задание отменено во время передачи датасета."

abbrev pub recover_queued : String
recover_queued = "Gateway перезапущен до передачи датасета. Задание поставлено в очередь повторно."

abbrev pub recover_cancelled : String
recover_cancelled = "Отмена завершена после перезапуска Gateway."

unfoldable pub requeue_training : Clock → ℕ → String → Tx Training
unfolding update_training has_training_id is_unsent set_requeued
requeue_training c id message =
    update_training (λ j. has_training_id id j && is_unsent j)
      (set_requeued c message requeue_cancelled)

unfoldable pub recover_trainings : Clock → Tx ℕ
unfolding update_trainings is_unsent set_requeued
recover_trainings c = update_trainings is_unsent (set_requeued c recover_queued recover_cancelled)

unfoldable pub set_attached : Clock → String → String → String → ℕ → Training → Training
set_attached c agent_job stage message progress j = record j {
  agent_job_id = agent_job;
  state = preparing;
  stage = stage;
  message = message;
  progress = progress;
  started_at = some (coalesce j.started_at c.now);
  updated_at = c.now;
}

unfoldable pub attachable : ℕ → String → Training → Bool
unfolding has_training_id is_uploading
attachable id agent_job j =
    has_training_id id j
    && is_uploading j.state
    && (str_eq j.agent_job_id "" || str_eq j.agent_job_id agent_job)

unfoldable pub attach_agent_job : Clock → ℕ → String → String → String → ℕ → Tx (Unit {0})
unfolding update_trainings attachable set_attached
attach_agent_job c id agent_job stage message progress = do
  updated ←
      update_trainings (attachable id agent_job) (set_attached c agent_job stage message progress)
  if updated == 1 then pure tt else fail no_rows

unfoldable pub may_begin : ℕ → Training → Bool
unfolding has_training_id is_unsent
may_begin id j = has_training_id id j && is_unsent j && is_none j.cancellation_requested_at

unfoldable pub set_submitted : Clock → Training → Training
set_submitted c j = record j { agent_submission_started_at = some c.now; updated_at = c.now }

unfoldable pub begin_training_submission : Clock → ℕ → Tx Training
unfolding update_training may_begin set_submitted
begin_training_submission c id = update_training (may_begin id) (set_submitted c)

unfoldable pub in_handoff : ℕ → Training → Bool
unfolding has_training_id is_uploading
in_handoff id j =
    has_training_id id j
    && is_uploading j.state
    && str_eq j.agent_job_id ""
    && is_some j.agent_submission_started_at

unfoldable pub set_message : Clock → String → Training → Training
set_message c message j = record j {
  stage = "Проверяем передачу";
  message = message;
  updated_at = c.now;
}

unfoldable pub set_handoff_message : Clock → ℕ → String → Tx ℕ
unfolding update_trainings in_handoff set_message
set_handoff_message c id message = update_trainings (in_handoff id) (set_message c message)

pub record TrainingUpdate : Type 0 where
  pub state : TrainingState
  pub stage : String
  pub progress : ℕ
  pub message : String
  pub error_message : String
  pub artifact_name : String
  pub artifact_bytes : ℕ

unfoldable pub set_updated : Clock → TrainingUpdate → Training → Training
unfolding started terminal
set_updated c u j = record j {
  state = u.state;
  stage = u.stage;
  progress = u.progress;
  message = u.message;
  error_message = u.error_message;
  artifact_name = u.artifact_name;
  artifact_bytes = u.artifact_bytes;
  started_at = if started u.state then some (coalesce j.started_at c.now) else j.started_at;
  finished_at = if terminal u.state then some (coalesce j.finished_at c.now) else j.finished_at;
  updated_at = c.now;
}

unfoldable pub update_lora_training : Clock → ℕ → TrainingUpdate → Tx ℕ
unfolding valid update_trainings has_training_id set_updated
update_lora_training c id u =
    if not (valid u.state)
    then fail invalid_training_state
    else update_trainings (has_training_id id) (set_updated c u)

unfoldable pub may_cancel : String → ℕ → Bool → Training → Bool
unfolding is_visible live
may_cancel public_id user admin j = is_visible public_id user admin j && live j

unfoldable pub set_cancellation : Clock → Training → Training
unfolding in_queue
set_cancellation c j =
    if in_queue j.state
    then record j {
      cancellation_requested_at = some (coalesce j.cancellation_requested_at c.now);
      state = cancelled;
      stage = "Отменено";
      progress = 100;
      message = "Задание отменено до запуска.";
      finished_at = some c.now;
      updated_at = c.now;
    }
    else record j {
      cancellation_requested_at = some (coalesce j.cancellation_requested_at c.now);
      stage = "Отменяем обучение";
      message = "Отправляем отмену агенту.";
      updated_at = c.now;
    }

unfoldable pub request_training_cancellation : Clock → String → ℕ → Bool → Tx Training
unfolding update_training may_cancel set_cancellation
request_training_cancellation c public_id user admin =
    update_training (may_cancel public_id user admin) (set_cancellation c)

unfoldable pub clear_path : Clock → Training → Training
clear_path c j = record j { dataset_path = ""; updated_at = c.now }

unfoldable pub clear_dataset_path : Clock → ℕ → Tx ℕ
unfolding update_trainings has_training_id clear_path
clear_dataset_path c id = update_trainings (has_training_id id) (clear_path c)

unfoldable pub is_finished : ℕ → Training → Bool
unfolding has_training_id terminal
is_finished id j = has_training_id id j && terminal j.state

unfoldable pub delete_terminal_training : ℕ → Tx Bool
unfolding keep count is_finished
delete_terminal_training id db = ok (
  count (is_finished id) db.lora_training_jobs == 1,
  record db { lora_training_jobs = keep (λ j. not (is_finished id j)) db.lora_training_jobs },
)

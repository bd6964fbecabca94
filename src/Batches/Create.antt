-- ===== src/Batches/Create.antt =====
-- CreateGenerationBatch of internal/store/generation_batch.go: the quota is charged for all children
-- at once. `day` is the Moscow calendar day.
use personal_cloud_ai_servic.Domain.User.{User}
use personal_cloud_ai_servic.Domain.Rows.{DailyUsage, Batch}
use personal_cloud_ai_servic.Jobs.Claim.{is_key}
use personal_cloud_ai_servic.Domain.Job.{Job, draft, state_eq, completed}
use personal_cloud_ai_servic.Jobs.Transition.{unique_strings}
use personal_cloud_ai_servic.Batches.{
  batch_params_valid, has_batch_id, CreateBatchParams, batch_checks, is_batch_request, BatchChild,
  batch_by_id, BatchCounts,
}
use personal_cloud_ai_servic.Db.{
  Clock, Tx, fail, pure, ok, constraint, err, ◌>>=◌, quota_forbidden, batch_conflict, batch_invalid,
  ◌>>◌,
}
use personal_cloud_ai_servic.Quota.{
  QuotaKind, select_user, quota_kind, select_usage, image_quota, video_quota, is_usage, has_user_id,
  total_limit_of, total_used_of, total_limit_error, daily_limit_of, used_on, daily_limit_error,
}
use personal_cloud_ai_servic.Jobs.{
  record_transition, increment_user_revision, is_own_job, increment_revision, owned_by,
}
use personal_cloud_ai_servic.Jobs.Create.{insert_job}
use personal_cloud_ai_servic.Prelude.{
  any, ℕ, trim_space, rune_count, Option, find, Bool, update, List, ltb, leb, ◌+◌, ◌&&◌, some,
  if◌then◌else◌, none, not, ◌∷◌, is_none, true, length, ◌||◌, false, str_eq, [],
}

unfoldable pub own_parent_batch : CreateBatchParams → List Batch → Bool
unfolding any has_batch_id
own_parent_batch p batches = elim p.parent_batch_id [
  | none ↦ true
  | some id ↦ any (λ b. has_batch_id id b && owned_by b.user_id p.user_id) batches
]

unfoldable pub own_source_job : CreateBatchParams → List Job → Bool
unfolding any is_own_job
own_source_job p jobs = elim p.source_job_id [
  | none ↦ true
  | some id ↦ any (λ j. is_own_job id p.user_id j && state_eq j.state completed) jobs
]

-- count > limit - used, with the subtraction moved across; a limit of 0 is no limit.
abbrev pub over : ℕ → ℕ → ℕ → Bool
over limit used n = ltb 0 limit && ltb limit (used + n)

unfoldable pub new_batch : Clock → CreateBatchParams → ℕ → Batch
unfolding trim_space
new_batch c p id = record {
  id = id;
  public_id = trim_space p.public_id;
  user_id = some p.user_id;
  username_snapshot = trim_space p.username_snapshot;
  request_id = trim_space p.request_id;
  parent_batch_id = p.parent_batch_id;
  source_job_id = p.source_job_id;
  winner_job_id = none;
  template_id = trim_space p.template_id;
  workflow_id = trim_space p.workflow_id;
  model_name = trim_space p.model_name;
  experiment_mode = p.mode;
  parameter_name = trim_space p.parameter_name;
  parameter_values = p.parameter_values;
  seed_locked = p.seed_locked;
  total_count = length p.jobs;
  max_parallel = p.max_parallel;
  cancellation_requested_at = none;
  created_at = c.now;
  updated_at = c.now;
}

unfoldable pub insert_batch : Batch → Tx ℕ
unfolding any batch_checks
insert_batch b db =
    if not (batch_checks b) || any (λ o. str_eq o.public_id b.public_id) db.generation_batches
    then err constraint
    else ok (
      b.id,
      record db {
        generation_batches = b ∷ db.generation_batches;
        next_batch_id = db.next_batch_id + 1;
      },
    )

unfoldable pub new_child : Clock → CreateBatchParams → ℕ → ℕ → BatchChild → Job
unfolding trim_space unique_strings
new_child c p day batch child = record {
  id = 0;
  public_id = trim_space child.public_id;
  correlation_id = trim_space child.correlation_id;
  user_id = some p.user_id;
  username_snapshot = trim_space p.username_snapshot;
  request_id = trim_space child.request_id;
  parent_job_id = child.parent_job_id;
  prompt_id = none;
  template_id = child.prepared.template_id;
  workflow_id = child.prepared.workflow_id;
  model_name = child.prepared.model_name;
  seed = child.prepared.seed;
  payload_cipher = child.prepared.payload_cipher;
  state = draft;
  status_message = "Ожидает запуска в пакете";
  error_code = "";
  error_message = "";
  attempt = 1;
  dependencies = unique_strings child.prepared.dependencies;
  input_count = child.prepared.input_count;
  state_changed_at = c.now;
  started_at = none;
  finished_at = none;
  resources_released_at = none;
  quota_reserved_on = some day;
  quota_committed_at = none;
  cancellation_requested_at = none;
  cancellation_confirmed_at = none;
  created_at = c.now;
  updated_at = c.now;
  batch_id = some batch;
  batch_position = child.position;
  experiment_value = trim_space child.experiment_value;
  dispatch_queued_at = none;
  dispatch_token = "";
  dispatch_until = none;
  submission_started_at = none;
  submission_rejected_at = none;
  dispatch_closed_at = none;
}

unfoldable pub child_checks : Job → Bool
unfolding rune_count
child_checks j =
    leb (rune_count j.template_id) 256
    && leb (rune_count j.workflow_id) 256
    && leb (rune_count j.model_name) 512
    && leb j.input_count 16
    && leb j.batch_position 20
    && leb (rune_count j.experiment_value) 128

-- A conflict is an error here.
abbrev pub inserted_child : Option Job → Tx Job
inserted_child none = fail constraint
inserted_child (some j) = pure j

unfoldable pub insert_child : Job → Tx Job
unfolding child_checks insert_job
insert_child new =
    if not (child_checks new) then fail constraint else do o ← insert_job new; inserted_child o

unfoldable pub insert_child_request : ℕ → Job → Tx (Unit {0})
unfolding any is_key
insert_child_request user j db =
    if any (is_key user j.request_id) db.generation_requests
    then err constraint
    else ok (
      tt,
      record db {
        generation_requests =
            (record {
              user_id = user;
              request_id = j.request_id;
              correlation_id = j.correlation_id;
              job_id = some j.id;
              prompt_id = none;
            })
            ∷ db.generation_requests;
      },
    )

-- The child, its transition and its request.
unfoldable pub insert_one_child : Clock → CreateBatchParams → ℕ → ℕ → BatchChild → Tx (Unit {0})
unfolding new_child insert_child record_transition insert_child_request
insert_one_child c p day batch child = do
  j ← insert_child (new_child c p day batch child)
  record_transition (record {
    job_id = j.id;
    correlation_id = j.correlation_id;
    from_state = none;
    to_state = draft;
    message = "Ожидает запуска в пакете";
    error_code = "";
    error_message = "";
    attempt = 1;
    duration_ms = 0;
  })
  insert_child_request p.user_id j

unfoldable pub insert_children : Clock → CreateBatchParams → ℕ → ℕ → List BatchChild → Tx (Unit {0})
unfolding insert_one_child
insert_children c p day batch [] = pure tt
insert_children c p day batch (child ∷ rest) = do
  insert_one_child c p day batch child
  insert_children c p day batch rest

abbrev pub add_runs : QuotaKind → ℕ → DailyUsage → DailyUsage
add_runs image_quota n d = record d { used_count = d.used_count + n }
add_runs video_quota n d = record d { video_used_count = d.video_used_count + n }

abbrev pub add_total_runs : QuotaKind → ℕ → User → User
add_total_runs image_quota n u = record u { generation_total_used = u.generation_total_used + n }
add_total_runs video_quota n u = record u {
  video_generation_total_used = u.video_generation_total_used + n;
}

abbrev pub no_runs : ℕ → ℕ → DailyUsage
no_runs user day = record { user_id = user; usage_date = day; used_count = 0; video_used_count = 0 }

unfoldable pub charge_runs : QuotaKind → ℕ → ℕ → ℕ → Tx (Unit {0})
unfolding find update
charge_runs kind user day n db = ok (
  tt,
  record db {
    daily_usage =
        if is_none (find (is_usage user day) db.daily_usage)
        then add_runs kind n (no_runs user day) ∷ db.daily_usage
        else update (is_usage user day) (add_runs kind n) db.daily_usage;
    users = update (has_user_id user) (add_total_runs kind n) db.users;
  },
)

-- The revisions, and the answer that is read after the commit.
unfoldable pub finish_batch : ℕ → ℕ → Tx ((Batch × BatchCounts) × Bool)
unfolding increment_user_revision increment_revision batch_by_id
finish_batch user id = do
  increment_user_revision user
  increment_revision
  batch ← batch_by_id user id
  pure (batch, true)

-- What follows the checks.
unfoldable pub store_batch :
    Clock → ℕ → CreateBatchParams → QuotaKind → Tx ((Batch × BatchCounts) × Bool)
unfolding new_batch insert_batch insert_children charge_runs finish_batch
store_batch c day p kind = do
  id ← λ db. insert_batch (new_batch c p db.next_batch_id) db
  insert_children c p day id p.jobs
  charge_runs kind p.user_id day (length p.jobs)
  finish_batch p.user_id id

unfoldable pub charge_batch :
    Clock → ℕ → CreateBatchParams → QuotaKind → Tx ((Batch × BatchCounts) × Bool)
unfolding select_user select_usage store_batch
charge_batch c day p kind = do
  u ← select_user p.user_id
  if not u.can_use_quick_generation
      then fail quota_forbidden
      else if over (total_limit_of kind u) (total_used_of kind u) (length p.jobs)
      then fail (total_limit_error kind)
      else do
        usage ← select_usage p.user_id day
        if over (daily_limit_of kind u) (used_on kind usage) (length p.jobs)
            then fail (daily_limit_error kind)
            else store_batch c day p kind

unfoldable pub create_new_batch : Clock → ℕ → CreateBatchParams → Tx ((Batch × BatchCounts) × Bool)
unfolding own_parent_batch own_source_job quota_kind charge_batch
create_new_batch c day p db =
    if not (own_parent_batch p db.generation_batches)
    then err batch_conflict
    else if not (own_source_job p db.generation_jobs)
    then err batch_conflict
    else charge_batch c day p (quota_kind p.template_id) db

-- A batch with the request id is the answer to a repeated call.
abbrev pub create_or_read :
    Clock → ℕ → CreateBatchParams → Option Batch → Tx ((Batch × BatchCounts) × Bool)
create_or_read c day p none = create_new_batch c day p
create_or_read c day p (some b) = do batch ← batch_by_id p.user_id b.id; pure (batch, false)

unfoldable pub create_generation_batch :
    Clock → ℕ → CreateBatchParams → Tx ((Batch × BatchCounts) × Bool)
unfolding batch_params_valid find is_batch_request trim_space create_new_batch batch_by_id
create_generation_batch c day p db =
    if not (batch_params_valid p)
    then err batch_invalid
    else create_or_read c day p
        (find (is_batch_request p.user_id (trim_space p.request_id)) db.generation_batches) db

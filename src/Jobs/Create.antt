-- ===== src/Jobs/Create.antt =====
-- CreateGenerationJob of internal/store/generation_job.go, with the constraints of the table that it
-- inserts into.
use Prim.Native.Char.{code}
use personal_cloud_ai_servic.Jobs.{
  is_own_job, is_request, record_transition, has_job_id, increment_user_revision,
  increment_revision, owned_by,
}
use personal_cloud_ai_servic.Db.{
  Clock, Tx, ok, row_or, err, no_rows, fail, constraint, job_parent_conflict, identity_required,
  ◌>>=◌, ◌>>◌, pure,
}
use personal_cloud_ai_servic.Domain.Job.{CreateJobParams, Job, JobState, draft}
use personal_cloud_ai_servic.Prelude.{
  trim_space, ℕ, String, rune_count, Option, any, if◌then◌else◌, Bool, List, str_eq, not, leb, true,
  ◌&&◌, some, ◌==◌, false, ◌||◌, [], ◌∷◌, find, none, ◌+◌,
}

unfoldable pub normalized : CreateJobParams → CreateJobParams
unfolding trim_space
normalized p =
    let public_id = trim_space p.public_id in
    let correlation_id = trim_space p.correlation_id in
    record p {
      public_id = public_id;
      correlation_id = if str_eq correlation_id "" then public_id else correlation_id;
      request_id = trim_space p.request_id;
      username_snapshot = trim_space p.username_snapshot;
    }

unfoldable pub identified : CreateJobParams → Bool
identified p = not (p.user_id == 0) && not (str_eq p.public_id "") && not (str_eq p.request_id "")

-- [A-Za-z0-9_-].
unfoldable pub is_token_char : ℕ → Bool
is_token_char c =
    (leb 65 c && leb c 90)
    || (leb 97 c && leb c 122)
    || (leb 48 c && leb c 57)
    || (c == 95)
    || (c == 45)

unfoldable pub token_chars : String → Bool
unfolding is_token_char
token_chars String.[] = true
token_chars (String.◌∷◌ c s) = is_token_char (code c) && token_chars s

unfoldable pub is_public_token : String → Bool
unfolding token_chars rune_count
is_public_token s = leb 16 (rune_count s) && leb (rune_count s) 96 && token_chars s

abbrev pub prompt_fits : Option String → Bool
prompt_fits none = true
prompt_fits (some p) = leb 1 (rune_count p) && leb (rune_count p) 128

-- The CHECKs on the inserted columns of generation_jobs.
unfoldable pub checks_pass : Job → Bool
unfolding is_public_token rune_count
checks_pass j =
    is_public_token j.public_id
    && (str_eq j.correlation_id "" || is_public_token j.correlation_id)
    && leb (rune_count j.username_snapshot) 128
    && leb 1 (rune_count j.request_id)
    && leb (rune_count j.request_id) 128
    && prompt_fits j.prompt_id

abbrev pub same_prompt : Option String → Option String → Bool
same_prompt (some p) (some q) = str_eq p q
same_prompt _ _ = false

abbrev pub same_owner : Option ℕ → Option ℕ → Bool
same_owner (some a) (some b) = a == b
same_owner _ _ = false

-- The unique keys: public_id, prompt_id, and (user_id, request_id).
unfoldable pub conflicts : Job → Job → Bool
conflicts new j =
    str_eq j.public_id new.public_id
    || same_prompt j.prompt_id new.prompt_id
    || (str_eq j.request_id new.request_id && same_owner j.user_id new.user_id)

unfoldable pub parent_exists : Option ℕ → List Job → Bool
unfolding any has_job_id
parent_exists none jobs = true
parent_exists (some id) jobs = any (has_job_id id) jobs

-- INSERT INTO generation_jobs … ON CONFLICT DO NOTHING RETURNING …, with the foreign keys.
unfoldable pub insert_job : Job → Tx (Option Job)
unfolding checks_pass conflicts parent_exists any
insert_job new db =
    if not (checks_pass new)
    then err constraint
    else if any (conflicts new) db.generation_jobs
    then ok (none, db)
    else if not (any (λ u. owned_by new.user_id u.id) db.users)
        || not (parent_exists new.parent_job_id db.generation_jobs)
    then err constraint
    else let job = record new { id = db.next_job_id } in
      ok (
        some job,
        record db { generation_jobs = job ∷ db.generation_jobs; next_job_id = db.next_job_id + 1 },
      )

-- The row that the two INSERTs give, with the defaults of the table; -1 is its bit pattern.
unfoldable pub new_job :
    Clock → CreateJobParams → Option String → JobState → String → List String → Job
new_job c p prompt state message dependencies = record {
  id = 0;
  public_id = p.public_id;
  correlation_id = p.correlation_id;
  user_id = some p.user_id;
  username_snapshot = p.username_snapshot;
  request_id = p.request_id;
  parent_job_id = p.parent_job_id;
  prompt_id = prompt;
  template_id = "";
  workflow_id = "";
  model_name = "";
  seed = 0xffffffffffffffff;
  payload_cipher = [];
  state = state;
  status_message = message;
  error_code = "";
  error_message = "";
  attempt = 1;
  dependencies = dependencies;
  input_count = 0;
  state_changed_at = c.now;
  started_at = none;
  finished_at = none;
  resources_released_at = none;
  quota_reserved_on = none;
  quota_committed_at = none;
  cancellation_requested_at = none;
  cancellation_confirmed_at = none;
  created_at = c.now;
  updated_at = c.now;
  batch_id = none;
  batch_position = 0;
  experiment_value = "";
  dispatch_queued_at = none;
  dispatch_token = "";
  dispatch_until = none;
  submission_started_at = none;
  submission_rejected_at = none;
  dispatch_closed_at = none;
}

unfoldable pub own_parent : CreateJobParams → List Job → Bool
unfolding is_own_job any
own_parent p jobs = elim p.parent_job_id [
  | none ↦ true
  | some id ↦ any (is_own_job id p.user_id) jobs
]

-- The guard on params.ParentJobID.
unfoldable pub check_parent : CreateJobParams → Tx (Unit {0})
unfolding own_parent
check_parent p db = if own_parent p db.generation_jobs then ok (tt, db) else err job_parent_conflict

unfoldable pub select_request_job : CreateJobParams → Tx Job
unfolding is_request
select_request_job p db =
    row_or no_rows (find (is_request p.user_id p.request_id) db.generation_jobs) db

-- What follows an INSERT that added a row.
unfoldable pub announce : CreateJobParams → Job → Tx (Unit {0})
unfolding record_transition increment_user_revision increment_revision
announce p job = do
  record_transition (record {
    job_id = job.id;
    correlation_id = job.correlation_id;
    from_state = none;
    to_state = job.state;
    message = job.status_message;
    error_code = "";
    error_message = "";
    attempt = 1;
    duration_ms = 0;
  })
  increment_user_revision p.user_id
  increment_revision

abbrev pub created_or_found : CreateJobParams → Option Job → Tx (Job × Bool)
created_or_found p (some job) = do announce p job; pure (job, true)
created_or_found p none = do job ← select_request_job p; pure (job, false)

unfoldable pub create_normalized : Clock → CreateJobParams → Tx (Job × Bool)
unfolding check_parent new_job insert_job announce select_request_job
create_normalized c p = if not (identified p) then fail identity_required else do
  check_parent p
  inserted ← insert_job (new_job c p none draft "Запуск создан" [])
  created_or_found p inserted

unfoldable pub create_generation_job : Clock → CreateJobParams → Tx (Job × Bool)
unfolding normalized identified create_normalized
create_generation_job c params = create_normalized c (normalized params)

-- ===== src/Db.antt =====
-- The database as the repositories of internal/store see it: one list of rows for each table, and a
-- transaction, which a Go error rolls back (`defer tx.Rollback()`). Statements of one transaction
-- run without interference (the row locks, SERIALIZABLE and the advisory lock of the source).
pub mod Keeps
use personal_cloud_ai_servic.Prelude.{ℕ, ◌*◌, List, [], Option, none, some, if◌then◌else◌, Bool}
use personal_cloud_ai_servic.Domain.Gpu.{GpuResource, GpuWork, GpuEvent}
use personal_cloud_ai_servic.Domain.Job.{Job, JobTransition}
use personal_cloud_ai_servic.Domain.User.{User}
use personal_cloud_ai_servic.Domain.Training.{Training, DatasetSnapshot}
use personal_cloud_ai_servic.Domain.Invite.{Invite, InviteUse}
use personal_cloud_ai_servic.Domain.Miner.{Miner}
use personal_cloud_ai_servic.Domain.Rows.{
  GenerationRequest, Batch, MiningLease, DailyUsage, Notification, NotificationPreferences,
  NotificationRevision,
}

pub record Db : Type 0 where
  pub users : List User
  pub gpu_resources : List GpuResource
  pub gpu_work : List GpuWork
  pub gpu_work_events : List GpuEvent
  pub generation_jobs : List Job
  -- The sequence behind generation_jobs.id.
  pub next_job_id : ℕ
  pub generation_job_transitions : List JobTransition
  pub generation_job_revision : ℕ
  pub generation_requests : List GenerationRequest
  pub generation_batches : List Batch
  pub next_batch_id : ℕ
  pub mining_leases : List MiningLease
  pub daily_usage : List DailyUsage
  pub notifications : List Notification
  pub notification_preferences : List NotificationPreferences
  pub notification_revisions : List NotificationRevision
  pub lora_dataset_snapshots : List DatasetSnapshot
  pub lora_training_jobs : List Training
  -- The sequence behind lora_training_jobs.id.
  pub next_training_id : ℕ
  pub next_user_id : ℕ
  pub invites : List Invite
  pub next_invite_id : ℕ
  pub invite_uses : List InviteUse
  pub miners : List Miner
  pub next_miner_id : ℕ

-- The errors that the callers tell apart. `constraint` is a refused INSERT (a key or a foreign key).
pub data Error : Type 0 where
  no_rows constraint gpu_work_conflict gpu_work_input job_state_conflict job_parent_conflict
        identity_required prompt_required invalid_state invalid_attempt failure_reason_required
        quota_forbidden image_daily_limit image_total_limit video_daily_limit video_total_limit
        daily_limit_reached total_limit_reached training_already_active dataset_asset
        invalid_training_state invite_unavailable username_exists email_exists
        default_miner_required batch_invalid batch_conflict batch_winner_conflict :
      Error

pub data Result {ℓ} (A : Type ℓ) : Type ℓ where
  ok : A → Result A
  err : Error → Result A

abbrev pub Tx : Type 0 → Type 0
Tx A = Db → Result (A × Db)

infixl 5 ◌>>=◌ ◌>>◌
abbrev pub ◌>>=◌ : {A B : Type 0} → Tx A → (A → Tx B) → Tx B
◌>>=◌ m f db = elim (m db) [ ok (a, db') ↦ f a db' | err e ↦ err e ]

abbrev pub ◌>>◌ : {B : Type 0} → Tx (Unit {0}) → Tx B → Tx B
m >> k = m >>= λ _. k

abbrev pub pure : {A : Type 0} → A → Tx A
pure a db = ok (a, db)

abbrev pub fail : {A : Type 0} → Error → Tx A
fail e db = err e

-- A row that a query did or did not find; no row is sql.ErrNoRows or the error that the caller makes
-- of it.
abbrev pub row_or : {A : Type 0} → Error → Option A → Tx A
row_or e none db = err e
row_or e (some a) db = ok (a, db)

-- What a client sees after the call: on an error the database of before.
abbrev pub committed : {A : Type 0} → Db → Result (A × Db) → Db
committed db (ok (a, db')) = db'
committed db (err e) = db

-- now() of the transaction and clock_timestamp() of its statements, in microseconds.
pub record Clock : Type 0 where
  pub now : ℕ
  pub clock : ℕ

abbrev pub second : ℕ
second = 1000000

abbrev pub empty_db : Db
empty_db = record {
  users = [];
  gpu_resources = [];
  gpu_work = [];
  gpu_work_events = [];
  generation_jobs = [];
  next_job_id = 1;
  generation_job_transitions = [];
  generation_job_revision = 1;
  generation_requests = [];
  generation_batches = [];
  next_batch_id = 1;
  mining_leases = [];
  daily_usage = [];
  notifications = [];
  notification_preferences = [];
  notification_revisions = [];
  lora_dataset_snapshots = [];
  lora_training_jobs = [];
  next_training_id = 1;
  next_user_id = 1;
  invites = [];
  next_invite_id = 1;
  invite_uses = [];
  miners = [];
  next_miner_id = 1;
}

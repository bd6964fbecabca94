-- ===== src/Domain/Rows.antt =====
-- The columns of the smaller tables that the repositories write: requests, batches, mining leases,
-- daily usage, notifications and their preferences and revisions (internal/domain, migrations.go).
use personal_cloud_ai_servic.Prelude.{ℕ, Bool, Option, String, List}

pub record GenerationRequest : Type 0 where
  pub user_id : ℕ
  pub request_id : String
  pub correlation_id : String
  pub job_id : Option ℕ
  pub prompt_id : Option String

pub data BatchMode : Type 0 where
  seeds parameter : BatchMode

pub record Batch : Type 0 where
  pub id : ℕ
  pub public_id : String
  pub user_id : Option ℕ
  pub username_snapshot : String
  pub request_id : String
  pub parent_batch_id : Option ℕ
  pub source_job_id : Option ℕ
  pub winner_job_id : Option ℕ
  pub template_id : String
  pub workflow_id : String
  pub model_name : String
  pub experiment_mode : BatchMode
  pub parameter_name : String
  pub parameter_values : List String
  pub seed_locked : Bool
  pub total_count : ℕ
  pub max_parallel : ℕ
  pub cancellation_requested_at : Option ℕ
  pub created_at : ℕ
  pub updated_at : ℕ

pub record MiningLease : Type 0 where
  pub id : String
  pub correlation_id : String
  pub prompt_id : Option String
  pub generation_job_id : Option ℕ
  pub lora_training_job_id : Option ℕ
  pub user_id : ℕ
  pub miner_id : ℕ
  pub script_path : String
  pub process_name : String
  pub resume_mining : Bool
  pub resume_ready : Bool
  pub created_at : ℕ

pub record DailyUsage : Type 0 where
  pub user_id : ℕ
  pub usage_date : ℕ
  pub used_count : ℕ
  pub video_used_count : ℕ

pub data NotificationKind : Type 0 where
  generation_completed generation_failed : NotificationKind

pub record Notification : Type 0 where
  pub user_id : ℕ
  pub generation_job_id : ℕ
  pub kind : NotificationKind
  pub title : String
  pub message : String

pub record NotificationPreferences : Type 0 where
  pub user_id : ℕ
  pub in_app_enabled : Bool
  pub success_enabled : Bool

pub record NotificationRevision : Type 0 where
  pub user_id : ℕ
  pub revision : ℕ

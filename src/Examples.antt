-- ===== src/Examples.antt =====
-- Concrete rows and clocks for the tests of the models of internal/store and internal/security.
pub mod OfGpu
pub mod OfJobs
pub mod OfService
pub mod OfLora
pub mod OfAccounts
pub mod OfMiners
pub mod OfBatches
use personal_cloud_ai_servic.Prelude.{ℕ, String, false, some, Bool, true, none, ◌∷◌, []}
use personal_cloud_ai_servic.Domain.Gpu.{GpuWork, GpuResource, idle, generation, waiting, reserved}
use personal_cloud_ai_servic.Domain.Job.{Job, waiting_for_resources}
use personal_cloud_ai_servic.Domain.User.{User}
use personal_cloud_ai_servic.Db.{Clock, Db, Result, empty_db, ok, err}

abbrev pub noon : Clock
noon = record { now = 5000000; clock = 5000000 }

abbrev pub later : Clock
later = record { now = 9000000; clock = 9000000 }

abbrev pub owner : User
owner = record {
  id = 7;
  username = "ann";
  email = none;
  password_hash = "h";
  role = "user";
  disabled = false;
  can_use_comfyui = false;
  can_use_openwebui = false;
  can_use_quick_generation = true;
  can_generate_text_to_image = true;
  can_generate_image_to_image = true;
  can_generate_video = false;
  can_use_advanced_generation_settings = true;
  can_train_image_lora = false;
  can_manage_mining = false;
  pause_mining_for_quick_generation = false;
  queue_priority = false;
  generation_daily_limit = 2;
  generation_total_limit = 10;
  generation_total_used = 4;
  video_generation_daily_limit = 1;
  video_generation_total_limit = 1;
  video_generation_total_used = 1;
  max_video_generation_quality = 1440;
  failed_login_count = 0;
  locked_until = none;
  account_expires_at = none;
  created_at = 0;
  last_login_at = none;
}

abbrev pub waiting_job : Job
waiting_job = record {
  id = 1;
  public_id = "public_id_0000001";
  correlation_id = "public_id_0000001";
  user_id = some 7;
  username_snapshot = "ann";
  request_id = "r1";
  parent_job_id = none;
  prompt_id = none;
  template_id = "text-to-image";
  workflow_id = "w";
  model_name = "m";
  seed = 3;
  payload_cipher = 1 ∷ [];
  state = waiting_for_resources;
  status_message = "";
  error_code = "";
  error_message = "";
  attempt = 1;
  dependencies = [];
  input_count = 0;
  state_changed_at = 1000000;
  started_at = none;
  finished_at = none;
  resources_released_at = none;
  quota_reserved_on = none;
  quota_committed_at = none;
  cancellation_requested_at = none;
  cancellation_confirmed_at = none;
  created_at = 1000000;
  updated_at = 1000000;
  batch_id = none;
  batch_position = 0;
  experiment_value = "";
  dispatch_queued_at = some 1000000;
  dispatch_token = "t";
  dispatch_until = some 60000000;
  submission_started_at = none;
  submission_rejected_at = none;
  dispatch_closed_at = none;
}

-- A database with one owner and one job.
abbrev pub job_db : Job → Db
job_db job = record empty_db { users = owner ∷ []; generation_jobs = job ∷ []; next_job_id = 2 }

abbrev pub gpu_item : GpuWork
gpu_item = record {
  id = "w1";
  resource_id = "gpu";
  kind = generation;
  job_key = "k";
  user_id = some 7;
  priority = false;
  state = waiting;
  phase = reserved;
  lease_token = "";
  lease_until = none;
  external_id = "";
  cancellation_requested = false;
  ready_until = 90000000;
  queued_at = 1000000;
  created_at = 1000000;
  updated_at = 1000000;
  held_at = none;
  released_at = none;
}

abbrev pub idle_gpu : GpuResource
idle_gpu = record {
  id = "gpu";
  revision = 3;
  observation = idle;
  message = "";
  observed_at = 4000000;
  valid_until = 90000000;
}

-- A database with one idle GPU and one waiting work item.
abbrev pub gpu_db : Db
gpu_db = record empty_db {
  users = owner ∷ [];
  gpu_resources = idle_gpu ∷ [];
  gpu_work = gpu_item ∷ [];
}

abbrev pub minute_lease : ℕ
minute_lease = 60000000000

-- The order of ids is the database's; the tests have one item.
abbrev pub no_order : String → String → Bool
no_order a b = false

abbrev pub value_or : {A : Type 0} → A → Result (A × Db) → A
value_or a (ok (b, db)) = b
value_or a (err e) = a

-- ===== src/Domain/Training.antt =====
-- internal/domain/lora_training.go: an image LoRA training, its states, and the dataset snapshot
-- that it was made from. A number that can be negative or a fraction is the bit pattern of its
-- column: 64 bits of a bigint or of a double.
use personal_cloud_ai_servic.Prelude.{ℕ, Bool, true, false, Option, String, not, ◌&&◌}

-- The last one stands for every text that is no state.
pub data TrainingState : Type 0 where
  queued uploading preparing caching running installing completed failed cancelled unknown :
      TrainingState

unfoldable pub valid : TrainingState → Bool
valid unknown = false
valid _ = true

unfoldable pub terminal : TrainingState → Bool
terminal completed = true
terminal failed = true
terminal cancelled = true
terminal _ = false

unfoldable pub cancellable : TrainingState → Bool
unfolding valid terminal
cancellable s = valid s && not (terminal s)

-- state IN ('uploading','preparing','caching','running','installing').
unfoldable pub dispatched : TrainingState → Bool
dispatched uploading = true
dispatched preparing = true
dispatched caching = true
dispatched running = true
dispatched installing = true
dispatched _ = false

unfoldable pub in_queue : TrainingState → Bool
in_queue queued = true
in_queue _ = false

unfoldable pub is_uploading : TrainingState → Bool
is_uploading uploading = true
is_uploading _ = false

-- state IN ('preparing','caching','running','installing').
unfoldable pub started : TrainingState → Bool
started preparing = true
started caching = true
started running = true
started installing = true
started _ = false

pub record Training : Type 0 where
  pub id : ℕ
  pub public_id : String
  pub user_id : Option ℕ
  pub username_snapshot : String
  pub request_id : String
  pub profile_id : String
  pub family : String
  pub base_model : String
  pub name : String
  pub output_name : String
  pub trigger_word : String
  pub concept_type : String
  pub preset : String
  pub resolution : ℕ
  pub max_train_steps : ℕ
  pub network_dim : ℕ
  pub network_alpha : ℕ
  pub learning_rate : ℕ
  pub seed : ℕ
  pub sample_count : ℕ
  pub dataset_bytes : ℕ
  pub dataset_path : String
  pub dataset_snapshot_id : Option String
  pub dataset_snapshot_hash : String
  pub state : TrainingState
  pub stage : String
  pub progress : ℕ
  pub message : String
  pub error_message : String
  pub agent_job_id : String
  pub agent_submission_started_at : Option ℕ
  pub artifact_name : String
  pub artifact_bytes : ℕ
  pub cancellation_requested_at : Option ℕ
  pub started_at : Option ℕ
  pub finished_at : Option ℕ
  pub created_at : ℕ
  pub updated_at : ℕ

pub record CreateTrainingParams : Type 0 where
  pub public_id : String
  pub user_id : ℕ
  pub username_snapshot : String
  pub request_id : String
  pub profile_id : String
  pub family : String
  pub base_model : String
  pub name : String
  pub output_name : String
  pub trigger_word : String
  pub concept_type : String
  pub preset : String
  pub resolution : ℕ
  pub max_train_steps : ℕ
  pub network_dim : ℕ
  pub network_alpha : ℕ
  pub learning_rate : ℕ
  pub seed : ℕ
  pub sample_count : ℕ
  pub dataset_bytes : ℕ
  pub dataset_path : String
  pub dataset_snapshot_id : String
  pub dataset_snapshot_hash : String

pub record DatasetSnapshot : Type 0 where
  pub id : String
  pub user_id : ℕ
  pub manifest_hash : String

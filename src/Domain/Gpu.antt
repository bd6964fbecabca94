-- ===== src/Domain/Gpu.antt =====
-- internal/domain/gpu_work.go and the columns of gpu_resources, gpu_work and gpu_work_events.
-- A Go string type with named constants has one more constructor for any other text.
-- Times are microseconds, durations nanoseconds.
use personal_cloud_ai_servic.Prelude.{ℕ, Bool, true, false, Option, String}

pub data WorkKind : Type 0 where
  generation lora_training lora_caption prompt_assistant : WorkKind
  other_kind : String → WorkKind

unfoldable pub kind_valid : WorkKind → Bool
kind_valid (other_kind s) = false
kind_valid _ = true

-- The text that the kind column holds.
unfoldable pub kind_text : WorkKind → String
kind_text generation = "generation"
kind_text lora_training = "lora_training"
kind_text lora_caption = "lora_caption"
kind_text prompt_assistant = "prompt_assistant"
kind_text (other_kind s) = s

pub data WorkState : Type 0 where
  waiting held uncertain released cancelled : WorkState

pub data Phase : Type 0 where
  reserved dispatching running : Phase
  other_phase : String → Phase

pub data Observation : Type 0 where
  idle busy unknown : Observation
  other_observation : String → Observation

pub data EvidenceCode : Type 0 where
  executor_terminal executor_idle not_dispatched request_completed : EvidenceCode
  other_code : String → EvidenceCode

-- GPUPriorityHeadStart, GPUIntentLifetime and GPUMaxLeaseDuration, in seconds.
abbrev pub priority_head_start : ℕ
priority_head_start = 600

abbrev pub intent_lifetime : ℕ
intent_lifetime = 300

abbrev pub max_lease_duration : ℕ
max_lease_duration = 300

pub record GpuResource : Type 0 where
  pub id : String
  pub revision : ℕ
  pub observation : Observation
  pub message : String
  pub observed_at : ℕ
  pub valid_until : ℕ

pub record GpuWork : Type 0 where
  pub id : String
  pub resource_id : String
  pub kind : WorkKind
  pub job_key : String
  pub user_id : Option ℕ
  pub priority : Bool
  pub state : WorkState
  pub phase : Phase
  pub lease_token : String
  pub lease_until : Option ℕ
  pub external_id : String
  pub cancellation_requested : Bool
  pub ready_until : ℕ
  pub queued_at : ℕ
  pub created_at : ℕ
  pub updated_at : ℕ
  pub held_at : Option ℕ
  pub released_at : Option ℕ

pub record GpuEvent : Type 0 where
  pub work_id : String
  pub state : WorkState
  pub code : String
  pub detail : String

pub record GpuWorkRequest : Type 0 where
  pub id : String
  pub resource_id : String
  pub kind : WorkKind
  pub job_key : String
  pub user_id : ℕ
  pub priority : Bool

pub data WaitCode : Type 0 where
  no_wait gpu_in_use executor_unconfirmed not_waiting intent_expired executor_unavailable
        external_work owner_unavailable waiting_turn :
      WaitCode

pub record GpuAdmission : Type 0 where
  pub work : GpuWork
  pub granted : Bool
  pub wait_code : WaitCode
  pub position : ℕ
  pub resource_revision : ℕ

pub record GpuReleaseEvidence : Type 0 where
  pub code : EvidenceCode
  pub detail : String
  pub resource_revision : ℕ

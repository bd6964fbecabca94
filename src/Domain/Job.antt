-- ===== src/Domain/Job.antt =====
-- internal/domain/generation_job.go: the states of a generation job and the row of generation_jobs.
-- A text that is none of the twelve constants is `other_state`. Times are microseconds.
pub mod Graph
use personal_cloud_ai_servic.Prelude.{
  ℕ, Bool, true, false, Option, List, [], ◌∷◌, String, str_eq, any, ◌==◌, if◌then◌else◌,
}

pub data JobState : Type 0 where
  draft preparing uploading waiting_for_resources queued running postprocessing archiving completed
        failed cancelled expired :
      JobState
  other_state : String → JobState

-- The text that the state column holds.
unfoldable pub state_text : JobState → String
state_text draft = "draft"
state_text preparing = "preparing"
state_text uploading = "uploading"
state_text waiting_for_resources = "waiting_for_resources"
state_text queued = "queued"
state_text running = "running"
state_text postprocessing = "postprocessing"
state_text archiving = "archiving"
state_text completed = "completed"
state_text failed = "failed"
state_text cancelled = "cancelled"
state_text expired = "expired"
state_text (other_state s) = s

unfoldable pub valid : JobState → Bool
valid (other_state s) = false
valid _ = true

unfoldable pub terminal : JobState → Bool
terminal completed = true
terminal failed = true
terminal cancelled = true
terminal expired = true
terminal _ = false

unfoldable pub cancellable : JobState → Bool
cancellable draft = true
cancellable preparing = true
cancellable uploading = true
cancellable waiting_for_resources = true
cancellable queued = true
cancellable running = true
cancellable _ = false

-- The entry of generationJobTransitions; a state with no entry has none to go to.
unfoldable pub job_transitions : JobState → List JobState
job_transitions draft = preparing ∷ failed ∷ cancelled ∷ expired ∷ []
job_transitions preparing = uploading ∷ waiting_for_resources ∷ failed ∷ cancelled ∷ expired ∷ []
job_transitions uploading = waiting_for_resources ∷ failed ∷ cancelled ∷ expired ∷ []
job_transitions waiting_for_resources = queued ∷ failed ∷ cancelled ∷ expired ∷ []
job_transitions queued = running ∷ postprocessing ∷ failed ∷ cancelled ∷ expired ∷ []
job_transitions running = postprocessing ∷ failed ∷ cancelled ∷ expired ∷ []
job_transitions postprocessing = archiving ∷ failed ∷ expired ∷ []
job_transitions archiving = completed ∷ failed ∷ expired ∷ []
job_transitions _ = []

-- `==` on the named constants.
abbrev pub state_code : JobState → ℕ
state_code draft = 0
state_code preparing = 1
state_code uploading = 2
state_code waiting_for_resources = 3
state_code queued = 4
state_code running = 5
state_code postprocessing = 6
state_code archiving = 7
state_code completed = 8
state_code failed = 9
state_code cancelled = 10
state_code expired = 11
state_code (other_state s) = 12

abbrev pub state_eq : JobState → JobState → Bool
state_eq (other_state s) (other_state t) = str_eq s t
state_eq a b = state_code a == state_code b

-- CanTransitionGenerationJob.
unfoldable pub can_transition : JobState → JobState → Bool
unfolding valid any job_transitions
can_transition from to =
    if state_eq from to then valid from else any (state_eq to) (job_transitions from)

-- A row of generation_jobs. An int64 seed is its bit pattern, a BYTEA its bytes.
pub record Job : Type 0 where
  pub id : ℕ
  pub public_id : String
  pub correlation_id : String
  pub user_id : Option ℕ
  pub username_snapshot : String
  pub request_id : String
  pub parent_job_id : Option ℕ
  pub prompt_id : Option String
  pub template_id : String
  pub workflow_id : String
  pub model_name : String
  pub seed : ℕ
  pub payload_cipher : List ℕ
  pub state : JobState
  pub status_message : String
  pub error_code : String
  pub error_message : String
  pub attempt : ℕ
  pub dependencies : List String
  pub input_count : ℕ
  pub state_changed_at : ℕ
  pub started_at : Option ℕ
  pub finished_at : Option ℕ
  pub resources_released_at : Option ℕ
  pub quota_reserved_on : Option ℕ
  pub quota_committed_at : Option ℕ
  pub cancellation_requested_at : Option ℕ
  pub cancellation_confirmed_at : Option ℕ
  pub created_at : ℕ
  pub updated_at : ℕ
  pub batch_id : Option ℕ
  pub batch_position : ℕ
  pub experiment_value : String
  pub dispatch_queued_at : Option ℕ
  pub dispatch_token : String
  pub dispatch_until : Option ℕ
  pub submission_started_at : Option ℕ
  pub submission_rejected_at : Option ℕ
  pub dispatch_closed_at : Option ℕ

-- A row of generation_job_transitions; the first row of a job has no state before.
pub record JobTransition : Type 0 where
  pub job_id : ℕ
  pub correlation_id : String
  pub from_state : Option JobState
  pub to_state : JobState
  pub message : String
  pub error_code : String
  pub error_message : String
  pub attempt : ℕ
  pub duration_ms : ℕ

pub record CreateJobParams : Type 0 where
  pub public_id : String
  pub correlation_id : String
  pub user_id : ℕ
  pub username_snapshot : String
  pub request_id : String
  pub parent_job_id : Option ℕ

pub record PreparedJob : Type 0 where
  pub template_id : String
  pub workflow_id : String
  pub model_name : String
  pub seed : ℕ
  pub payload_cipher : List ℕ
  pub dependencies : List String
  pub input_count : ℕ

pub record TransitionParams : Type 0 where
  pub state : JobState
  pub message : String
  pub error_code : String
  pub error_message : String
  pub attempt : ℕ

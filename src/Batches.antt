-- ===== src/Batches.antt =====
-- internal/store/generation_batch.go: the parameters of a batch and their validation, the table
-- generation_batches, and the counts that a batch is shown with. The mode of a batch is one of the
-- two valid ones; a number that can be negative or too large comes as its bit pattern.
pub mod Create
pub mod Calls
pub mod Stored
pub mod Charged
pub mod Closed
pub mod Winner
use personal_cloud_ai_servic.Db.{Tx, ok, ◌>>=◌, row_or, no_rows}
use personal_cloud_ai_servic.Dispatch.{is_active_state}
use personal_cloud_ai_servic.Jobs.Create.{is_public_token}
use personal_cloud_ai_servic.Jobs.{owned_by}
use personal_cloud_ai_servic.Domain.Rows.{BatchMode, Batch, parameter, seeds}
use personal_cloud_ai_servic.Domain.Job.{
  PreparedJob, Job, state_eq, draft, completed, failed, cancelled, expired,
}
use personal_cloud_ai_servic.Prelude.{
  String, trim_space, ℕ, Bool, rune_count, count, find, Option, str_eq, not, List, ◌==◌, leb,
  length, true, ◌&&◌, ◌∷◌, ◌+◌, [],
}

pub record BatchChild : Type 0 where
  pub public_id : String
  pub correlation_id : String
  pub request_id : String
  pub parent_job_id : Option ℕ
  pub position : ℕ
  pub experiment_value : String
  pub prepared : PreparedJob

pub record CreateBatchParams : Type 0 where
  pub public_id : String
  pub user_id : ℕ
  pub username_snapshot : String
  pub request_id : String
  pub parent_batch_id : Option ℕ
  pub source_job_id : Option ℕ
  pub template_id : String
  pub workflow_id : String
  pub model_name : String
  pub mode : BatchMode
  pub parameter_name : String
  pub parameter_values : List String
  pub seed_locked : Bool
  pub max_parallel : ℕ
  pub jobs : List BatchChild

unfoldable pub blank : String → Bool
unfolding trim_space
blank s = str_eq (trim_space s) ""

abbrev is_prepared : PreparedJob → Bool
is_prepared p =
    not (length p.payload_cipher == 0) && not (blank p.template_id) && not (blank p.workflow_id)

-- The children stand at 1, 2, 3, …
unfoldable pub children_valid : ℕ → List BatchChild → Bool
unfolding blank
children_valid index [] = true
children_valid index (child ∷ rest) =
    not (blank child.public_id)
    && not (blank child.request_id)
    && (child.position == index + 1)
    && is_prepared child.prepared
    && children_valid (index + 1) rest

abbrev mode_valid : BatchMode → CreateBatchParams → Bool
mode_valid parameter p =
    not (blank p.parameter_name) && (length p.parameter_values == length p.jobs)
mode_valid seeds p = blank p.parameter_name && (length p.parameter_values == 0)

-- validateGenerationBatchParams.
unfoldable pub batch_params_valid : CreateBatchParams → Bool
unfolding blank children_valid
batch_params_valid p =
    not (p.user_id == 0)
    && not (blank p.public_id)
    && not (blank p.request_id)
    && leb 2 (length p.jobs)
    && leb (length p.jobs) 20
    && mode_valid p.mode p
    && leb 1 p.max_parallel
    && leb p.max_parallel 4
    && children_valid 0 p.jobs

unfoldable pub has_batch_id : ℕ → Batch → Bool
has_batch_id id b = b.id == id

unfoldable pub is_batch_request : ℕ → String → Batch → Bool
is_batch_request user request_id b = owned_by b.user_id user && str_eq b.request_id request_id

abbrev span : ℕ → ℕ → String → Bool
span low high s = leb low (rune_count s) && leb (rune_count s) high

-- The CHECKs of generation_batches that validation leaves open.
unfoldable pub batch_checks : Batch → Bool
unfolding rune_count is_public_token
batch_checks b =
    is_public_token b.public_id
    && span 0 128 b.username_snapshot
    && is_public_token b.request_id
    && span 1 256 b.template_id
    && span 1 256 b.workflow_id
    && span 1 512 b.model_name
    && span 0 64 b.parameter_name

pub record BatchCounts : Type 0 where
  pub draft_count : ℕ
  pub active_count : ℕ
  pub completed_count : ℕ
  pub failed_count : ℕ
  pub cancelled_count : ℕ
  pub expired_count : ℕ

unfoldable pub in_batch : ℕ → Job → Bool
in_batch id j = owned_by j.batch_id id

-- The counts over the jobs of the batch.
unfoldable pub batch_counts : ℕ → List Job → BatchCounts
unfolding count in_batch is_active_state
batch_counts id jobs = record {
  draft_count = count (λ j. in_batch id j && state_eq j.state draft) jobs;
  active_count = count (λ j. in_batch id j && is_active_state j.state) jobs;
  completed_count = count (λ j. in_batch id j && state_eq j.state completed) jobs;
  failed_count = count (λ j. in_batch id j && state_eq j.state failed) jobs;
  cancelled_count = count (λ j. in_batch id j && state_eq j.state cancelled) jobs;
  expired_count = count (λ j. in_batch id j && state_eq j.state expired) jobs;
}

-- The batch with its counts.
abbrev pub counted : Batch → Tx (Batch × BatchCounts)
counted b db = ok ((b, batch_counts b.id db.generation_jobs), db)

-- generationBatchByID.
unfoldable pub batch_by_id : ℕ → ℕ → Tx (Batch × BatchCounts)
unfolding find has_batch_id batch_counts
batch_by_id user id = do
  b ← λ db.
      row_or no_rows
        (find (λ b. has_batch_id id b && owned_by b.user_id user) db.generation_batches) db
  counted b

unfoldable pub is_own_batch : ℕ → String → Batch → Bool
is_own_batch user public_id b = owned_by b.user_id user && str_eq b.public_id public_id

-- GenerationBatchByPublicID.
unfoldable pub batch_by_public_id : ℕ → String → Tx (Batch × BatchCounts)
unfolding find is_own_batch batch_counts trim_space
batch_by_public_id user public_id = do
  b ← λ db.
      row_or no_rows (find (is_own_batch user (trim_space public_id)) db.generation_batches) db
  counted b

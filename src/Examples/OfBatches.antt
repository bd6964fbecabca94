-- ===== src/Examples/OfBatches.antt =====
-- The theorems on generation_batch.go at concrete calls.
use personal_cloud_ai_servic.Batches.Charged.{IsChargedBatch, create_charges_all}
use personal_cloud_ai_servic.Jobs.Claim.{is_key}
use personal_cloud_ai_servic.Jobs.Transition.{unique_strings}
use personal_cloud_ai_servic.Batches.Closed.{cancellation_stops}
use personal_cloud_ai_servic.Jobs.Create.{
  is_public_token, token_chars, is_token_char, insert_job, checks_pass, conflicts, parent_exists,
}
use personal_cloud_ai_servic.Batches.Winner.{chosen_job_completed}
use personal_cloud_ai_servic.Dispatch.{is_active_state, dispatchable}
use personal_cloud_ai_servic.Quota.{quota_kind, select_user, select_usage}
use personal_cloud_ai_servic.Jobs.{
  increment_revision, has_job_id, record_transition, increment_user_revision, bump_revision,
}
use personal_cloud_ai_servic.Examples.{waiting_job, owner, noon, later}
use personal_cloud_ai_servic.Prelude.{
  ◌∷◌, none, some, find, [], false, trim_space, update, count, ◌≡◌, keep, true, any, refl,
  rune_count, ◌&&◌,
}
use personal_cloud_ai_servic.Batches.Calls.{
  request_batch_cancellation, set_batch_winner, is_public_job, cancel_open_batch, store_winner,
  set_batch_cancelled, set_winner, told, set_told, stoppable, batch_jobs, in_place, put_in_place,
  place_before,
}
use personal_cloud_ai_servic.Domain.Rows.{Batch, seeds}
use personal_cloud_ai_servic.Batches.Create.{
  create_generation_batch, create_new_batch, own_parent_batch, own_source_job, charge_batch,
  store_batch, new_batch, insert_batch, insert_children, insert_one_child, new_child, insert_child,
  child_checks, insert_child_request, charge_runs, finish_batch,
}
use personal_cloud_ai_servic.Db.{Db, empty_db, committed}
use personal_cloud_ai_servic.Batches.{
  BatchChild, CreateBatchParams, batch_params_valid, blank, is_own_batch, children_valid,
  is_batch_request, has_batch_id, batch_by_id, in_batch, batch_counts, batch_checks,
}
use personal_cloud_ai_servic.Domain.Job.{PreparedJob, Job, completed, draft, state_eq}

abbrev prepared : PreparedJob
prepared = record {
  template_id = "text-to-image";
  workflow_id = "w";
  model_name = "m";
  seed = 3;
  payload_cipher = 1 ∷ [];
  dependencies = [];
  input_count = 0;
}

abbrev first_child : BatchChild
first_child = record {
  public_id = "batch-job-000001";
  correlation_id = "batch-job-000001";
  request_id = "batch-request-01";
  parent_job_id = none;
  position = 1;
  experiment_value = "";
  prepared = prepared;
}

abbrev second_child : BatchChild
second_child = record first_child {
  public_id = "batch-job-000002";
  correlation_id = "batch-job-000002";
  request_id = "batch-request-02";
  position = 2;
}

abbrev batch_params : CreateBatchParams
batch_params = record {
  public_id = "batch-0000000001";
  user_id = 7;
  username_snapshot = "ann";
  request_id = "batch-request-00";
  parent_batch_id = none;
  source_job_id = none;
  template_id = "text-to-image";
  workflow_id = "w";
  model_name = "m";
  mode = seeds;
  parameter_name = "";
  parameter_values = [];
  seed_locked = false;
  max_parallel = 1;
  jobs = first_child ∷ second_child ∷ [];
}

abbrev users_db : Db
users_db = record empty_db { users = owner ∷ [] }

abbrev made_db : Db
made_db = committed users_db (create_generation_batch noon 20000 batch_params users_db)

create_charges_all_example : IsChargedBatch 20000 7 2 (quota_kind "text-to-image") users_db made_db
unfolding create_generation_batch batch_params_valid blank trim_space children_valid find
    is_batch_request create_new_batch own_parent_batch own_source_job quota_kind charge_batch
    select_user select_usage store_batch new_batch insert_batch any batch_checks rune_count
    is_public_token token_chars is_token_char insert_children insert_one_child new_child
    unique_strings insert_child child_checks insert_job checks_pass conflicts parent_exists
    has_job_id record_transition insert_child_request is_key charge_runs update finish_batch
    increment_user_revision bump_revision increment_revision batch_by_id has_batch_id batch_counts
    count in_batch is_active_state
create_charges_all_example = create_charges_all noon 20000 batch_params users_db made_db refl

abbrev open_batch : Batch
open_batch = record {
  id = 1;
  public_id = "batch-0000000001";
  user_id = some 7;
  username_snapshot = "ann";
  request_id = "batch-request-00";
  parent_batch_id = none;
  source_job_id = none;
  winner_job_id = none;
  template_id = "text-to-image";
  workflow_id = "w";
  model_name = "m";
  experiment_mode = seeds;
  parameter_name = "";
  parameter_values = [];
  seed_locked = false;
  total_count = 2;
  max_parallel = 1;
  cancellation_requested_at = none;
  created_at = 0;
  updated_at = 0;
}

abbrev finished_job : Job
finished_job = record waiting_job { batch_id = some 1; batch_position = 1; state = completed }

abbrev draft_job : Job
draft_job = record waiting_job {
  id = 2;
  public_id = "public_id_0000002";
  request_id = "r2";
  batch_id = some 1;
  batch_position = 2;
  state = draft;
}

abbrev batch_db : Db
batch_db = record users_db {
  generation_jobs = finished_job ∷ draft_job ∷ [];
  next_job_id = 3;
  generation_batches = open_batch ∷ [];
  next_batch_id = 2;
}

abbrev stopped_db : Db
stopped_db = committed batch_db (request_batch_cancellation noon 7 "batch-0000000001" batch_db)

cancellation_stops_example :
    count (λ j. in_batch 1 j && dispatchable later 2 stopped_db j) stopped_db.generation_jobs ≡ 0
unfolding request_batch_cancellation find is_own_batch trim_space cancel_open_batch update
    has_batch_id set_batch_cancelled told set_told in_batch stoppable increment_revision batch_by_id
    batch_counts count is_active_state batch_jobs keep in_place put_in_place place_before
cancellation_stops_example =
    cancellation_stops noon later 7 2 "batch-0000000001" batch_db stopped_db refl

abbrev won_db : Db
won_db =
    committed batch_db (set_batch_winner noon 7 "batch-0000000001" "public_id_0000001" batch_db)

chosen_job_completed_example :
    (j : Job) × (find (is_public_job 7 (trim_space "public_id_0000001")) batch_db.generation_jobs
      ≡ some j)
    × (in_batch 1 j ≡ true)
    × (state_eq j.state completed ≡ true)
    × (some 1 ≡ some j.id)
unfolding set_batch_winner find is_own_batch is_public_job trim_space store_winner update
    has_batch_id set_winner increment_revision batch_by_id batch_counts count in_batch
    is_active_state
chosen_job_completed_example =
    chosen_job_completed noon 7 "batch-0000000001" "public_id_0000001" batch_db won_db refl

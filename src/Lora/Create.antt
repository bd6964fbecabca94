-- ===== src/Lora/Create.antt =====
-- CreateLoraTrainingJob and the reads of internal/store/lora_training.go.
use personal_cloud_ai_servic.Jobs.{owned_by}
use personal_cloud_ai_servic.Lora.{training_checks, has_public_id, live_of, has_training_id}
use personal_cloud_ai_servic.Db.{
  Clock, Tx, row_or, ◌>>◌, ok, no_rows, err, dataset_asset, constraint, training_already_active,
}
use personal_cloud_ai_servic.Prelude.{
  any, find, ℕ, String, Bool, if◌then◌else◌, str_eq, some, not, ◌&&◌, ◌==◌, none, ◌||◌, ◌∷◌, ◌+◌,
}
use personal_cloud_ai_servic.Domain.Training.{
  CreateTrainingParams, DatasetSnapshot, Training, queued,
}

-- The snapshot is the owner's, with the hash that the caller saw.
unfoldable pub is_snapshot : CreateTrainingParams → DatasetSnapshot → Bool
is_snapshot p s =
    str_eq s.id p.dataset_snapshot_id
    && (s.user_id == p.user_id)
    && str_eq s.manifest_hash p.dataset_snapshot_hash

unfoldable pub check_snapshot : CreateTrainingParams → Tx (Unit {0})
unfolding any is_snapshot
check_snapshot p db =
    if str_eq p.dataset_snapshot_id ""
    then (if str_eq p.dataset_snapshot_hash "" then ok (tt, db) else err dataset_asset)
    else if not (any (λ u. u.id == p.user_id) db.users)
    then err no_rows
    else if any (is_snapshot p) db.lora_dataset_snapshots
    then ok (tt, db)
    else err dataset_asset

-- The inserted row, with the defaults of the table.
unfoldable pub new_training : Clock → CreateTrainingParams → ℕ → Training
new_training c p id = record {
  id = id;
  public_id = p.public_id;
  user_id = some p.user_id;
  username_snapshot = p.username_snapshot;
  request_id = p.request_id;
  profile_id = p.profile_id;
  family = p.family;
  base_model = p.base_model;
  name = p.name;
  output_name = p.output_name;
  trigger_word = p.trigger_word;
  concept_type = p.concept_type;
  preset = p.preset;
  resolution = p.resolution;
  max_train_steps = p.max_train_steps;
  network_dim = p.network_dim;
  network_alpha = p.network_alpha;
  learning_rate = p.learning_rate;
  seed = p.seed;
  sample_count = p.sample_count;
  dataset_bytes = p.dataset_bytes;
  dataset_path = p.dataset_path;
  dataset_snapshot_id =
      if str_eq p.dataset_snapshot_id "" then none else some p.dataset_snapshot_id;
  dataset_snapshot_hash = p.dataset_snapshot_hash;
  state = queued;
  stage = "В очереди";
  progress = 0;
  message = "";
  error_message = "";
  agent_job_id = "";
  agent_submission_started_at = none;
  artifact_name = "";
  artifact_bytes = 0;
  cancellation_requested_at = none;
  started_at = none;
  finished_at = none;
  created_at = c.now;
  updated_at = c.now;
}

-- INSERT … RETURNING: the CHECKs, the unique public_id, the unique live training of a user, and the
-- owner as a foreign key.
unfoldable pub insert_training : Training → Tx Training
unfolding training_checks any has_public_id live_of
insert_training new db =
    if not (training_checks new) || any (has_public_id new.public_id) db.lora_training_jobs
    then err constraint
    else if any (live_of new.user_id) db.lora_training_jobs
    then err training_already_active
    else if not (any (λ u. owned_by new.user_id u.id) db.users)
    then err constraint
    else ok (
      new,
      record db {
        lora_training_jobs = new ∷ db.lora_training_jobs;
        next_training_id = db.next_training_id + 1;
      },
    )

unfoldable pub create_training : Clock → CreateTrainingParams → Tx Training
unfolding check_snapshot new_training insert_training
create_training c p = do
  check_snapshot p
  λ db. insert_training (new_training c p db.next_training_id) db

-- LoraTrainingJobByPublicID, where an administrator sees every owner's.
unfoldable pub is_visible : String → ℕ → Bool → Training → Bool
unfolding has_public_id
is_visible public_id user admin j = has_public_id public_id j && (admin || owned_by j.user_id user)

unfoldable pub training_by_public_id : String → ℕ → Bool → Tx Training
unfolding find is_visible
training_by_public_id public_id user admin db =
    row_or no_rows (find (is_visible public_id user admin) db.lora_training_jobs) db

unfoldable pub training_by_id : ℕ → Tx Training
unfolding find has_training_id
training_by_id id db = row_or no_rows (find (has_training_id id) db.lora_training_jobs) db

-- ===== src/Examples/OfLora.antt =====
-- The theorems on lora_training.go at concrete calls.
use personal_cloud_ai_servic.Lora.Once.{
  Unclaimable, submitted_once, cancelled_for_good, cancelled_stays_out,
}
use personal_cloud_ai_servic.Lora.Constrained.{IsConstrained}
use personal_cloud_ai_servic.Lora.Live.{
  claim_succeeds, second_training_refused, second_training_refused,
}
use personal_cloud_ai_servic.Jobs.Create.{is_token_char, token_chars, is_public_token}
use personal_cloud_ai_servic.Lora.{
  update_training, training_checks, update_trainings, has_training_id, recipe_checks,
  progress_checks, is_output_name, has_public_id, user_active_unique, live_of, live,
}
use personal_cloud_ai_servic.Lora.Steps.{
  goes_on, stops, creates, claims, recovers, updates_meet, update_meets, starts_none, starts,
  updates,
}
use personal_cloud_ai_servic.Lora.Kept.{steps-HasTrainingTable}
use personal_cloud_ai_servic.Domain.Job.{terminal, valid}
use personal_cloud_ai_servic.Lora.Handoff.{
  claim_next_training, begin_training_submission, request_training_cancellation, recover_trainings,
  set_claimed, claimable, may_begin, may_cancel, is_unsent, set_submitted, set_cancellation,
  requeue_training, TrainingUpdate, next_training, update_lora_training,
}
use personal_cloud_ai_servic.Examples.{owner, noon, later}
use personal_cloud_ai_servic.Lora.Table.{
  HasTrainingTable, is_dispatched, is_undated, insert-IsTrainingTable, IsTrainingTable, unissued,
}
use personal_cloud_ai_servic.Prelude.{
  count, some, ◌∷◌, ◌≡◌, arith, [], false, any, find, refl, update, rune_count, true, keep, ◌&&◌,
}
use personal_cloud_ai_servic.Lora.Create.{
  create_training, new_training, check_snapshot, is_visible, insert_training,
}
use personal_cloud_ai_servic.Db.{Db, empty_db, committed, ok, err, no_rows, Error}
use personal_cloud_ai_servic.Domain.Training.{
  CreateTrainingParams, Training, dispatched, in_queue, is_uploading, running,
}

abbrev params : CreateTrainingParams
params = record {
  public_id = "training-0000001";
  user_id = 7;
  username_snapshot = "anna";
  request_id = "request-00000001";
  profile_id = "krea2-lora";
  family = "krea2";
  base_model = "krea2.safetensors";
  name = "Cat";
  output_name = "cat_v1";
  trigger_word = "mycat";
  concept_type = "character";
  preset = "quick";
  resolution = 768;
  max_train_steps = 500;
  network_dim = 16;
  network_alpha = 8;
  learning_rate = 0x3f1a36e2eb1c432d;
  seed = 42;
  sample_count = 12;
  dataset_bytes = 4096;
  dataset_path = "/data/cat.zip";
  dataset_snapshot_id = "";
  dataset_snapshot_hash = "";
}

abbrev start_db : Db
start_db = record empty_db { users = owner ∷ [] }

abbrev queued_training : Training
unfolding new_training
queued_training = new_training noon params 1

abbrev uploading_training : Training
unfolding new_training set_claimed
uploading_training = set_claimed noon queued_training

abbrev training_db : Training → Db
training_db j = record start_db { lora_training_jobs = j ∷ []; next_training_id = 2 }

empty_table : IsTrainingTable [] 1
unfolding count
empty_table = record {
  unique_id = λ i. omega arith;
  issued = omega arith;
  one_active = omega arith;
  dated = omega arith;
}

abbrev created_db : Db
created_db = committed start_db (create_training noon params start_db)

abbrev running_update : TrainingUpdate
running_update = record {
  state = running;
  stage = "Обучение";
  progress = 30;
  message = "";
  error_message = "";
  artifact_name = "";
  artifact_bytes = 0;
}

abbrev claimed_db : Db
claimed_db = committed created_db (claim_next_training noon created_db)

steps-HasTrainingTable_example :
    HasTrainingTable (committed claimed_db (update_lora_training later 1 running_update claimed_db))
unfolding updates_meet update_meets starts_none starts find create_training insert_training any
    check_snapshot training_checks recipe_checks progress_checks rune_count is_output_name
    is_token_char token_chars is_public_token valid live_of live in_queue dispatched new_training
    set_claimed has_public_id claim_next_training next_training keep claimable update_training
    update_trainings update count has_training_id user_active_unique is_dispatched
steps-HasTrainingTable_example =
    steps-HasTrainingTable start_db
      (committed claimed_db (update_lora_training later 1 running_update claimed_db))
      (goes_on (goes_on (goes_on stops (creates noon params)) (claims noon))
        (updates later 1 running_update))
      refl empty_table

sole_table : HasTrainingTable (training_db queued_training)
unfolding new_training is_dispatched is_undated dispatched terminal
sole_table = insert-IsTrainingTable [] 1 queued_training refl refl refl empty_table

sole_uploading : HasTrainingTable (training_db uploading_training)
unfolding new_training is_undated terminal has_training_id unissued count is_dispatched dispatched
    set_claimed
sole_uploading = record {
  unique_id = λ i. ground arith;
  issued = omega arith;
  one_active = omega arith;
  dated = omega arith;
}

abbrev begun_db : Db
unfolding begin_training_submission
begun_db =
    committed (training_db uploading_training)
      (begin_training_submission noon 1 (training_db uploading_training))

submitted_once_example :
    (begin_training_submission later 1 (committed begun_db (recover_trainings later begun_db))
      ≡ err no_rows)
    × (requeue_training later 1 "busy" (committed begun_db (recover_trainings later begun_db))
        ≡ err no_rows)
    × Unclaimable 1 (committed begun_db (recover_trainings later begun_db))
unfolding begin_training_submission update_training update_trainings find update any count may_begin
    is_unsent is_uploading has_training_id training_checks recipe_checks progress_checks rune_count
    is_output_name is_token_char token_chars is_public_token valid user_active_unique live live_of
    in_queue dispatched set_submitted new_training set_claimed updates_meet update_meets
submitted_once_example =
    submitted_once noon later 1 "busy" (training_db uploading_training) begun_db
      (committed begun_db (recover_trainings later begun_db)) sole_uploading refl
      (goes_on stops (recovers later)) refl

abbrev off_db : Db
unfolding request_training_cancellation
off_db =
    committed (training_db queued_training)
      (request_training_cancellation noon "training-0000001" 7 false (training_db queued_training))

cancelled_for_good_example :
    (begin_training_submission later 1 (committed off_db (recover_trainings later off_db))
      ≡ err no_rows)
    × Unclaimable 1 (committed off_db (recover_trainings later off_db))
unfolding request_training_cancellation update_training update_trainings find update any count
    may_cancel is_visible has_public_id has_training_id training_checks recipe_checks
    progress_checks rune_count is_output_name is_token_char token_chars is_public_token valid
    user_active_unique live live_of in_queue dispatched set_cancellation new_training
cancelled_for_good_example =
    cancelled_for_good noon later "training-0000001" 7 false (training_db queued_training) off_db
      (committed off_db (recover_trainings later off_db)) sole_table refl
      (goes_on stops (recovers later))

cancelled_stays_out_example :
    count
      (λ k. has_training_id 1 k && in_queue k.state)
      (committed off_db (recover_trainings later off_db)).lora_training_jobs
    ≡ 0
unfolding request_training_cancellation update_training update_trainings find update any count
    may_cancel is_visible has_public_id has_training_id training_checks recipe_checks
    progress_checks rune_count is_output_name is_token_char token_chars is_public_token valid
    user_active_unique live live_of in_queue dispatched set_cancellation new_training updates_meet
    update_meets
cancelled_stays_out_example =
    cancelled_stays_out noon "training-0000001" 7 false (training_db queued_training) off_db
      (committed off_db (recover_trainings later off_db)) sole_table refl
      (goes_on stops (recovers later)) refl

sole-IsConstrained : IsConstrained (training_db queued_training).lora_training_jobs
unfolding any count training_checks recipe_checks progress_checks rune_count is_output_name
    is_token_char token_chars is_public_token valid user_active_unique live live_of in_queue
    dispatched new_training
sole-IsConstrained = record { checked = refl; one_each = refl }

claim_succeeds_example :
    (j : Training) × (db' : Db) × (claim_next_training later (training_db queued_training)
      ≡ ok (j, db'))
    × (is_uploading j.state ≡ true)
    × (find (has_training_id j.id) db'.lora_training_jobs ≡ some j)
unfolding any claimable in_queue dispatched new_training
claim_succeeds_example =
    claim_succeeds later (training_db queued_training) sole_table sole-IsConstrained refl

abbrev recovered_db : Db
unfolding recover_trainings
recovered_db =
    committed (training_db uploading_training)
      (recover_trainings later (training_db uploading_training))

abbrev second_params : CreateTrainingParams
second_params = record params { public_id = "training-0000002" }

second_training_refused_example :
    (e : Error) × (create_training later second_params created_db ≡ err e)
unfolding create_training insert_training any check_snapshot training_checks recipe_checks
    progress_checks rune_count is_output_name is_token_char token_chars is_public_token valid
    live_of live in_queue dispatched new_training set_claimed has_public_id
second_training_refused_example =
    second_training_refused noon later params second_params start_db created_db refl refl

-- ===== src/Lora/Steps.antt =====
-- Any sequence of statements of internal/store/lora_training.go, and what a sequence asks of
-- UpdateLoraTrainingJob, which has no guard of its own.
use personal_cloud_ai_servic.Lora.Table.{is_dispatched}
use personal_cloud_ai_servic.Lora.Handoff.{
  claim_next_training, requeue_training, attach_agent_job, begin_training_submission,
  set_handoff_message, TrainingUpdate, update_lora_training, request_training_cancellation,
  clear_dataset_path, recover_trainings, delete_terminal_training,
}
use personal_cloud_ai_servic.Db.Keeps.{After, After-bind, Keeps-pure}
use personal_cloud_ai_servic.Lora.Create.{create_training, insert_training}
use personal_cloud_ai_servic.Prelude.{
  Bool, update, Option, Bool-cases, find, ℕ, any, String, not, ◌||◌, some, inl, inr, none, true,
  false, ◌∷◌, ◌+◌, arith, ◌&&◌,
}
use personal_cloud_ai_servic.Domain.Training.{Training, CreateTrainingParams, in_queue, dispatched}
use personal_cloud_ai_servic.Lora.{
  update_trainings, update_training, training_checks, user_active_unique, has_training_id,
}
use personal_cloud_ai_servic.Db.{Db, Clock, committed, row_or, no_rows, ◌>>=◌, pure}

pub data TrainingStep : Db → Db → Type 0 where
  creates :
      {db : Db} (c : Clock) (p : CreateTrainingParams)
      → TrainingStep db (committed db (create_training c p db))
  claims : {db : Db} (c : Clock) → TrainingStep db (committed db (claim_next_training c db))
  requeues :
      {db : Db} (c : Clock) (id : ℕ) (message : String)
      → TrainingStep db (committed db (requeue_training c id message db))
  attaches :
      {db : Db} (c : Clock) (id : ℕ) (agent_job stage message : String) (progress : ℕ)
      → TrainingStep db (committed db (attach_agent_job c id agent_job stage message progress db))
  begins :
      {db : Db} (c : Clock) (id : ℕ)
      → TrainingStep db (committed db (begin_training_submission c id db))
  messages :
      {db : Db} (c : Clock) (id : ℕ) (message : String)
      → TrainingStep db (committed db (set_handoff_message c id message db))
  updates :
      {db : Db} (c : Clock) (id : ℕ) (u : TrainingUpdate)
      → TrainingStep db (committed db (update_lora_training c id u db))
  cancels :
      {db : Db} (c : Clock) (public_id : String) (user : ℕ) (admin : Bool)
      → TrainingStep db (committed db (request_training_cancellation c public_id user admin db))
  clears :
      {db : Db} (c : Clock) (id : ℕ) → TrainingStep db (committed db (clear_dataset_path c id db))
  recovers : {db : Db} (c : Clock) → TrainingStep db (committed db (recover_trainings c db))
  deletes : {db : Db} (id : ℕ) → TrainingStep db (committed db (delete_terminal_training id db))

pub data TrainingSteps : Db → Db → Type 0 where
  stops : {db : Db} → TrainingSteps db db
  goes_on :
      {db db' db'' : Db} → TrainingSteps db db' → TrainingStep db' db'' → TrainingSteps db db''

-- Whether every UpdateLoraTrainingJob of a sequence meets a test on the database that it finds.
unfoldable pub update_meets :
    (Db → ℕ → TrainingUpdate → Bool) → {db db' : Db} → TrainingStep db db' → Bool
update_meets test (creates c p) = true
update_meets test (claims c) = true
update_meets test (requeues c id message) = true
update_meets test (attaches c id agent_job stage message progress) = true
update_meets test (begins c id) = true
update_meets test (messages c id message) = true
update_meets test {db} (updates c id u) = test db id u
update_meets test (cancels c public_id user admin) = true
update_meets test (clears c id) = true
update_meets test (recovers c) = true
update_meets test (deletes id) = true

unfoldable pub updates_meet :
    (Db → ℕ → TrainingUpdate → Bool) → {db db' : Db} → TrainingSteps db db' → Bool
unfolding update_meets
updates_meet test stops = true
updates_meet test (goes_on steps step) = updates_meet test steps && update_meets test step

-- The update does not put a training back in the queue.
unfoldable pub queues_none : Db → ℕ → TrainingUpdate → Bool
unfolding in_queue
queues_none db id u = not (in_queue u.state)

unfoldable pub starts : TrainingUpdate → Option Training → Bool
unfolding dispatched is_dispatched
starts u none = false
starts u (some j) = dispatched u.state && not (is_dispatched j)

-- The update does not give the agent a training that was not with it.
unfoldable pub starts_none : Db → ℕ → TrainingUpdate → Bool
unfolding find has_training_id starts
starts_none db id u = not (starts u (find (has_training_id id) db.lora_training_jobs))

-- What an UPDATE leaves, where the constraints hold or not.
module _ (P : Db → Type 0) where
  pub updated-After :
      (q : Training → Bool) (f : Training → Training) (db : Db)
      → P (record db { lora_training_jobs = update q f db.lora_training_jobs })
      → After P (update_trainings q f db)
  unfolding update_trainings
  updated-After q f db h =
      let rows = update q f db.lora_training_jobs in
      elim (Bool-cases
        (any (λ j. not (training_checks j)) rows || not (user_active_unique rows rows))) [
          | inl bad ↦ rw bad tt
          | inr good ↦ rw good h
        ]

  found-After :
      (q : Training → Bool) (f : Training → Training) (o : Option Training) (db : Db)
      → P (record db { lora_training_jobs = update q f db.lora_training_jobs })
      → After P ((row_or no_rows o >>= λ j. update_trainings q f >>= λ _. pure (f j)) db)
  found-After q f none db h = tt
  found-After q f (some j) db h =
      After-bind (update_trainings q f db) (λ _. pure (f j)) (updated-After q f db h)
        (λ _. Keeps-pure (f j))

  pub returned-After :
      (q : Training → Bool) (f : Training → Training) (db : Db)
      → P (record db { lora_training_jobs = update q f db.lora_training_jobs })
      → After P (update_training q f db)
  unfolding update_training
  returned-After q f db h = found-After q f (find q db.lora_training_jobs) db h

  pub inserted-After :
      (new : Training) (db : Db)
      → P (record db {
        lora_training_jobs = new ∷ db.lora_training_jobs;
        next_training_id = db.next_training_id + 1;
      })
      → After P (insert_training new db)
  unfolding insert_training
  inserted-After new db h = ground (arith, h)

-- ===== src/Lora/Lasting.antt =====
-- What never comes back to a training under an id, over the statements of
-- internal/store/lora_training.go.
use personal_cloud_ai_servic.Db.Keeps.{
  After, Ends-read, After-bind, after-committed, Keeps-if, Keeps-pure, Keeps-fail,
}
use personal_cloud_ai_servic.Lora.Steps.{
  TrainingSteps, goes_on, updated-After, returned-After, TrainingStep, creates, claims, requeues,
  stops, attaches, begins, messages, updates, cancels, clears, recovers, deletes, inserted-After,
  update_meets, updates_meet,
}
use personal_cloud_ai_servic.Lora.{has_training_id, update_trainings, update_training}
use personal_cloud_ai_servic.Lora.Create.{
  new_training, insert_training, create_training, check_snapshot,
}
use personal_cloud_ai_servic.Lora.Handoff.{
  claim_next_training, attach_agent_job, update_lora_training, requeue_training,
  begin_training_submission, set_claimed, TrainingUpdate, set_handoff_message, is_unsent,
  request_training_cancellation, set_requeued, attachable, clear_dataset_path, set_attached,
  next_training, recover_trainings, may_begin, delete_terminal_training, set_submitted, set_message,
  set_updated, set_cancellation, clear_path, requeue_cancelled, in_handoff, may_cancel,
  recover_queued, recover_cancelled, is_finished,
}
use personal_cloud_ai_servic.Db.{Db, Clock, committed, no_rows, pure, fail}
use personal_cloud_ai_servic.Domain.Training.{Training, CreateTrainingParams, valid}
use personal_cloud_ai_servic.Prelude.{
  ℕ, Bool, ◌≡◌, true, count, ◌≤◌, update, String, ◌<◌, arith, count-update_le, false, Bool-cases,
  if◌then◌else◌, not, inr, ◌==◌, inl, ◌&&◌, count-keep_le, refl,
}

-- A fact on the training with the id that no statement brings about, of the updates those that pass a
-- test.
pub record IsLasting (test : Db → ℕ → TrainingUpdate → Bool) (i : ℕ) (bad : Training → Bool)
    : Type 0 where
  pub own : (j : Training) → bad j ≡ true → has_training_id i j ≡ true
  pub claims : (c : Clock) (j : Training) → bad (set_claimed c j) ≡ true → bad j ≡ true
  pub requeues :
      (c : Clock) (m n : String) (j : Training)
      → is_unsent j ≡ true
      → bad (set_requeued c m n j) ≡ true
      → bad j ≡ true
  pub attaches :
      (c : Clock) (id : ℕ) (agent_job stage m : String) (n : ℕ) (j : Training)
      → attachable id agent_job j ≡ true
      → bad (set_attached c agent_job stage m n j) ≡ true
      → bad j ≡ true
  pub submits :
      (c : Clock) (id : ℕ) (j : Training)
      → may_begin id j ≡ true
      → bad (set_submitted c j) ≡ true
      → bad j ≡ true
  pub messages :
      (c : Clock) (m : String) (j : Training) → bad (set_message c m j) ≡ true → bad j ≡ true
  pub updates :
      (c : Clock) (db : Db) (id : ℕ) (u : TrainingUpdate) (j : Training)
      → test db id u ≡ true
      → bad (set_updated c u j) ≡ true
      → bad j ≡ true
  pub cancels : (c : Clock) (j : Training) → bad (set_cancellation c j) ≡ true → bad j ≡ true
  pub clears : (c : Clock) (j : Training) → bad (clear_path c j) ≡ true → bad j ≡ true

-- No training has the fact, and the id was issued.
pub record IsBarred (i : ℕ) (bad : Training → Bool) (db : Db) : Type 0 where
  pub absent : count bad db.lora_training_jobs ≤ 0
  pub below : i < db.next_training_id

module _ (i : ℕ) (bad : Training → Bool) where
  rows-IsBarred :
      (q : Training → Bool) (f : Training → Training) (db : Db)
      → ((j : Training) → q j ≡ true → bad (f j) ≡ true → bad j ≡ true)
      → IsBarred i bad db
      → IsBarred i bad (record db { lora_training_jobs = update q f db.lora_training_jobs })
  rows-IsBarred q f db keeps h = record {
    absent = omega (arith, count-update_le bad q f db.lora_training_jobs keeps, h.absent);
    below = h.below;
  }

  updated-IsBarred :
      (q : Training → Bool) (f : Training → Training) (db : Db)
      → ((j : Training) → q j ≡ true → bad (f j) ≡ true → bad j ≡ true)
      → IsBarred i bad db
      → IsBarred i bad (committed db (update_trainings q f db))
  updated-IsBarred q f db keeps h =
      after-committed (IsBarred i bad) db (update_trainings q f db) h
        (updated-After (IsBarred i bad) q f db (rows-IsBarred q f db keeps h))

  returned-IsBarred :
      (q : Training → Bool) (f : Training → Training) (db : Db)
      → ((j : Training) → q j ≡ true → bad (f j) ≡ true → bad j ≡ true)
      → IsBarred i bad db
      → IsBarred i bad (committed db (update_training q f db))
  returned-IsBarred q f db keeps h =
      after-committed (IsBarred i bad) db (update_training q f db) h
        (returned-After (IsBarred i bad) q f db (rows-IsBarred q f db keeps h))

  module _ (test : Db → ℕ → TrainingUpdate → Bool) (lasting : IsLasting test i bad) where
    claim-Barred :
        (c : Clock) (db : Db)
        → IsBarred i bad db
        → After (IsBarred i bad) (claim_next_training c db)
    unfolding claim_next_training
    claim-Barred c db h =
        Ends-read (λ _ db'. IsBarred i bad db')
          (λ job. update_training (has_training_id job.id) (set_claimed c)) no_rows next_training db
          (λ j e.
            returned-After (IsBarred i bad) (has_training_id j.id) (set_claimed c) db (
              rows-IsBarred (has_training_id j.id) (set_claimed c) db (λ k _. lasting.claims c k)
                h))

    attach-Barred :
        (c : Clock) (id : ℕ) (agent_job stage m : String) (n : ℕ) (db : Db)
        → IsBarred i bad db
        → After (IsBarred i bad) (attach_agent_job c id agent_job stage m n db)
    unfolding attach_agent_job
    attach-Barred c id agent_job stage m n db h =
        After-bind
          (update_trainings (attachable id agent_job) (set_attached c agent_job stage m n) db)
          (λ n. if n == 1 then pure tt else fail no_rows)
          (updated-After (IsBarred i bad) (attachable id agent_job)
            (set_attached c agent_job stage m n) db
            (rows-IsBarred (attachable id agent_job) (set_attached c agent_job stage m n) db
              (lasting.attaches c id agent_job stage m n) h))
          (λ n. Keeps-if (n == 1) (pure tt) (fail no_rows) (Keeps-pure tt) (Keeps-fail no_rows))

    fresh :
        (c : Clock) (p : CreateTrainingParams) (n : ℕ) → i < n → bad (new_training c p n) ≡ false
    unfolding new_training has_training_id
    fresh c p n later = elim (Bool-cases (bad (new_training c p n))) [
      | inr e ↦ e
      | inl e ↦ let same = lasting.own (new_training c p n) e in absurd (ground arith)
    ]

    insert-Barred :
        (c : Clock) (p : CreateTrainingParams) (db : Db)
        → IsBarred i bad db
        → After (IsBarred i bad) (insert_training (new_training c p db.next_training_id) db)
    unfolding count
    insert-Barred c p db h =
        let new = new_training c p db.next_training_id in
        inserted-After (IsBarred i bad) new db (record {
          absent = ground (arith, fresh c p db.next_training_id h.below, h.absent);
          below = omega (arith, h.below);
        })

    create-Barred :
        (c : Clock) (p : CreateTrainingParams) (db : Db)
        → IsBarred i bad db
        → After (IsBarred i bad) (create_training c p db)
    unfolding create_training check_snapshot
    create-Barred c p db h =
        After-bind (check_snapshot p db)
          (λ _ db'. insert_training (new_training c p db'.next_training_id) db') (ground arith)
          (λ _. record { at = insert-Barred c p })

    update-Barred :
        (c : Clock) (id : ℕ) (u : TrainingUpdate) (db : Db)
        → test db id u ≡ true
        → IsBarred i bad db
        → After (IsBarred i bad) (update_lora_training c id u db)
    unfolding update_lora_training
    update-Barred c id u db onward h = elim (Bool-cases (not (valid u.state))) [
      | inl e ↦ rw e tt
      | inr e ↦ rw e (
          updated-After (IsBarred i bad) (has_training_id id) (set_updated c u) db (
            rows-IsBarred (has_training_id id) (set_updated c u) db
              (λ j _. lasting.updates c db id u j onward) h))
    ]

    step-IsBarred :
        {db db' : Db} (step : TrainingStep db db')
        → update_meets test step ≡ true
        → IsBarred i bad db
        → IsBarred i bad db'
    unfolding update_meets requeue_training begin_training_submission set_handoff_message
        request_training_cancellation clear_dataset_path recover_trainings delete_terminal_training
    step-IsBarred {db} (creates c p) fine h =
        after-committed (IsBarred i bad) db (create_training c p db) h (create-Barred c p db h)
    step-IsBarred {db} (claims c) fine h =
        after-committed (IsBarred i bad) db (claim_next_training c db) h (claim-Barred c db h)
    step-IsBarred {db} (requeues c id m) fine h =
        returned-IsBarred (λ j. has_training_id id j && is_unsent j)
          (set_requeued c m requeue_cancelled) db
          (λ j e. lasting.requeues c m requeue_cancelled j (ground arith)) h
    step-IsBarred {db} (attaches c id agent_job stage m n) fine h =
        after-committed (IsBarred i bad) db (attach_agent_job c id agent_job stage m n db) h
          (attach-Barred c id agent_job stage m n db h)
    step-IsBarred {db} (begins c id) fine h =
        returned-IsBarred (may_begin id) (set_submitted c) db (lasting.submits c id) h
    step-IsBarred {db} (messages c id m) fine h =
        updated-IsBarred (in_handoff id) (set_message c m) db (λ j _. lasting.messages c m j) h
    step-IsBarred {db} (updates c id u) fine h =
        after-committed (IsBarred i bad) db (update_lora_training c id u db) h
          (update-Barred c id u db fine h)
    step-IsBarred {db} (cancels c public_id user admin) fine h =
        returned-IsBarred (may_cancel public_id user admin) (set_cancellation c) db
          (λ j _. lasting.cancels c j) h
    step-IsBarred {db} (clears c id) fine h =
        updated-IsBarred (has_training_id id) (clear_path c) db (λ j _. lasting.clears c j) h
    step-IsBarred {db} (recovers c) fine h =
        updated-IsBarred is_unsent (set_requeued c recover_queued recover_cancelled) db
          (lasting.requeues c recover_queued recover_cancelled) h
    step-IsBarred {db} (deletes id) fine h = record {
      absent =
          omega (
            arith,
            count-keep_le bad (λ j. not (is_finished id j)) db.lora_training_jobs,
            h.absent,
          );
      below = h.below;
    }

    pub steps-IsBarred :
        (db db' : Db) (steps : TrainingSteps db db')
        → updates_meet test steps ≡ true
        → IsBarred i bad db
        → IsBarred i bad db'
    unfolding updates_meet
    steps-IsBarred db db' stops fine h = h
    steps-IsBarred db db' (goes_on {db' = mid} steps step) fine h =
        step-IsBarred step (ground arith) (steps-IsBarred db mid steps (ground arith) h)

-- Every sequence meets the test that asks nothing.
asks_nothing : {db db' : Db} (step : TrainingStep db db') → update_meets (λ _ _ _. true) step ≡ true
unfolding update_meets
asks_nothing (creates c p) = refl
asks_nothing (claims c) = refl
asks_nothing (requeues c id m) = refl
asks_nothing (attaches c id agent_job stage m n) = refl
asks_nothing (begins c id) = refl
asks_nothing (messages c id m) = refl
asks_nothing (updates c id u) = refl
asks_nothing (cancels c public_id user admin) = refl
asks_nothing (clears c id) = refl
asks_nothing (recovers c) = refl
asks_nothing (deletes id) = refl

pub any_updates :
    (db db' : Db) (steps : TrainingSteps db db') → updates_meet (λ _ _ _. true) steps ≡ true
unfolding updates_meet
any_updates db db' stops = refl
any_updates db db' (goes_on {db' = mid} steps step) =
    ground (arith, any_updates db mid steps, asks_nothing step)

-- ===== src/Lora/Facts.antt =====
-- Facts on a training that a statement of internal/store/lora_training.go ends for good.
use personal_cloud_ai_servic.Lora.Steps.{updated-After, queues_none}
use personal_cloud_ai_servic.Db.Keeps.{Ends, Ends-read, Ends-bind, bind-err, Ends-ok}
use personal_cloud_ai_servic.Lora.Table.{unissued, HasTrainingTable, update-unique_id}
use personal_cloud_ai_servic.Db.{Db, ◌>>=◌, pure, err, no_rows, row_or}
use personal_cloud_ai_servic.Lora.Lasting.{IsLasting, IsBarred}
use personal_cloud_ai_servic.Lora.Handoff.{
  set_claimed, set_requeued, is_unsent, set_attached, set_submitted, may_begin, set_message,
  set_updated, set_cancellation, clear_path,
}
use personal_cloud_ai_servic.Prelude.{
  ℕ, Bool, ◌&&◌, is_none, ◌||◌, arith, find, ◌≡◌, update, some, true, count, false, ◌≤◌, find_only,
  count-none, count-le, subst, if◌then◌else◌, find_sound, refl, find-update, ap, ◌==◌, count-only,
  find_fails,
}
use personal_cloud_ai_servic.Domain.Training.{in_queue, Training, is_uploading}
use personal_cloud_ai_servic.Lora.{has_training_id, update_training, update_trainings}

-- The training is in the queue, or its submission never began.
unfoldable pub is_resendable : ℕ → Training → Bool
unfolding has_training_id in_queue
is_resendable i j =
    has_training_id i j && (is_none j.agent_submission_started_at || in_queue j.state)

pub resendable-IsLasting : (i : ℕ) → IsLasting queues_none i (is_resendable i)
unfolding queues_none is_resendable has_training_id in_queue set_claimed set_requeued is_unsent
    set_attached set_submitted may_begin set_message set_updated set_cancellation clear_path
    is_uploading
resendable-IsLasting i = record {
  own = λ j e. ground arith;
  claims = λ c j e. ground arith;
  requeues = λ c m n j e h. ground arith;
  attaches = λ c id agent_job stage m n j e h. ground arith;
  submits = λ c id j e h. ground arith;
  messages = λ c m j h. ground arith;
  updates = λ c db id u j e h. ground arith;
  cancels = λ c j h. ground arith;
  clears = λ c j h. ground arith;
}

-- Nobody asked to cancel the training.
unfoldable pub is_wanted : ℕ → Training → Bool
unfolding has_training_id
is_wanted i j = has_training_id i j && is_none j.cancellation_requested_at

pub wanted-IsLasting : (i : ℕ) → IsLasting (λ _ _ _. true) i (is_wanted i)
unfolding is_wanted has_training_id in_queue set_claimed set_requeued is_unsent set_attached
    set_submitted may_begin set_message set_updated set_cancellation clear_path is_uploading
wanted-IsLasting i = record {
  own = λ j e. ground arith;
  claims = λ c j e. ground arith;
  requeues = λ c m n j e h. ground arith;
  attaches = λ c id agent_job stage m n j e h. ground arith;
  submits = λ c id j e h. ground arith;
  messages = λ c m j h. ground arith;
  updates = λ c db id u j e h. ground arith;
  cancels = λ c j h. ground arith;
  clears = λ c j h. ground arith;
}

-- The training is in the queue, or nobody asked to cancel it.
unfoldable pub is_startable : ℕ → Training → Bool
unfolding has_training_id in_queue
is_startable i j = has_training_id i j && (is_none j.cancellation_requested_at || in_queue j.state)

pub startable-IsLasting : (i : ℕ) → IsLasting queues_none i (is_startable i)
unfolding queues_none is_startable has_training_id in_queue set_claimed set_requeued is_unsent
    set_attached set_submitted may_begin set_message set_updated set_cancellation clear_path
    is_uploading
startable-IsLasting i = record {
  own = λ j e. ground arith;
  claims = λ c j e. ground arith;
  requeues = λ c m n j e h. ground arith;
  attaches = λ c id agent_job stage m n j e h. ground arith;
  submits = λ c id j e h. ground arith;
  messages = λ c m j h. ground arith;
  updates = λ c db id u j e h. ground arith;
  cancels = λ c j h. ground arith;
  clears = λ c j h. ground arith;
}

-- What an UPDATE … RETURNING gives when it finds its row.
module _ (Q : Training → Db → Type 0) (q : Training → Bool) (f : Training → Training) where
  written_end :
      (w : Training) (db : Db)
      → Q (f w) (record db { lora_training_jobs = update q f db.lora_training_jobs })
      → Ends Q ((update_trainings q f >>= λ _. pure (f w)) db)
  written_end w db h =
      Ends-bind Q (λ _. pure (f w)) (update_trainings q f) db
        (λ n db' e.
          Ends-ok (λ _. Q (f w)) (update_trainings q f db) (updated-After (Q (f w)) q f db h) e)

  pub returned_end :
      (db : Db)
      → ((w : Training)
          → find q db.lora_training_jobs ≡ some w
          → Q (f w) (record db { lora_training_jobs = update q f db.lora_training_jobs }))
      → Ends Q (update_training q f db)
  unfolding update_training
  returned_end db h =
      Ends-read Q (λ w. update_trainings q f >>= λ _. pure (f w)) no_rows
        (λ db. find q db.lora_training_jobs) db (λ w e. written_end w db (h w e))

pub refused :
    (bad q : Training → Bool) (f : Training → Training) (db : Db)
    → ((j : Training) → q j ≡ true → bad j ≡ true)
    → count bad db.lora_training_jobs ≤ 0
    → update_training q f db ≡ err no_rows
unfolding update_training
refused bad q f db le none_left =
    bind-err (λ db. row_or no_rows (find q db.lora_training_jobs) db)
      (λ j. update_trainings q f >>= λ _. pure (f j)) db
      (rw
        (count-none q db.lora_training_jobs
          (omega (arith, count-le q bad le db.lora_training_jobs, none_left)))
        refl)

-- The fact ends on the one row that a statement rewrites.
pub ended :
    (bad q : Training → Bool) (f : Training → Training) (db : Db) (w : Training)
    → HasTrainingTable db
    → ((j : Training) → (f j).id ≡ j.id)
    → ((j : Training) → bad j ≡ true → has_training_id w.id j ≡ true)
    → find q db.lora_training_jobs ≡ some w
    → bad (f w) ≡ false
    → IsBarred (f w).id bad (record db { lora_training_jobs = update q f db.lora_training_jobs })
unfolding has_training_id unissued
ended bad q f db w h same own found over =
    let rows = db.lora_training_jobs in
    let by_id : find (has_training_id w.id) rows ≡ some w =
      find_only (has_training_id w.id) rows q found (ground arith) (h.unique_id w.id) in
    let after : find (has_training_id w.id) (update q f rows) ≡ some (f w) =
      subst (λ t. find (has_training_id w.id) (update q f rows) ≡ some (if t then f w else w))
        (find_sound q rows found)
        (find-update (has_training_id w.id) q f rows (λ j. ap (λ x. x == w.id) (same j)) by_id) in
    record {
      absent = ground (
        arith,
        count-only bad (has_training_id w.id) (has_training_id w.id) (update q f rows) {w = f w}
            after (ground (arith, same w)) over own
            (omega (arith, update-unique_id q f same rows w.id, h.unique_id w.id)),
      );
      below =
          ground (arith, same w, find_fails (unissued db.next_training_id) rows q found h.issued);
    }

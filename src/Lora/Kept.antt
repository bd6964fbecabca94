-- ===== src/Lora/Kept.antt =====
-- Every statement of internal/store/lora_training.go keeps the table of trainings, an update as far as
-- it starts none.
use personal_cloud_ai_servic.Lora.Quiet.{
  set_updated-id, set_updated-dated, set_attached-IsQuiet, set_requeued-IsQuiet,
  set_submitted-IsQuiet, set_message-IsQuiet, set_cancellation-IsQuiet, clear_path-IsQuiet,
}
use personal_cloud_ai_servic.Lora.Steps.{
  updated-After, TrainingSteps, goes_on, stops, returned-After, TrainingStep, creates, claims,
  requeues, attaches, begins, messages, updates, cancels, clears, recovers, deletes, inserted-After,
  starts, starts_none, update_meets, updates_meet,
}
use personal_cloud_ai_servic.Lora.{has_training_id, update_training, update_trainings}
use personal_cloud_ai_servic.Db.Keeps.{
  After, Ends-read, After-bind, Keeps, after-committed, Keeps-if, Keeps-pure, Keeps-fail,
}
use personal_cloud_ai_servic.Lora.Table.{
  IsQuiet, HasTrainingTable, is_dispatched, update-IsTrainingTable, is_undated,
  insert-IsTrainingTable, replace-IsTrainingTable, IsTrainingTable, keep-IsTrainingTable,
}
use personal_cloud_ai_servic.Db.{Db, Clock, no_rows, pure, fail, committed}
use personal_cloud_ai_servic.Prelude.{
  Bool, ◌≡◌, ℕ, update, some, find, false, true, least-All, Bool-cases, arith, not, keep, keep-All,
  inl, inr, count, Option, find-none, String, refl, any-find, update-none, none, if◌then◌else◌,
  ◌==◌, ◌&&◌,
}
use personal_cloud_ai_servic.Lora.Create.{
  insert_training, create_training, new_training, check_snapshot,
}
use personal_cloud_ai_servic.Lora.Handoff.{
  next_training, claim_next_training, update_lora_training, TrainingUpdate, claimable,
  training_precedes, set_updated, set_claimed, attach_agent_job, requeue_training,
  begin_training_submission, set_handoff_message, attachable, request_training_cancellation,
  set_attached, clear_dataset_path, recover_trainings, delete_terminal_training, is_unsent,
  set_requeued, requeue_cancelled, may_begin, set_submitted, in_handoff, set_message, may_cancel,
  set_cancellation, clear_path, recover_queued, recover_cancelled, is_finished,
}
use personal_cloud_ai_servic.Domain.Training.{
  Training, CreateTrainingParams, valid, terminal, dispatched,
}

quiet-After :
    (q : Training → Bool) (f : Training → Training) (db : Db)
    → IsQuiet q f
    → HasTrainingTable db
    → HasTrainingTable (record db { lora_training_jobs = update q f db.lora_training_jobs })
quiet-After q f db quiet h =
    update-IsTrainingTable q f db.lora_training_jobs db.next_training_id quiet h

-- No training is with the agent where one can be claimed.
claimable_idle :
    (db : Db) (j : Training) → next_training db ≡ some j → claimable db.lora_training_jobs j ≡ true
unfolding next_training
claimable_idle db j e =
    least-All (training_precedes db.users) (λ k. claimable db.lora_training_jobs k ≡ true)
      (keep (claimable db.lora_training_jobs) db.lora_training_jobs)
      (keep-All (claimable db.lora_training_jobs) db.lora_training_jobs) e

idle-count :
    (db : Db) (j : Training)
    → claimable db.lora_training_jobs j ≡ true
    → count is_dispatched db.lora_training_jobs ≡ 0
unfolding claimable is_dispatched
idle-count db j e =
    find-none is_dispatched db.lora_training_jobs
      (any-find is_dispatched db.lora_training_jobs (ground arith))

pub set_claimed-id : (c : Clock) (j : Training) → (set_claimed c j).id ≡ j.id
unfolding set_claimed
set_claimed-id c j = refl

set_claimed-dated : (c : Clock) (j : Training) → is_undated (set_claimed c j) ≡ false
unfolding set_claimed is_undated terminal
set_claimed-dated c j = refl

claimed_row :
    (c : Clock) (db : Db) (id : ℕ) (o : Option Training)
    → find (has_training_id id) db.lora_training_jobs ≡ o
    → count is_dispatched db.lora_training_jobs ≡ 0
    → HasTrainingTable db
    → IsTrainingTable
        (update (has_training_id id) (set_claimed c) db.lora_training_jobs)
        db.next_training_id
claimed_row c db id none found idle h =
    rw (update-none (has_training_id id) (set_claimed c) db.lora_training_jobs found) h
claimed_row c db id (some w) found idle h =
    replace-IsTrainingTable id (set_claimed c) db.lora_training_jobs db.next_training_id w
      (set_claimed-id c) found (ground arith) (set_claimed-dated c w) h

claim_next-After :
    (c : Clock) (db : Db) → HasTrainingTable db → After HasTrainingTable (claim_next_training c db)
unfolding claim_next_training
claim_next-After c db h =
    Ends-read (λ _ db'. HasTrainingTable db')
      (λ job. update_training (has_training_id job.id) (set_claimed c)) no_rows next_training db
      (λ j e. returned-After HasTrainingTable (has_training_id j.id) (set_claimed c) db (
        claimed_row c db j.id (find (has_training_id j.id) db.lora_training_jobs) refl
          (idle-count db j (claimable_idle db j e)) h))

updated_row :
    (c : Clock) (id : ℕ) (u : TrainingUpdate) (db : Db) (o : Option Training)
    → find (has_training_id id) db.lora_training_jobs ≡ o
    → not (starts u o) ≡ true
    → HasTrainingTable db
    → IsTrainingTable
        (update (has_training_id id) (set_updated c u) db.lora_training_jobs)
        db.next_training_id
unfolding starts is_dispatched set_updated
updated_row c id u db none found fine h =
    rw (update-none (has_training_id id) (set_updated c u) db.lora_training_jobs found) h
updated_row c id u db (some j) found fine h =
    replace-IsTrainingTable id (set_updated c u) db.lora_training_jobs db.next_training_id j
      (set_updated-id c u) found (ground (arith, h.one_active)) (set_updated-dated c u j) h

update-After :
    (c : Clock) (id : ℕ) (u : TrainingUpdate) (db : Db)
    → starts_none db id u ≡ true
    → HasTrainingTable db
    → After HasTrainingTable (update_lora_training c id u db)
unfolding update_lora_training starts_none
update-After c id u db fine h = elim (Bool-cases (not (valid u.state))) [
  | inl bad ↦ rw bad tt
  | inr good ↦ rw good (
      updated-After HasTrainingTable (has_training_id id) (set_updated c u) db
        (updated_row c id u db (find (has_training_id id) db.lora_training_jobs) refl fine h))
]

new_training-id : (c : Clock) (p : CreateTrainingParams) (n : ℕ) → (new_training c p n).id ≡ n
unfolding new_training
new_training-id c p n = refl

new_training-idle :
    (c : Clock) (p : CreateTrainingParams) (n : ℕ) → is_dispatched (new_training c p n) ≡ false
unfolding new_training is_dispatched dispatched
new_training-idle c p n = refl

new_training-dated :
    (c : Clock) (p : CreateTrainingParams) (n : ℕ) → is_undated (new_training c p n) ≡ false
unfolding new_training is_undated terminal
new_training-dated c p n = refl

check_snapshot-Keeps : (p : CreateTrainingParams) → Keeps HasTrainingTable (check_snapshot p)
unfolding check_snapshot
check_snapshot-Keeps p = record { at = λ db h. ground arith }

create-After :
    (c : Clock) (p : CreateTrainingParams) (db : Db)
    → HasTrainingTable db
    → After HasTrainingTable (create_training c p db)
unfolding create_training
create-After c p db h =
    After-bind (check_snapshot p db)
      (λ _ db'. insert_training (new_training c p db'.next_training_id) db')
      ((check_snapshot-Keeps p).at db h)
      (λ _. record {
        at = λ db' h'. inserted-After HasTrainingTable (new_training c p db'.next_training_id) db' (
            insert-IsTrainingTable db'.lora_training_jobs db'.next_training_id
              (new_training c p db'.next_training_id) (new_training-id c p db'.next_training_id)
              (new_training-idle c p db'.next_training_id)
              (new_training-dated c p db'.next_training_id) h');
      })

attach-After :
    (c : Clock) (id : ℕ) (agent_job stage message : String) (progress : ℕ) (db : Db)
    → HasTrainingTable db
    → After HasTrainingTable (attach_agent_job c id agent_job stage message progress db)
unfolding attach_agent_job
attach-After c id agent_job stage message progress db h =
    After-bind
      (update_trainings (attachable id agent_job) (set_attached c agent_job stage message progress)
        db)
      (λ n. if n == 1 then pure tt else fail no_rows)
      (updated-After HasTrainingTable (attachable id agent_job)
        (set_attached c agent_job stage message progress) db
        (quiet-After _ _ db (set_attached-IsQuiet c id agent_job stage message progress) h))
      (λ n. Keeps-if (n == 1) (pure tt) (fail no_rows) (Keeps-pure tt) (Keeps-fail no_rows))

quiet-updated :
    (q : Training → Bool) (f : Training → Training) (db : Db)
    → IsQuiet q f
    → HasTrainingTable db
    → HasTrainingTable (committed db (update_trainings q f db))
quiet-updated q f db quiet h =
    after-committed HasTrainingTable db (update_trainings q f db) h
      (updated-After HasTrainingTable q f db (quiet-After q f db quiet h))

quiet-returned :
    (q : Training → Bool) (f : Training → Training) (db : Db)
    → IsQuiet q f
    → HasTrainingTable db
    → HasTrainingTable (committed db (update_training q f db))
quiet-returned q f db quiet h =
    after-committed HasTrainingTable db (update_training q f db) h
      (returned-After HasTrainingTable q f db (quiet-After q f db quiet h))

pub step-HasTrainingTable :
    {db db' : Db} (step : TrainingStep db db')
    → update_meets starts_none step ≡ true
    → HasTrainingTable db
    → HasTrainingTable db'
unfolding update_meets requeue_training begin_training_submission set_handoff_message
    request_training_cancellation clear_dataset_path recover_trainings delete_terminal_training
step-HasTrainingTable {db} (creates c p) fine h =
    after-committed HasTrainingTable db (create_training c p db) h (create-After c p db h)
step-HasTrainingTable {db} (claims c) fine h =
    after-committed HasTrainingTable db (claim_next_training c db) h (claim_next-After c db h)
step-HasTrainingTable {db} (requeues c id m) fine h =
    quiet-returned (λ j. has_training_id id j && is_unsent j) (set_requeued c m requeue_cancelled)
      db (set_requeued-IsQuiet _ c m requeue_cancelled) h
step-HasTrainingTable {db} (attaches c id agent_job stage m n) fine h =
    after-committed HasTrainingTable db (attach_agent_job c id agent_job stage m n db) h
      (attach-After c id agent_job stage m n db h)
step-HasTrainingTable {db} (begins c id) fine h =
    quiet-returned (may_begin id) (set_submitted c) db (set_submitted-IsQuiet c (may_begin id)) h
step-HasTrainingTable {db} (messages c id m) fine h =
    quiet-updated (in_handoff id) (set_message c m) db (set_message-IsQuiet c m (in_handoff id)) h
step-HasTrainingTable {db} (updates c id u) fine h =
    after-committed HasTrainingTable db (update_lora_training c id u db) h
      (update-After c id u db fine h)
step-HasTrainingTable {db} (cancels c public_id user admin) fine h =
    quiet-returned (may_cancel public_id user admin) (set_cancellation c) db
      (set_cancellation-IsQuiet c (may_cancel public_id user admin)) h
step-HasTrainingTable {db} (clears c id) fine h =
    quiet-updated (has_training_id id) (clear_path c) db (clear_path-IsQuiet c (has_training_id id))
      h
step-HasTrainingTable {db} (recovers c) fine h =
    quiet-updated is_unsent (set_requeued c recover_queued recover_cancelled) db
      (set_requeued-IsQuiet is_unsent c recover_queued recover_cancelled) h
step-HasTrainingTable {db} (deletes id) fine h =
    keep-IsTrainingTable (λ j. not (is_finished id j)) db.lora_training_jobs db.next_training_id h

-- Over any sequence of statements in which no UpdateLoraTrainingJob gives the agent a training that
-- was not with it, from a table of unique issued ids with one training at most at the agent and a time
-- on every ended training, the table stays one.
pub steps-HasTrainingTable :
    (db db' : Db) (steps : TrainingSteps db db')
    → updates_meet starts_none steps ≡ true
    → HasTrainingTable db
    → HasTrainingTable db'
unfolding updates_meet
steps-HasTrainingTable db db' stops fine h = h
steps-HasTrainingTable db db' (goes_on {db' = mid} steps step) fine h =
    step-HasTrainingTable step (ground arith) (steps-HasTrainingTable db mid steps (ground arith) h)

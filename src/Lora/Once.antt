-- ===== src/Lora/Once.antt =====
-- A submission to the agent and a cancellation are never taken back
-- (internal/store/lora_training.go).
use personal_cloud_ai_servic.Lora.Facts.{
  is_resendable, is_wanted, returned_end, refused, resendable-IsLasting, wanted-IsLasting, ended,
  is_startable, startable-IsLasting,
}
use personal_cloud_ai_servic.Lora.Quiet.{set_submitted-IsQuiet, set_cancellation-IsQuiet}
use personal_cloud_ai_servic.Lora.Steps.{TrainingSteps, updates_meet, queues_none}
use personal_cloud_ai_servic.Db.Keeps.{Ends, Ends-ok}
use personal_cloud_ai_servic.Lora.Table.{HasTrainingTable}
use personal_cloud_ai_servic.Db.{Db, err, no_rows, Clock, ok}
use personal_cloud_ai_servic.Lora.Lasting.{IsBarred, steps-IsBarred, any_updates}
use personal_cloud_ai_servic.Lora.Handoff.{
  set_requeued, is_unsent, set_submitted, may_begin, set_cancellation, begin_training_submission,
  request_training_cancellation, claimable, requeue_training, may_cancel, requeue_cancelled,
}
use personal_cloud_ai_servic.Prelude.{
  ℕ, Bool, ◌&&◌, arith, ◌≡◌, update, true, count, false, ◌≤◌, count-le, subst, find_sound, String,
  sym, List,
}
use personal_cloud_ai_servic.Domain.Training.{in_queue, Training, is_uploading}
use personal_cloud_ai_servic.Lora.{has_training_id}

submitted_row :
    (c : Clock) (id : ℕ) (w : Training)
    → may_begin id w ≡ true
    → is_resendable w.id (set_submitted c w) ≡ false
unfolding may_begin is_unsent is_uploading is_resendable set_submitted in_queue has_training_id
submitted_row c id w e = ground arith

begun :
    (c : Clock) (id : ℕ) (db : Db)
    → HasTrainingTable db
    → Ends (λ j db'. IsBarred j.id (is_resendable j.id) db') (begin_training_submission c id db)
unfolding begin_training_submission
begun c id db h =
    returned_end (λ j db'. IsBarred j.id (is_resendable j.id) db') (may_begin id) (set_submitted c)
      db
      (λ w found.
        ended (is_resendable (set_submitted c w).id) (may_begin id) (set_submitted c) db w h
          (set_submitted-IsQuiet c (may_begin id)).same_id (resendable-IsLasting w.id).own found
          (submitted_row c id w (find_sound (may_begin id) db.lora_training_jobs found)))

cancelled_row : (c : Clock) (w : Training) → is_wanted w.id (set_cancellation c w) ≡ false
unfolding is_wanted set_cancellation in_queue has_training_id
cancelled_row c w = ground arith

set_cancellation-same : (c : Clock) (j : Training) → (set_cancellation c j).id ≡ j.id
set_cancellation-same c j = (set_cancellation-IsQuiet c (λ _. true)).same_id j

startable_row : (c : Clock) (w : Training) → is_startable w.id (set_cancellation c w) ≡ false
unfolding is_startable set_cancellation in_queue has_training_id
startable_row c w = ground arith

called_off :
    (fact : ℕ → Training → Bool) (c : Clock) (public_id : String) (user : ℕ) (admin : Bool)
    (db : Db)
    → ((i : ℕ) (j : Training) → fact i j ≡ true → has_training_id i j ≡ true)
    → ((w : Training) → fact w.id (set_cancellation c w) ≡ false)
    → HasTrainingTable db
    → Ends
        (λ j db'. IsBarred j.id (fact j.id) db')
        (request_training_cancellation c public_id user admin db)
unfolding request_training_cancellation
called_off fact c public_id user admin db own over h =
    returned_end (λ j db'. IsBarred j.id (fact j.id) db') (may_cancel public_id user admin)
      (set_cancellation c) db
      (λ w found.
        subst
          (λ i. IsBarred (set_cancellation c w).id (fact i) (record db {
            lora_training_jobs =
                update (may_cancel public_id user admin) (set_cancellation c) db.lora_training_jobs;
          }))
          (sym (set_cancellation-same c w))
          (ended (fact w.id) (may_cancel public_id user admin) (set_cancellation c) db w h
            (set_cancellation-same c) (own w.id) found (over w)))

-- The training with an id can not be claimed.
abbrev pub Unclaimable : ℕ → Db → Type 0
Unclaimable i db =
    count (λ k. has_training_id i k && claimable db.lora_training_jobs k) db.lora_training_jobs ≡ 0

unclaimable :
    (i : ℕ) (bad : Training → Bool) (db : Db)
    → ((k : Training)
        → has_training_id i k ≡ true
        → claimable db.lora_training_jobs k ≡ true
        → bad k ≡ true)
    → count bad db.lora_training_jobs ≤ 0
    → Unclaimable i db
unclaimable i bad db le h = omega (
  arith,
  count-le (λ k. has_training_id i k && claimable db.lora_training_jobs k) bad
      (λ k e. le k (ground arith) (ground arith)) db.lora_training_jobs,
  h,
)

begin_refused :
    (c : Clock) (i : ℕ) (db : Db)
    → count (is_resendable i) db.lora_training_jobs ≤ 0
    → begin_training_submission c i db ≡ err no_rows
unfolding begin_training_submission may_begin is_unsent is_resendable
begin_refused c i db h =
    refused (is_resendable i) (may_begin i) (set_submitted c) db (λ j e. ground arith) h

requeue_refused :
    (c : Clock) (i : ℕ) (message : String) (db : Db)
    → count (is_resendable i) db.lora_training_jobs ≤ 0
    → requeue_training c i message db ≡ err no_rows
unfolding requeue_training is_unsent is_resendable
requeue_refused c i message db h =
    refused (is_resendable i) (λ j. has_training_id i j && is_unsent j)
      (set_requeued c message requeue_cancelled) db (λ j e. ground arith) h

unwanted_refused :
    (c : Clock) (i : ℕ) (db : Db)
    → count (is_wanted i) db.lora_training_jobs ≤ 0
    → begin_training_submission c i db ≡ err no_rows
unfolding begin_training_submission may_begin is_wanted
unwanted_refused c i db h =
    refused (is_wanted i) (may_begin i) (set_submitted c) db (λ j e. ground arith) h

claimable_resendable :
    (i : ℕ) (rows : List Training) (k : Training)
    → has_training_id i k ≡ true
    → claimable rows k ≡ true
    → is_resendable i k ≡ true
unfolding is_resendable claimable
claimable_resendable i rows k e h = ground arith

claimable_wanted :
    (i : ℕ) (rows : List Training) (k : Training)
    → has_training_id i k ≡ true
    → claimable rows k ≡ true
    → is_wanted i k ≡ true
unfolding is_wanted claimable
claimable_wanted i rows k e h = ground arith

-- From a table of unique issued ids with one training at most at the agent and a time on every ended
-- training, BeginLoraTrainingSubmission succeeds once: after any sequence of statements in which no
-- UpdateLoraTrainingJob puts a training back in the queue, it fails for that training with no row, so
-- does RequeueLoraTrainingJob, and the training can not be claimed.
pub submitted_once :
    (c c' : Clock) (id : ℕ) (message : String) (db db' db'' : Db) {j : Training}
    → HasTrainingTable db
    → begin_training_submission c id db ≡ ok (j, db')
    → (steps : TrainingSteps db' db'') → updates_meet queues_none steps ≡ true
    → (begin_training_submission c' j.id db'' ≡ err no_rows)
      × (requeue_training c' j.id message db'' ≡ err no_rows)
      × Unclaimable j.id db''
submitted_once c c' id message db db' db'' {j} h success steps fine =
    let barred : IsBarred j.id (is_resendable j.id) db'' =
      steps-IsBarred j.id (is_resendable j.id) queues_none (resendable-IsLasting j.id) db' db''
        steps fine
        (Ends-ok (λ j db'. IsBarred j.id (is_resendable j.id) db')
          (begin_training_submission c id db) (begun c id db h) success) in
    (
      begin_refused c' j.id db'' barred.absent,
      requeue_refused c' j.id message db'' barred.absent,
      unclaimable j.id (is_resendable j.id) db'' (claimable_resendable j.id db''.lora_training_jobs)
          barred.absent,
    )

-- From a table of unique issued ids with one training at most at the agent and a time on every ended
-- training, once RequestLoraTrainingCancellation has answered with a training, no statements, whatever the updates among them write, lead to a state in which it can be
-- claimed or its submission begins.
pub cancelled_for_good :
    (c c' : Clock) (public_id : String) (user : ℕ) (admin : Bool) (db db' db'' : Db) {j : Training}
    → HasTrainingTable db
    → request_training_cancellation c public_id user admin db ≡ ok (j, db')
    → TrainingSteps db' db''
    → (begin_training_submission c' j.id db'' ≡ err no_rows) × Unclaimable j.id db''
cancelled_for_good c c' public_id user admin db db' db'' {j} h success steps =
    let barred : IsBarred j.id (is_wanted j.id) db'' =
      steps-IsBarred j.id (is_wanted j.id) (λ _ _ _. true) (wanted-IsLasting j.id) db' db'' steps
        (any_updates db' db'' steps)
        (Ends-ok (λ j db'. IsBarred j.id (is_wanted j.id) db')
          (request_training_cancellation c public_id user admin db)
          (called_off is_wanted c public_id user admin db (λ i. (wanted-IsLasting i).own)
            (cancelled_row c) h)
          success) in
    (
      unwanted_refused c' j.id db'' barred.absent,
      unclaimable j.id (is_wanted j.id) db'' (claimable_wanted j.id db''.lora_training_jobs)
          barred.absent,
    )

queued_startable :
    (i : ℕ) (k : Training)
    → (has_training_id i k && in_queue k.state) ≡ true
    → is_startable i k ≡ true
unfolding is_startable
queued_startable i k e = ground arith

-- From a table of unique issued ids with one training at most at the agent and a time on every ended
-- training, once RequestLoraTrainingCancellation has answered with a training, it is not in the queue after any sequence of statements in which no
-- UpdateLoraTrainingJob puts a training back in the queue, requeues and recoveries included.
pub cancelled_stays_out :
    (c : Clock) (public_id : String) (user : ℕ) (admin : Bool) (db db' db'' : Db) {j : Training}
    → HasTrainingTable db
    → request_training_cancellation c public_id user admin db ≡ ok (j, db')
    → (steps : TrainingSteps db' db'') → updates_meet queues_none steps ≡ true
    → count (λ k. has_training_id j.id k && in_queue k.state) db''.lora_training_jobs ≡ 0
cancelled_stays_out c public_id user admin db db' db'' {j} h success steps fine =
    let barred : IsBarred j.id (is_startable j.id) db'' =
      steps-IsBarred j.id (is_startable j.id) queues_none (startable-IsLasting j.id) db' db'' steps
        fine
        (Ends-ok (λ j db'. IsBarred j.id (is_startable j.id) db')
          (request_training_cancellation c public_id user admin db)
          (called_off is_startable c public_id user admin db (λ i. (startable-IsLasting i).own)
            (startable_row c) h)
          success) in
    omega (
      arith,
      count-le (λ k. has_training_id j.id k && in_queue k.state) (is_startable j.id)
          (queued_startable j.id) db''.lora_training_jobs,
      barred.absent,
    )

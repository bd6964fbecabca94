-- ===== src/Lora/Quiet.antt =====
-- The rewritings of internal/store/lora_training.go that start no training.
use personal_cloud_ai_servic.Domain.Training.{
  dispatched, Training, terminal, is_uploading, in_queue,
}
use personal_cloud_ai_servic.Prelude.{
  String, ◌≡◌, Bool, arith, false, refl, ℕ, Bool-cases, inl, inr,
}
use personal_cloud_ai_servic.Lora.Table.{is_dispatched, is_undated, IsQuiet}
use personal_cloud_ai_servic.Db.{Clock}
use personal_cloud_ai_servic.Lora.Handoff.{
  set_requeued, set_attached, set_submitted, set_message, clear_path, set_cancellation, set_updated,
  attachable, TrainingUpdate,
}

set_requeued-id : (c : Clock) (m n : String) (j : Training) → (set_requeued c m n j).id ≡ j.id
unfolding set_requeued
set_requeued-id c m n j = ground arith

pub set_requeued-IsQuiet :
    (q : Training → Bool) (c : Clock) (m n : String) → IsQuiet q (set_requeued c m n)
unfolding set_requeued is_dispatched is_undated dispatched terminal
set_requeued-IsQuiet q c m n = record {
  same_id = set_requeued-id c m n;
  no_start = λ j e h. ground arith;
  dates = λ j e h. ground arith;
}

pub set_attached-IsQuiet :
    (c : Clock) (id : ℕ) (agent_job stage message : String) (progress : ℕ)
    → IsQuiet (attachable id agent_job) (set_attached c agent_job stage message progress)
unfolding set_attached attachable is_dispatched is_undated dispatched terminal is_uploading
set_attached-IsQuiet c id agent_job stage message progress = record {
  same_id = λ j. refl;
  no_start = λ j e h. ground arith;
  dates = λ j e h. ground arith;
}

pub set_submitted-IsQuiet : (c : Clock) (q : Training → Bool) → IsQuiet q (set_submitted c)
unfolding set_submitted is_dispatched is_undated
set_submitted-IsQuiet c q = record {
  same_id = λ j. refl;
  no_start = λ j e h. h;
  dates = λ j e h. h;
}

pub set_message-IsQuiet :
    (c : Clock) (message : String) (q : Training → Bool) → IsQuiet q (set_message c message)
unfolding set_message is_dispatched is_undated
set_message-IsQuiet c message q = record {
  same_id = λ j. refl;
  no_start = λ j e h. h;
  dates = λ j e h. h;
}

pub clear_path-IsQuiet : (c : Clock) (q : Training → Bool) → IsQuiet q (clear_path c)
unfolding clear_path is_dispatched is_undated
clear_path-IsQuiet c q = record { same_id = λ j. refl; no_start = λ j e h. h; dates = λ j e h. h }

set_cancellation-id : (c : Clock) (j : Training) → (set_cancellation c j).id ≡ j.id
unfolding set_cancellation
set_cancellation-id c j = ground arith

pub set_cancellation-IsQuiet : (c : Clock) (q : Training → Bool) → IsQuiet q (set_cancellation c)
unfolding set_cancellation is_dispatched is_undated dispatched terminal in_queue
set_cancellation-IsQuiet c q = record {
  same_id = set_cancellation-id c;
  no_start = λ j e h. ground arith;
  dates = λ j e h. ground arith;
}

pub set_updated-id : (c : Clock) (u : TrainingUpdate) (j : Training) → (set_updated c u j).id ≡ j.id
unfolding set_updated
set_updated-id c u j = refl

pub set_updated-dated :
    (c : Clock) (u : TrainingUpdate) (j : Training) → is_undated (set_updated c u j) ≡ false
unfolding set_updated is_undated
set_updated-dated c u j = elim (Bool-cases (terminal u.state)) [
  | inl e ↦ rw e refl
  | inr e ↦ rw e refl
]

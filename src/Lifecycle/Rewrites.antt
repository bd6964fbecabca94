-- ===== src/Lifecycle/Rewrites.antt =====
-- Each rewriting of a job row by the store (internal/store) keeps the id and the marks of a
-- submission, and follows the graph.
use personal_cloud_ai_servic.Lifecycle.{Reaches, moves}
use personal_cloud_ai_servic.Lifecycle.History.{IsStep}
use personal_cloud_ai_servic.Prelude.{
  String, ℕ, if◌then◌else◌, refl, refl, refl, refl, any, refl, refl, refl, refl, refl, refl, refl,
  refl, refl, refl, refl, refl, refl, refl, refl, refl, refl, refl, refl, refl, refl, refl, refl,
  ◌≡◌, true, arith,
}
use personal_cloud_ai_servic.Domain.Job.{
  JobState, PreparedJob, preparing, can_transition, job_transitions, draft, terminal,
}
use personal_cloud_ai_servic.Db.{Clock}
use personal_cloud_ai_servic.Quota.{set_reserved, set_committed, set_unreserved}
use personal_cloud_ai_servic.Dispatch.Submission.{
  set_submitting, set_postponed, set_rejected, set_fenced,
}
use personal_cloud_ai_servic.Dispatch.{set_queued, is_draft, claimed}
use personal_cloud_ai_servic.Jobs.Cancel.{
  set_prompt, set_released, set_cancelling, set_cleared, set_confirmed,
}
use personal_cloud_ai_servic.Jobs.Transition.{set_report, set_prepared, Report}

pub set_report-IsStep : (c : Clock) (r : Report) → IsStep (set_report c r)
unfolding set_report
set_report-IsStep c r = record {
  same_id = λ y. refl;
  onward = λ s y h. h;
  give_back = λ s y h. h;
  marks = record { begun = λ y e. e; closed = λ y e. e };
}

pub set_prepared-IsStep : (c : Clock) (p : PreparedJob) → IsStep (set_prepared c p)
unfolding set_prepared
set_prepared-IsStep c p = record {
  same_id = λ y. refl;
  onward = λ s y h. h;
  give_back = λ s y h. h;
  marks = record { begun = λ y e. e; closed = λ y e. e };
}

pub set_prompt-IsStep : (c : Clock) (prompt : String) → IsStep (set_prompt c prompt)
unfolding set_prompt
set_prompt-IsStep c prompt = record {
  same_id = λ y. refl;
  onward = λ s y h. h;
  give_back = λ s y h. h;
  marks = record { begun = λ y e. e; closed = λ y e. e };
}

pub set_released-IsStep : (c : Clock) → IsStep (set_released c)
unfolding set_released
set_released-IsStep c = record {
  same_id = λ y. refl;
  onward = λ s y h. h;
  give_back = λ s y h live ended. refl;
  marks = record { begun = λ y e. e; closed = λ y e. e };
}

pub set_cancelling-IsStep : (c : Clock) → IsStep (set_cancelling c)
unfolding set_cancelling
set_cancelling-IsStep c = record {
  same_id = λ y. refl;
  onward = λ s y h. h;
  give_back = λ s y h. h;
  marks = record { begun = λ y e. e; closed = λ y e. e };
}

pub set_cleared-IsStep : (c : Clock) (m : String) → IsStep (set_cleared c m)
unfolding set_cleared
set_cleared-IsStep c m = record {
  same_id = λ y. refl;
  onward = λ s y h. h;
  give_back = λ s y h. h;
  marks = record { begun = λ y e. e; closed = λ y e. e };
}

pub set_confirmed-IsStep : (c : Clock) → IsStep (set_confirmed c)
unfolding set_confirmed
set_confirmed-IsStep c = record {
  same_id = λ y. refl;
  onward = λ s y h. h;
  give_back = λ s y h. h;
  marks = record { begun = λ y e. e; closed = λ y e. e };
}

pub set_queued-IsStep : (c : Clock) → IsStep (set_queued c)
unfolding set_queued
set_queued-IsStep c = record {
  same_id = λ y. refl;
  onward = λ s y h. h;
  give_back = λ s y h. h;
  marks = record { begun = λ y e. e; closed = λ y e. e };
}

pub set_submitting-IsStep : (c : Clock) → IsStep (set_submitting c)
unfolding set_submitting
set_submitting-IsStep c = record {
  same_id = λ y. refl;
  onward = λ s y h. h;
  give_back = λ s y h. h;
  marks = record { begun = λ y e. absurd (ground arith); closed = λ y e. e };
}

pub set_postponed-IsStep : (c : Clock) → IsStep (set_postponed c)
unfolding set_postponed
set_postponed-IsStep c = record {
  same_id = λ y. refl;
  onward = λ s y h. h;
  give_back = λ s y h. h;
  marks = record { begun = λ y e. e; closed = λ y e. e };
}

pub set_rejected-IsStep : (c : Clock) → IsStep (set_rejected c)
unfolding set_rejected
set_rejected-IsStep c = record {
  same_id = λ y. refl;
  onward = λ s y h. h;
  give_back = λ s y h. h;
  marks = record { begun = λ y e. e; closed = λ y e. e };
}

pub set_fenced-IsStep : (c : Clock) → IsStep (set_fenced c)
unfolding set_fenced
set_fenced-IsStep c = record {
  same_id = λ y. refl;
  onward = λ s y h. h;
  give_back = λ s y h. h;
  marks = record { begun = λ y e. e; closed = λ y e. absurd (ground arith) };
}

pub set_reserved-IsStep : (c : Clock) (day : ℕ) → IsStep (set_reserved c day)
unfolding set_reserved
set_reserved-IsStep c day = record {
  same_id = λ y. refl;
  onward = λ s y h. h;
  give_back = λ s y h. h;
  marks = record { begun = λ y e. e; closed = λ y e. e };
}

pub set_committed-IsStep : (c : Clock) → IsStep (set_committed c)
unfolding set_committed
set_committed-IsStep c = record {
  same_id = λ y. refl;
  onward = λ s y h. h;
  give_back = λ s y h. h;
  marks = record { begun = λ y e. e; closed = λ y e. e };
}

pub set_unreserved-IsStep : (c : Clock) → IsStep (set_unreserved c)
unfolding set_unreserved
set_unreserved-IsStep c = record {
  same_id = λ y. refl;
  onward = λ s y h. h;
  give_back = λ s y h. h;
  marks = record { begun = λ y e. e; closed = λ y e. e };
}

claimed_state : (s t : JobState) → Reaches s t → Reaches s (if is_draft t then preparing else t)
unfolding is_draft
claimed_state s draft h =
    moves draft preparing h (unfold can_transition any job_transitions in refl)
claimed_state s _ h = h

claimed_ended :
    (t : JobState) → terminal (if is_draft t then preparing else t) ≡ true → terminal t ≡ true
unfolding is_draft terminal
claimed_ended draft h = h
claimed_ended _ h = h

pub claimed-IsStep : (c : Clock) (token : String) → IsStep (claimed c token)
unfolding claimed
claimed-IsStep c token = record {
  same_id = λ y. refl;
  onward = λ s y h. claimed_state s y.state h;
  give_back = λ s y h live ended. h live (claimed_ended y.state ended);
  marks = record { begun = λ y e. e; closed = λ y e. e };
}

pub ruleset step_rules = (
  set_report-IsStep, set_prepared-IsStep, set_prompt-IsStep, set_released-IsStep,
  set_cancelling-IsStep, set_cleared-IsStep, set_confirmed-IsStep, set_queued-IsStep,
  set_submitting-IsStep, set_postponed-IsStep, set_rejected-IsStep, set_fenced-IsStep,
  set_reserved-IsStep, set_committed-IsStep, set_unreserved-IsStep, claimed-IsStep,
)

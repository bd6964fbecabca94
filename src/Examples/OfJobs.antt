-- ===== src/Examples/OfJobs.antt =====
-- The theorems on the generation jobs of internal/store and internal/domain at concrete calls.
use personal_cloud_ai_servic.Dispatch.Due.{candidate_in_turn, IsDue, ComesFirst}
use personal_cloud_ai_servic.Lifecycle.Submitted.{begin_once, fenced_for_good}
use personal_cloud_ai_servic.Lifecycle.{stays}
use personal_cloud_ai_servic.Lifecycle.Calls.{
  JobCall, run_jobs, begins, run_jobs-Follows, terminal_for_good, binds, commits, marks_released,
  transitions, terminal_after_release,
}
use personal_cloud_ai_servic.Examples.{waiting_job, later, job_db, noon, owner}
use personal_cloud_ai_servic.Jobs.{has_job_id}
use personal_cloud_ai_servic.Db.{Clock, committed, err, job_state_conflict}
use personal_cloud_ai_servic.Dispatch.{
  next_candidate, dispatchable, job_precedes, first_job, job_head_start, batch_open, batch_turn,
  is_waiting_job,
}
use personal_cloud_ai_servic.Dispatch.Submission.{
  begin_submission, fence_resource_release, submittable, fenceable, set_submitting, set_fenced,
  affect_one, affect,
}
use personal_cloud_ai_servic.Lifecycle.History.{Follows, Origin}
use personal_cloud_ai_servic.Prelude.{
  List, find, count, ◌<◌, ◌≡◌, ◌∷◌, none, some, [], true, arith, ◌≤◌, All, refl, false, keep, any,
  update, is_some,
}
use personal_cloud_ai_servic.Domain.Job.{
  can_transition, cancellable, Job, queued, failed, running, waiting_for_resources, draft,
  cancelled, terminal, postprocessing, state_eq,
}
use personal_cloud_ai_servic.Domain.Job.Graph.{
  rank, cancellable_graph, can_transition-rank, terminal_last,
}

can_transition-rank_example : rank queued < rank postprocessing
can_transition-rank_example =
    can_transition-rank queued postprocessing (unfold can_transition in refl) refl

terminal_last_example : can_transition failed draft ≡ state_eq failed draft
terminal_last_example = terminal_last failed draft (unfold terminal in refl)

cancellable_graph_example : cancellable running ≡ can_transition running cancelled
cancellable_graph_example = cancellable_graph running (unfold terminal in refl)

abbrev day_calls : List (Clock × JobCall)
day_calls =
    (noon, begins 1 "t")
    ∷ (noon, binds 1 "p")
    ∷ (later, commits 1)
    ∷ (later, marks_released 1)
    ∷ (
      later,
      transitions 1 (record {
        state = failed;
        message = "m";
        error_code = "e";
        error_message = "";
        attempt = 0;
      }),
    )
    ∷ []

abbrev waiting_origin : Origin
waiting_origin = record { state = waiting_for_resources; begun = false; closed = false }

waiting-Follows : Follows 1 waiting_origin (job_db waiting_job)
unfolding find has_job_id terminal
waiting-Follows = record {
  job = waiting_job;
  stored = refl;
  follows = stays;
  issued = omega arith;
  released = λ _ ended. absurd (ground arith);
  begins = λ b. absurd (ground arith);
  closes = λ b. absurd (ground arith);
}

run_jobs-Follows_example : Follows 1 waiting_origin (run_jobs (job_db waiting_job) day_calls)
run_jobs-Follows_example =
    run_jobs-Follows 1 waiting_origin (job_db waiting_job) day_calls waiting-Follows

abbrev ended_job : Job
ended_job = record waiting_job { state = cancelled; resources_released_at = some 2000000 }

abbrev Ended : Job → List (Clock × JobCall) → Type 0
Ended job calls =
    (after : Job) × (find (has_job_id 1) (run_jobs (job_db job) calls).generation_jobs ≡ some after)
    × (after.state ≡ job.state)

terminal_for_good_example : Ended ended_job day_calls
unfolding find has_job_id terminal
terminal_for_good_example =
    terminal_for_good 1 (job_db ended_job) ended_job day_calls refl (omega arith) refl

lone_job : (job : Job) → count (has_job_id 1) (job ∷ []) ≤ 1
unfolding count
lone_job job = ground arith

begin_once_example :
    begin_submission later 1 "u" (
      run_jobs
        (committed (job_db waiting_job) (begin_submission noon 1 "t" (job_db waiting_job)))
        day_calls)
    ≡ err job_state_conflict
unfolding begin_submission submittable set_submitting affect_one affect any update has_job_id
    is_waiting_job
begin_once_example =
    begin_once noon later 1 "t" "u" (job_db waiting_job)
      (committed (job_db waiting_job) (begin_submission noon 1 "t" (job_db waiting_job))) day_calls
      (lone_job waiting_job) (omega arith) refl

fenced_for_good_example :
    begin_submission later 1 "t" (
      run_jobs
        (committed (job_db waiting_job) (fence_resource_release noon 1 "t" (job_db waiting_job)))
        day_calls)
    ≡ err job_state_conflict
unfolding fence_resource_release fenceable set_fenced affect any update has_job_id
fenced_for_good_example =
    fenced_for_good noon later 1 "t" "t" (job_db waiting_job)
      (committed (job_db waiting_job) (fence_resource_release noon 1 "t" (job_db waiting_job)))
      day_calls (lone_job waiting_job) (omega arith) refl

abbrev published_job : Job
published_job = record waiting_job { dispatch_token = ""; dispatch_until = none }

candidate_in_turn_example :
    (any (has_job_id 1) (published_job ∷ []) ≡ true)
    × IsDue noon 1 (job_db published_job) published_job
    × All
        (λ k. IsDue noon 1 (job_db published_job) k → ComesFirst (owner ∷ []) published_job k)
        (published_job ∷ [])
unfolding next_candidate dispatchable keep first_job job_precedes job_head_start batch_open
    batch_turn is_waiting_job any
candidate_in_turn_example = candidate_in_turn noon 1 (job_db published_job) published_job refl

abbrev Emptied : Job → List (Clock × JobCall) → Type 0
Emptied job calls =
    (after : Job) × (find (has_job_id 1) (run_jobs (job_db job) calls).generation_jobs ≡ some after)
    × (terminal after.state ≡ true → is_some after.resources_released_at ≡ true)

terminal_after_release_example : Emptied waiting_job day_calls
unfolding find has_job_id terminal
terminal_after_release_example =
    terminal_after_release 1 (job_db waiting_job) waiting_job day_calls refl (omega arith) refl

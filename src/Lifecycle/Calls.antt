-- ===== src/Lifecycle/Calls.antt =====
-- Any sequence of job calls of internal/store, each with the clock of its transaction.
use personal_cloud_ai_servic.Jobs.Claim.{claim_generation_job}
use personal_cloud_ai_servic.Domain.Job.Graph.{terminal_last, terminal_eq}
use personal_cloud_ai_servic.Quota.{
  reserve_quick_generation_for_job, commit_quick_generation_for_job,
  release_quick_generation_for_job,
}
use personal_cloud_ai_servic.Dispatch.Submission.{
  begin_submission, postpone_dispatch, reject_submission, fence_resource_release,
}
use personal_cloud_ai_servic.Lifecycle.Sent.{
  queue-Keeps, dispatch-Keeps, begin-Keeps, postpone-Keeps, reject-Keeps, fence-Keeps,
  reserve-Keeps, commit-Keeps, unreserve-Keeps,
}
use personal_cloud_ai_servic.Dispatch.{queue_dispatch, claim_next_dispatch}
use personal_cloud_ai_servic.Lifecycle.Moved.{transition-Keeps}
use personal_cloud_ai_servic.Jobs.Cancel.{
  bind_generation_job_prompt, mark_resources_released, request_cancellation, clear_cancellation,
  confirm_cancellation,
}
use personal_cloud_ai_servic.Lifecycle.Followed.{
  prepare-Keeps, bind_prompt-Keeps, mark_released-Keeps, request-Keeps, clear-Keeps, confirm-Keeps,
}
use personal_cloud_ai_servic.Jobs.Transition.{prepare_generation_job, transition_generation_job}
use personal_cloud_ai_servic.Lifecycle.{Reaches, stays, moves}
use personal_cloud_ai_servic.Lifecycle.Made.{create-Keeps, claim-Keeps}
use personal_cloud_ai_servic.Jobs.{has_job_id}
use personal_cloud_ai_servic.Db.Keeps.{Keeps-committed}
use personal_cloud_ai_servic.Jobs.Create.{create_generation_job}
use personal_cloud_ai_servic.Lifecycle.History.{Follows, Origin}
use personal_cloud_ai_servic.Prelude.{
  ℕ, List, ◌∷◌, ◌≡◌, find, String, true, some, [], ◌<◌, sym, ◌∙◌, subst, refl, arith, false,
  is_some,
}
use personal_cloud_ai_servic.Db.{Db, Clock, committed}
use personal_cloud_ai_servic.Domain.Job.{
  CreateJobParams, JobState, PreparedJob, terminal, Job, TransitionParams, state_eq, can_transition,
}

pub data JobCall : Type 0 where
  creates : CreateJobParams → JobCall
  claims : CreateJobParams → JobCall
  prepares : ℕ → PreparedJob → JobCall
  transitions : ℕ → TransitionParams → JobCall
  binds : ℕ → String → JobCall
  marks_released : ℕ → JobCall
  requests : ℕ → ℕ → JobCall
  clears : ℕ → ℕ → String → JobCall
  confirms : ℕ → JobCall
  queues : ℕ → JobCall
  dispatches : String → ℕ → JobCall
  begins : ℕ → String → JobCall
  postpones : ℕ → String → JobCall
  rejects : ℕ → String → JobCall
  fences : ℕ → String → JobCall
  reserves : ℕ → ℕ → ℕ → JobCall
  commits : ℕ → JobCall
  unreserves : ℕ → JobCall

unfoldable pub job_step : Db → Clock × JobCall → Db
job_step db (c, creates p) = committed db (create_generation_job c p db)
job_step db (c, claims p) = committed db (claim_generation_job c p db)
job_step db (c, prepares id p) = committed db (prepare_generation_job c id p db)
job_step db (c, transitions id p) = committed db (transition_generation_job c id p db)
job_step db (c, binds id prompt) = committed db (bind_generation_job_prompt c id prompt db)
job_step db (c, marks_released id) = committed db (mark_resources_released c id db)
job_step db (c, requests id user) = committed db (request_cancellation c id user db)
job_step db (c, clears id user m) = committed db (clear_cancellation c id user m db)
job_step db (c, confirms id) = committed db (confirm_cancellation c id db)
job_step db (c, queues id) = committed db (queue_dispatch c id db)
job_step db (c, dispatches token n) = committed db (claim_next_dispatch c token n db)
job_step db (c, begins id token) = committed db (begin_submission c id token db)
job_step db (c, postpones id token) = committed db (postpone_dispatch c id token db)
job_step db (c, rejects id token) = committed db (reject_submission c id token db)
job_step db (c, fences id token) = committed db (fence_resource_release c id token db)
job_step db (c, reserves day id user) =
    committed db (reserve_quick_generation_for_job c day id user db)
job_step db (c, commits id) = committed db (commit_quick_generation_for_job c id db)
job_step db (c, unreserves id) = committed db (release_quick_generation_for_job c id db)

unfoldable pub run_jobs : Db → List (Clock × JobCall) → Db
unfolding job_step
run_jobs db [] = db
run_jobs db (call ∷ calls) = run_jobs (job_step db call) calls

job_step-Follows :
    (i : ℕ) (s : Origin) (db : Db) (call : Clock × JobCall)
    → Follows i s db
    → Follows i s (job_step db call)
unfolding job_step
job_step-Follows i s db (c, creates p) h = Keeps-committed (create-Keeps i s c p) db h
job_step-Follows i s db (c, claims p) h = Keeps-committed (claim-Keeps i s c p) db h
job_step-Follows i s db (c, prepares id p) h = Keeps-committed (prepare-Keeps i s c id p) db h
job_step-Follows i s db (c, transitions id p) h = Keeps-committed (transition-Keeps i s c id p) db h
job_step-Follows i s db (c, binds id p) h = Keeps-committed (bind_prompt-Keeps i s c id p) db h
job_step-Follows i s db (c, marks_released id) h =
    Keeps-committed (mark_released-Keeps i s c id) db h
job_step-Follows i s db (c, requests id user) h = Keeps-committed (request-Keeps i s c id user) db h
job_step-Follows i s db (c, clears id user m) h = Keeps-committed (clear-Keeps i s c id user m) db h
job_step-Follows i s db (c, confirms id) h = Keeps-committed (confirm-Keeps i s c id) db h
job_step-Follows i s db (c, queues id) h = Keeps-committed (queue-Keeps i s c id) db h
job_step-Follows i s db (c, dispatches token n) h =
    Keeps-committed (dispatch-Keeps i s c token n) db h
job_step-Follows i s db (c, begins id token) h = Keeps-committed (begin-Keeps i s c id token) db h
job_step-Follows i s db (c, postpones id token) h =
    Keeps-committed (postpone-Keeps i s c id token) db h
job_step-Follows i s db (c, rejects id token) h = Keeps-committed (reject-Keeps i s c id token) db h
job_step-Follows i s db (c, fences id token) h = Keeps-committed (fence-Keeps i s c id token) db h
job_step-Follows i s db (c, reserves day id user) h =
    Keeps-committed (reserve-Keeps i s c day id user) db h
job_step-Follows i s db (c, commits id) h = Keeps-committed (commit-Keeps i s c id) db h
job_step-Follows i s db (c, unreserves id) h = Keeps-committed (unreserve-Keeps i s c id) db h

-- Whatever job calls are made, in any order and with any clocks, a job that is there, under an id
-- below the next value of the id sequence, stays under its id; its state goes on along the graph of
-- generationJobTransitions, its id stays below the next value, and a submission that had begun and a
-- dispatch that was closed stay so.
pub run_jobs-Follows :
    (i : ℕ) (s : Origin) (db : Db) (calls : List (Clock × JobCall))
    → Follows i s db
    → Follows i s (run_jobs db calls)
unfolding run_jobs
run_jobs-Follows i s db [] h = h
run_jobs-Follows i s db (call ∷ calls) h =
    run_jobs-Follows i s (job_step db call) calls (job_step-Follows i s db call h)

abbrev origin_of : Job → Origin
origin_of job = record { state = job.state; begun = false; closed = false }

settled : (s t : JobState) → terminal s ≡ true → Reaches s t → t ≡ s
settled s _ h stays = refl
settled s _ h (moves t u path step) =
    let before : t ≡ s = settled s t h path in
    let same : state_eq s u ≡ true =
      sym (terminal_last s u h) ∙ subst (λ x. can_transition x u ≡ true) before step in
    terminal_eq s u h same

-- No sequence of job calls moves a job out of a terminal state, or loses it, where its id is below
-- the next value of the id sequence.
pub terminal_for_good :
    (i : ℕ) (db : Db) (job : Job) (calls : List (Clock × JobCall))
    → find (has_job_id i) db.generation_jobs ≡ some job
    → i < db.next_job_id
    → terminal job.state ≡ true
    → (after : Job) × (find (has_job_id i) (run_jobs db calls).generation_jobs ≡ some after)
      × (after.state ≡ job.state)
terminal_for_good i db job calls e issued ended =
    let h : Follows i (origin_of job) (run_jobs db calls) =
      run_jobs-Follows i (origin_of job) db calls (record {
        job = job;
        stored = e;
        follows = stays;
        issued = issued;
        released = λ live. absurd (ground arith);
        begins = λ b. absurd (ground arith);
        closes = λ b. absurd (ground arith);
      }) in
    (h.job, h.stored, settled job.state h.job.state ended h.follows)

-- A job that was not terminal, under an id below the next value of the id sequence, is still there
-- after any sequence of job calls, and where it is terminal by then, its resources were released.
pub terminal_after_release :
    (i : ℕ) (db : Db) (job : Job) (calls : List (Clock × JobCall))
    → find (has_job_id i) db.generation_jobs ≡ some job
    → i < db.next_job_id
    → terminal job.state ≡ false
    → (after : Job) × (find (has_job_id i) (run_jobs db calls).generation_jobs ≡ some after)
      × (terminal after.state ≡ true → is_some after.resources_released_at ≡ true)
terminal_after_release i db job calls e issued live =
    let h : Follows i (origin_of job) (run_jobs db calls) =
      run_jobs-Follows i (origin_of job) db calls (record {
        job = job;
        stored = e;
        follows = stays;
        issued = issued;
        released = λ _ ended. absurd (ground arith);
        begins = λ b. absurd (ground arith);
        closes = λ b. absurd (ground arith);
      }) in
    (h.job, h.stored, h.released live)

-- ===== src/Lifecycle/Followed.antt =====
-- The calls of internal/store/generation_job.go follow the graph.
use personal_cloud_ai_servic.Jobs.{select_job, select_own_job}
use personal_cloud_ai_servic.Lifecycle.Rewrites.{
  step_rules, set_released-IsStep, set_confirmed-IsStep, set_cleared-IsStep, set_prompt-IsStep,
}
use personal_cloud_ai_servic.Db.Keeps.{Keeps, After, keeps_rules, Keeps-bind, Keeps-pure}
use personal_cloud_ai_servic.Lifecycle.History.{
  IsStep, Follows, aside-Follows, increment_revision-Keeps, update_job-Keeps, select_own_job-Keeps,
  select_job-Keeps, step-Follows, Origin,
}
use personal_cloud_ai_servic.Db.{Clock, Tx, Db, pure}
use personal_cloud_ai_servic.Jobs.Transition.{prepare_generation_job}
use personal_cloud_ai_servic.Jobs.Cancel.{
  write_or_read, mark_resources_released, request_cancellation, clear_cancellation,
  confirm_cancellation, bind_row, bind_lease, bind_generation_job_prompt, release_row, bind_trimmed,
  cleared_or_read, releasable, clearable, confirmable, bind_request, written_or_read, set_released,
  set_cleared, set_confirmed, unbound, prompt_free, set_prompt,
}
use personal_cloud_ai_servic.Domain.Job.{Job, PreparedJob}
use personal_cloud_ai_servic.Prelude.{
  ℕ, Bool, String, Option, find, Bool-cases, any, some, refl, trim_space, none, ◌&&◌, false, not,
  inl, inr,
}

module _ (i : ℕ) (s : Origin) where
  written-Follows :
      (p : Job → Bool) (f : Job → Job) (id : ℕ) (o : Option Job) (db : Db)
      → IsStep f
      → Follows i s db
      → After (Follows i s) (written_or_read p f id o db)
  written-Follows p f id none db good h =
      (Keeps-bind (select_job id) (λ job. pure (job, false)) (select_job-Keeps i s id)
          (λ a. Keeps-pure (a, false))).at
        db h
  written-Follows p f id (some j) db good h = step-Follows i s p f db good h

  write_or_read-Keeps :
      (p : Job → Bool) (f : Job → Job) (id : ℕ)
      → IsStep f
      → Keeps (Follows i s) (write_or_read p f id)
  unfolding write_or_read
  write_or_read-Keeps p f id good = record {
    at = λ db h. written-Follows p f id (find p db.generation_jobs) db good h;
  }

  cleared-Keeps :
      (p : Job → Bool) (f : Job → Job) (read : Tx Job) (o : Option Job)
      → IsStep f
      → Keeps (Follows i s) read
      → Keeps (Follows i s) (cleared_or_read p f read o)
  cleared-Keeps p f read none good keeps = search (keeps_rules, keeps)
  cleared-Keeps p f read (some j) good keeps =
      search (keeps_rules, update_job-Keeps, increment_revision-Keeps, good) depth 20

  pub prepare-Keeps :
      (c : Clock) (id : ℕ) (p : PreparedJob) → Keeps (Follows i s) (prepare_generation_job c id p)
  unfolding prepare_generation_job
  prepare-Keeps c id p =
      search (keeps_rules, step_rules, update_job-Keeps, increment_revision-Keeps) depth 20

  release_row-Keeps : (c : Clock) (id : ℕ) → Keeps (Follows i s) (release_row c id)
  unfolding release_row
  release_row-Keeps c id = record {
    at = λ db h.
        (write_or_read-Keeps (releasable id db.mining_leases) (set_released c) id
            (set_released-IsStep c)).at
          db h;
  }

  pub mark_released-Keeps :
      (c : Clock) (id : ℕ) → Keeps (Follows i s) (mark_resources_released c id)
  unfolding mark_resources_released
  mark_released-Keeps c id =
      search (keeps_rules, release_row-Keeps, increment_revision-Keeps) depth 20

  pub request-Keeps :
      (c : Clock) (id user : ℕ) → Keeps (Follows i s) (request_cancellation c id user)
  unfolding request_cancellation
  request-Keeps c id user =
      search
        (keeps_rules, step_rules, update_job-Keeps, increment_revision-Keeps, select_own_job-Keeps)
        depth 20

  pub clear-Keeps :
      (c : Clock) (id user : ℕ) (m : String) → Keeps (Follows i s) (clear_cancellation c id user m)
  unfolding clear_cancellation
  clear-Keeps c id user m = record {
    at = λ db h.
        (cleared-Keeps (clearable id user) (set_cleared c (trim_space m)) (select_own_job id user)
            (find (clearable id user) db.generation_jobs) (set_cleared-IsStep c (trim_space m))
            (select_own_job-Keeps i s id user)).at
          db h;
  }

  pub confirm-Keeps : (c : Clock) (id : ℕ) → Keeps (Follows i s) (confirm_cancellation c id)
  unfolding confirm_cancellation
  confirm-Keeps c id = record {
    at = λ db h.
        (cleared-Keeps (confirmable id) (set_confirmed c) (select_job id)
            (find (confirmable id) db.generation_jobs) (set_confirmed-IsStep c)
            (select_job-Keeps i s id)).at
          db h;
  }

  bind_row-Keeps :
      (c : Clock) (id : ℕ) (prompt : String) → Keeps (Follows i s) (bind_row c id prompt)
  unfolding bind_row
  bind_row-Keeps c id prompt = record {
    at = λ db h.
        elim (Bool-cases
          (any (unbound id) db.generation_jobs && not (prompt_free prompt db.generation_jobs))) [
            | inl taken ↦ rw taken tt
            | inr free ↦ rw free (
                (write_or_read-Keeps (unbound id) (set_prompt c prompt) id
                    (set_prompt-IsStep c prompt)).at
                  db h)
          ];
  }

  bind_request-Keeps :
      (job : Job) (prompt : String) (o : Option ℕ) → Keeps (Follows i s) (bind_request job prompt o)
  bind_request-Keeps job prompt none = record { at = λ db h. h }
  bind_request-Keeps job prompt (some user) = record {
    at = λ db h. aside-Follows i s db _ h refl refl;
  }

  bind_lease-Keeps : (job : Job) (prompt : String) → Keeps (Follows i s) (bind_lease job prompt)
  unfolding bind_lease
  bind_lease-Keeps job prompt = record { at = λ db h. aside-Follows i s db _ h refl refl }

  pub bind_prompt-Keeps :
      (c : Clock) (id : ℕ) (prompt : String)
      → Keeps (Follows i s) (bind_generation_job_prompt c id prompt)
  unfolding bind_generation_job_prompt bind_trimmed
  bind_prompt-Keeps c id prompt =
      search
        (
          keeps_rules, bind_row-Keeps, bind_request-Keeps, bind_lease-Keeps,
          increment_revision-Keeps,
        )
        depth 20

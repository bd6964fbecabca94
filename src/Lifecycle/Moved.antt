-- ===== src/Lifecycle/Moved.antt =====
-- TransitionGenerationJob of internal/store/generation_job.go follows the graph.
use personal_cloud_ai_servic.Lifecycle.{moves}
use personal_cloud_ai_servic.Jobs.Notify.{is_failed, create_notification}
use personal_cloud_ai_servic.Lifecycle.Rewrites.{step_rules}
use personal_cloud_ai_servic.Lifecycle.History.{
  Follows, update_job-Keeps, increment_revision-Keeps, update-Follows, record_transition-Keeps,
  create_notification-Keeps, owner_revision-Keeps, Origin,
}
use personal_cloud_ai_servic.Db.Keeps.{Keeps, keeps_rules, After, After-bind, Ends-read}
use personal_cloud_ai_servic.Jobs.Transition.{
  move_state, amend, transition_row, transition_generation_job, Report, report_of, set_state,
  move_allowed,
}
use personal_cloud_ai_servic.Db.{Clock, Db, no_rows, ◌>>◌, pure}
use personal_cloud_ai_servic.Jobs.{
  has_job_id, update_job, select_job, rewritten_job, record_transition, increment_owner_revision,
  increment_revision,
}
use personal_cloud_ai_servic.Domain.Job.{
  JobState, Job, TransitionParams, can_transition, valid, state_eq, JobTransition, terminal,
}
use personal_cloud_ai_servic.Prelude.{
  ℕ, find, ◌≡◌, Option, some, Bool-cases, true, find_sound, update, inr, arith, ltb, inl,
  some_unique, ◌||◌, none, subst, sym, ◌&&◌, str_eq, refl, Bool, is_some, is_none, false,
  Option-cases,
}

module _ (i : ℕ) (s : Origin) where
  -- The row that a call locked is the job's own row, where it has the job's id.
  own_row :
      (id : ℕ) (db : Db) (current : Job)
      → find (has_job_id id) db.generation_jobs ≡ some current
      → (h : Follows i s db) → has_job_id id h.job ≡ true
      → current ≡ h.job
  unfolding has_job_id
  own_row id db current e h same =
      let mine : has_job_id i h.job ≡ true =
        find_sound (has_job_id i) db.generation_jobs h.stored in
      let one : id ≡ i = ground arith in
      some_unique (find (has_job_id id) db.generation_jobs) e
        (subst (λ n. find (has_job_id n) db.generation_jobs ≡ some h.job) (sym one) h.stored)

  moved_row :
      (c : Clock) (id : ℕ) (current : Job) (state : JobState) (r : Report) (db : Db)
      → find (has_job_id id) db.generation_jobs ≡ some current
      → can_transition current.state state ≡ true
      → (terminal state ≡ true → is_some current.resources_released_at ≡ true)
      → Follows i s db
      → Follows i s (record db {
        generation_jobs = update (has_job_id id) (set_state c state r) db.generation_jobs;
      })
  moved_row c id current state r db e allowed freed h =
      update-Follows i s (has_job_id id) (set_state c state r) db (unfold set_state in λ y. refl)
        (unfold set_state in record { begun = λ y e. e; closed = λ y e. e }) h
        (λ same.
          let one : current ≡ h.job = own_row id db current e h same in
          let step : can_transition h.job.state state ≡ true =
            subst (λ j. can_transition j.state state ≡ true) one allowed in
          let given : terminal state ≡ true → is_some h.job.resources_released_at ≡ true =
            subst (λ j. terminal state ≡ true → is_some j.resources_released_at ≡ true) one freed in
          unfold set_state in (moves h.job.state state h.follows step, λ live ended. given ended))

  moved :
      (c : Clock) (id : ℕ) (current : Job) (state : JobState) (r : Report) (o : Option Job)
      (db : Db)
      → find (has_job_id id) db.generation_jobs ≡ some current
      → can_transition current.state state ≡ true
      → (terminal state ≡ true → is_some current.resources_released_at ≡ true)
      → Follows i s db
      → After (Follows i s) (rewritten_job no_rows (has_job_id id) (set_state c state r) o db)
  moved c id current state r none db e allowed freed h = tt
  moved c id current state r (some j) db e allowed freed h =
      moved_row c id current state r db e allowed freed h

  reported-Keeps :
      (t : JobTransition) (job : Job)
      → Keeps {A = Job × Bool} (Follows i s) (do
        record_transition t
        create_notification job
        increment_owner_revision job.user_id
        increment_revision
        pure (job, true))
  reported-Keeps t job =
      search
        (
          keeps_rules, record_transition-Keeps, create_notification-Keeps, owner_revision-Keeps,
          increment_revision-Keeps,
        )
        depth 20

  move_allowed-graph :
      (current : Job) (state : JobState)
      → move_allowed current state ≡ true
      → can_transition current.state state ≡ true
  unfolding move_allowed
  move_allowed-graph current state h = ground arith

  move_allowed-release :
      (current : Job) (state : JobState)
      → move_allowed current state ≡ true
      → terminal state ≡ true
      → is_some current.resources_released_at ≡ true
  unfolding move_allowed
  move_allowed-release current state h ended = elim (Option-cases current.resources_released_at) [
    | inl kept ↦
        absurd (still_held (terminal state) current.resources_released_at kept ended (ground arith))
    | inr (t, given) ↦ rw given refl
  ]
    where
      still_held : (b : Bool) (o : Option ℕ) → o ≡ none → b ≡ true → (b && is_none o) ≡ false → ⊥
      still_held b o e f h = ground arith

  move_state-Follows :
      (c : Clock) (id : ℕ) (current : Job) (state : JobState) (r : Report) (db : Db)
      → find (has_job_id id) db.generation_jobs ≡ some current
      → can_transition current.state state ≡ true
      → (terminal state ≡ true → is_some current.resources_released_at ≡ true)
      → Follows i s db
      → After (Follows i s) (move_state c id current state r db)
  unfolding move_state update_job
  move_state-Follows c id current state r db e allowed freed h =
      After-bind (update_job no_rows (has_job_id id) (set_state c state r) db) _
        (moved c id current state r (find (has_job_id id) db.generation_jobs) db e allowed freed h)
        (λ job. reported-Keeps _ job)

  amend-Keeps :
      (c : Clock) (id : ℕ) (current : Job) (r : Report) → Keeps (Follows i s) (amend c id current r)
  unfolding amend
  amend-Keeps c id current r =
      search (keeps_rules, step_rules, update_job-Keeps, increment_revision-Keeps) depth 20

  transition_row-Follows :
      (c : Clock) (id : ℕ) (params : TransitionParams) (current : Job) (db : Db)
      → find (has_job_id id) db.generation_jobs ≡ some current
      → Follows i s db
      → After (Follows i s) (transition_row c id params current db)
  unfolding transition_row
  transition_row-Follows c id params current db e h =
      let r = report_of params current in
      elim (Bool-cases (ltb r.attempt 1 || ltb 100 r.attempt)) [
        | inl wild ↦ rw wild tt
        | inr tame ↦
            rw tame
              (elim (Bool-cases
                (is_failed params.state && (str_eq r.message "" || str_eq r.error_code ""))) [
                  | inl mute ↦ rw mute tt
                  | inr said ↦ rw said (elim (Bool-cases (state_eq current.state params.state)) [
                    | inl same ↦ rw same ((amend-Keeps c id current r).at db h)
                    | inr other ↦ elim (Bool-cases (move_allowed current params.state)) [
                      | inr refused ↦ rw (refused, other) tt
                      | inl free ↦
                          rw (free, other)
                            (move_state-Follows c id current params.state r db e
                              (move_allowed-graph current params.state free)
                              (move_allowed-release current params.state free) h)
                    ]
                  ])
                ])
      ]

  pub transition-Keeps :
      (c : Clock) (id : ℕ) (params : TransitionParams)
      → Keeps (Follows i s) (transition_generation_job c id params)
  unfolding transition_generation_job select_job
  transition-Keeps c id params = record {
    at = λ db h. elim (Bool-cases (valid params.state)) [
      | inr unknown ↦ rw unknown tt
      | inl known ↦ rw known (
          Ends-read (λ _ db. Follows i s db) _ no_rows
            (λ db. find (has_job_id id) db.generation_jobs) db
            (λ current e. transition_row-Follows c id params current db e h))
    ];
  }

-- ===== src/Dispatch/Due.antt =====
-- Whose turn it is for the dispatcher, described apart from its query
-- (internal/store/generation_dispatch.go).
-- A job of a batch may start: its batch is not cancelled, it is ready, no sibling is active or comes
-- before it, and a slot for batch jobs is free.
use personal_cloud_ai_servic.Jobs.Create.{same_owner}
use personal_cloud_ai_servic.Domain.Gpu.{priority_head_start}
use personal_cloud_ai_servic.Dispatch.Turn.{first_job-All, first_job-first}
use personal_cloud_ai_servic.Jobs.{has_job_id, owned_by}
use personal_cloud_ai_servic.Domain.Job.{Job, state_eq, preparing, uploading, waiting_for_resources}
use personal_cloud_ai_servic.Domain.User.{User}
use personal_cloud_ai_servic.Dispatch.{
  job_head_start, job_precedes, next_candidate, lease_over, dispatchable, batch_open, batch_turn,
  blocks, is_draft, is_waiting_job, active_batch_jobs, is_active_state,
}
use personal_cloud_ai_servic.Db.{Clock, Db, second}
use personal_cloud_ai_servic.Prelude.{
  ℕ, List, any, Option, keep, ◌≡◌, ◌==◌, is_none, if◌then◌else◌, ◌+◌, false, true, some, Bool, All,
  ◌&&◌, ◌<◌, ◌≤◌, none, arith, ◌∷◌, is_some, Bool-cases, All-imply, All-keep, [], refl, ◌*◌,
  keep-All, inl, ◌||◌, Option-cases, inr, not, ltb, count,
}

pub record IsBatchDue (max_active : ℕ) (db : Db) (j : Job) (batch : ℕ) : Type 0 where
  pub wanted :
      any (λ b. (b.id == batch) && is_some b.cancellation_requested_at) db.generation_batches
      ≡ false
  pub ready :
      (is_draft j.state
        || (is_some j.dispatch_queued_at
            && (state_eq j.state preparing
                || state_eq j.state uploading
                || state_eq j.state waiting_for_resources)))
      ≡ true
  pub first :
      any
        (λ k.
          same_owner k.batch_id j.batch_id
          && not (k.id == j.id)
          && (is_active_state k.state
              || (is_draft k.state
                  && ltb k.batch_position j.batch_position
                  && is_none k.cancellation_requested_at)))
        db.generation_jobs
      ≡ false
  pub slot :
      count
        (λ k. is_some k.batch_id && not (k.id == j.id) && is_active_state k.state)
        db.generation_jobs
      < max_active

-- A job may be claimed for dispatch.
pub record IsDue (c : Clock) (max_active : ℕ) (db : Db) (j : Job) : Type 0 where
  pub unsent : is_none j.prompt_id ≡ true
  pub unbegun : is_none j.submission_started_at ≡ true
  pub unclosed : is_none j.dispatch_closed_at ≡ true
  pub unreleased : is_none j.resources_released_at ≡ true
  pub uncancelled : is_none j.cancellation_requested_at ≡ true
  pub free : (until : ℕ) → j.dispatch_until ≡ some until → until < c.clock
  pub alone :
      j.batch_id ≡ none → (is_some j.dispatch_queued_at ≡ true) × (is_waiting_job j.state ≡ true)
  pub batched : (batch : ℕ) → j.batch_id ≡ some batch → IsBatchDue max_active db j batch

-- What an owner with queue priority gains.
abbrev pub bonus : List User → Option ℕ → ℕ
bonus users owner =
    if any (λ u. owned_by owner u.id && u.queue_priority) users
    then priority_head_start * second
    else 0

-- The job `j` was created no later than `k`, the head starts counted in, and under the lower id where
-- this ties.
abbrev pub ComesFirst : List User → Job → Job → Type 0
ComesFirst users j k =
    (j.created_at + bonus users k.user_id ≤ k.created_at + bonus users j.user_id)
    × (j.created_at + bonus users k.user_id ≡ k.created_at + bonus users j.user_id → j.id ≤ k.id)

unowned : (users : List User) → any (λ u. owned_by none u.id && u.queue_priority) users ≡ false
unfolding any
unowned [] = refl
unowned (u ∷ us) = unowned us

same_owners :
    (id : ℕ) (users : List User)
    → any (λ u. (u.id == id) && u.queue_priority) users
      ≡ any (λ u. owned_by (some id) u.id && u.queue_priority) users
unfolding any
same_owners id [] = refl
same_owners id (u ∷ us) = ground (arith, same_owners id us)

head_start-bonus : (users : List User) (o : Option ℕ) → job_head_start users o ≡ bonus users o
unfolding job_head_start
head_start-bonus users none = rw (unowned users) refl
head_start-bonus users (some id) = rw (same_owners id users) refl

comes_first :
    (users : List User) (j k : Job) → job_precedes users k j ≡ false → ComesFirst users j k
unfolding job_precedes
comes_first users j k h =
    let own = head_start-bonus users j.user_id in
    let other = head_start-bonus users k.user_id in
    (ground (arith, h, own, other), λ tie. ground (arith, h, own, other, tie))

lease-free :
    (o : Option ℕ) (t : ℕ) → lease_over o t ≡ true → (until : ℕ) → o ≡ some until → until < t
lease-free none t h until e = absurd (ground arith)
lease-free (some u) t h until e = ground (arith, h, e)

free-lease :
    (o : Option ℕ) (t : ℕ) → ((until : ℕ) → o ≡ some until → until < t) → lease_over o t ≡ true
free-lease none t h = refl
free-lease (some u) t h = ground (arith, h u refl)

module _ (c : Clock) (max_active : ℕ) (db : Db) (j : Job) where
  alone_due :
      dispatchable c max_active db j ≡ true
      → j.batch_id ≡ none
      → (is_some j.dispatch_queued_at ≡ true) × (is_waiting_job j.state ≡ true)
  unfolding dispatchable
  alone_due h e = (ground (arith, h, e), ground (arith, h, e))

  batch_alive :
      (batch : ℕ)
      → j.batch_id ≡ some batch
      → batch_open db.generation_batches j.batch_id ≡ true
      → any (λ b. (b.id == batch) && is_some b.cancellation_requested_at) db.generation_batches
        ≡ false
  unfolding batch_open
  batch_alive batch e h =
      let g : batch_open db.generation_batches (some batch) ≡ true = rw e at h in ground (arith, g)

  batch_due :
      (batch : ℕ)
      → dispatchable c max_active db j ≡ true
      → j.batch_id ≡ some batch
      → IsBatchDue max_active db j batch
  unfolding dispatchable batch_turn blocks active_batch_jobs
  batch_due batch h e = record {
    wanted = batch_alive batch e (ground (arith, h));
    ready = ground (arith, h, e);
    first = ground (arith, h, e);
    slot = ground (arith, h, e);
  }

  dispatchable-IsDue : dispatchable c max_active db j ≡ true → IsDue c max_active db j
  unfolding dispatchable
  dispatchable-IsDue h = record {
    unsent = ground (arith, h);
    unbegun = ground (arith, h);
    unclosed = ground (arith, h);
    unreleased = ground (arith, h);
    uncancelled = ground (arith, h);
    free = lease-free j.dispatch_until c.clock (ground (arith, h));
    alone = alone_due h;
    batched = λ batch e. batch_due batch h e;
  }

  due-dispatchable : IsDue c max_active db j → dispatchable c max_active db j ≡ true
  unfolding dispatchable batch_open batch_turn blocks active_batch_jobs
  due-dispatchable h =
      let lease = free-lease j.dispatch_until c.clock h.free in
      elim (Option-cases j.batch_id) [
        | inl e ↦
            let (queued, waiting) = h.alone e in
            rw (e, h.unsent, h.unbegun, h.unclosed, h.unreleased, h.uncancelled, lease, queued)
              waiting
        | inr (batch, e) ↦
            let b = h.batched batch e in
            ground (
              arith, e, h.unsent, h.unbegun, h.unclosed, h.unreleased, h.uncancelled, lease,
              b.wanted, b.ready, b.first, b.slot,
            )
      ]

kept-All {κ} :
    (P : Job → Type κ) (q : Job → Bool) (rows : List Job)
    → All P (keep q rows)
    → All (λ k. q k ≡ true → P k) rows
unfolding keep
kept-All P q [] h = tt
kept-All P q (j ∷ js) h = elim (Bool-cases (q j)) [
  | inl e ↦ let g : All P (j ∷ keep q js) = rw e at h in (λ _. g.0, kept-All P q js g.1)
  | inr e ↦ let g : All P (keep q js) = rw e at h in (λ t. absurd (ground arith), kept-All P q js g)
]

any_stored : (rows : List Job) → All (λ k. any (has_job_id k.id) rows ≡ true) rows
unfolding any has_job_id
any_stored [] = tt
any_stored (j ∷ js) = (ground arith, All-imply js (λ k h. ground (arith, h)) (any_stored js))

-- The dispatcher's candidate is one of the jobs and is due: it is not sent, begun, closed, released or
-- cancelled, no lease on it runs, alone it is queued and waits for resources, and in a batch it is
-- ready, the batch goes on, no sibling is active or before it, and a slot for batch jobs is free. And of all jobs that are due it comes first in the order of creation with the owner's head start, under the lowest id
-- where this ties.
pub candidate_in_turn :
    (c : Clock) (max_active : ℕ) (db : Db) (j : Job)
    → next_candidate c max_active db ≡ some j
    → (any (has_job_id j.id) db.generation_jobs ≡ true)
      × IsDue c max_active db j
      × All (λ k. IsDue c max_active db k → ComesFirst db.users j k) db.generation_jobs
unfolding next_candidate
candidate_in_turn c max_active db j h =
    let rows = db.generation_jobs in
    let due = dispatchable c max_active db in
    (
      first_job-All (λ k. any (has_job_id k.id) rows ≡ true) db.users (keep due rows) j
          (All-keep (λ k. any (has_job_id k.id) rows ≡ true) due rows (any_stored rows)) h,
      dispatchable-IsDue c max_active db j
          (first_job-All (λ k. due k ≡ true) db.users (keep due rows) j (keep-All due rows) h),
      All-imply rows
          (λ k late is_due.
            comes_first db.users j k (late (due-dispatchable c max_active db k is_due)))
          (kept-All (λ k. job_precedes db.users k j ≡ false) due rows
            (first_job-first db.users (keep due rows) j h)),
    )

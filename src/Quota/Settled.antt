-- ===== src/Quota/Settled.antt =====
-- What a second reservation, a commit and a release do (internal/store/generation_quota.go).
use personal_cloud_ai_servic.Quota.Charging.{select_user-misses, reserve_kind-Ends}
use personal_cloud_ai_servic.Dispatch.{is_waiting_job}
use personal_cloud_ai_servic.Jobs.Rewritten.{Ends-update}
use personal_cloud_ai_servic.Db.Keeps.{Ends, Ends-read, Ends-ok, bind-ok, bind-err}
use personal_cloud_ai_servic.Domain.Job.{Job}
use personal_cloud_ai_servic.Prelude.{
  ℕ, Bool, ◌≡◌, find, Option, refl, some, is_some, false, true, Bool-cases, ◌∙◌, none, ap, inl, inr,
  is_none, ◌||◌, str_eq, find-update, find_sound, arith, not, Option-cases,
}
use personal_cloud_ai_servic.Jobs.{
  has_job_id, select_job, increment_revision, is_own_job, select_own_job, prompt_text,
}
use personal_cloud_ai_servic.Db.{Clock, Db, ok, no_rows, row_or}
use personal_cloud_ai_servic.Quota.{
  reserve_quick_generation_for_job, release_quick_generation_for_job,
  commit_quick_generation_for_job, set_committed, quota_kind, release_reserved, reserve_for,
  Reservation, set_reserved, book, reserve_kind, charge, has_user_id, select_user,
}

-- The job of a reservation holds it, whether from this call or from before it.
abbrev IsReserved : ℕ → ℕ → Reservation × Bool → Db → Type 0
IsReserved id user r db =
    (job : Job) × (find (is_own_job id user) db.generation_jobs ≡ some job)
    × (job.quota_reserved_on ≡ some r.0.usage_date)
    × (record { user_id = user; usage_date = r.0.usage_date; kind = quota_kind job.template_id }
        ≡ r.0)

reserved_row :
    (c : Clock) (day id user : ℕ) (j : Job)
    → is_own_job id user (set_reserved c day j) ≡ is_own_job id user j
unfolding is_own_job has_job_id set_reserved
reserved_row c day id user j = refl

own_id : (id user : ℕ) (j : Job) → is_own_job id user j ≡ true → has_job_id id j ≡ true
unfolding is_own_job
own_id id user j h = ground arith

book-IsReserved :
    (c : Clock) (day id user : ℕ) (db : Db) (job : Job)
    → find (is_own_job id user) db.generation_jobs ≡ some job
    → Ends (IsReserved id user) (book c day id user (quota_kind job.template_id) db)
unfolding book charge increment_revision
book-IsReserved c day id user db job found =
    let own = own_id id user job (find_sound (is_own_job id user) db.generation_jobs found) in
    Ends-update (IsReserved id user) _ no_rows (has_job_id id) (set_reserved c day) _ (λ j g. (
      set_reserved c day job,
      find-update (is_own_job id user) (has_job_id id) (set_reserved c day) db.generation_jobs
            (reserved_row c day id user) found
          ∙ rw own refl,
      (unfold set_reserved in refl),
      (unfold set_reserved in refl),
    ))

kind-IsReserved :
    (c : Clock) (day id user : ℕ) (db : Db) (job : Job)
    → find (is_own_job id user) db.generation_jobs ≡ some job
    → Ends (IsReserved id user) (reserve_kind c day id user (quota_kind job.template_id) db)
kind-IsReserved c day id user db job found =
    elim (Option-cases (find (has_user_id user) db.users)) [
      | inl gone ↦
          unfold reserve_kind in
          rw (bind-err (select_user user) _ db (select_user-misses user db gone)) tt
      | inr (u, e) ↦
          reserve_kind-Ends (IsReserved id user) c day id user (quota_kind job.template_id) db e
            refl (λ _ _. book-IsReserved c day id user db job found)
    ]

for-IsReserved :
    (c : Clock) (day id user : ℕ) (db : Db) (job : Job) (o : Option ℕ)
    → find (is_own_job id user) db.generation_jobs ≡ some job
    → job.quota_reserved_on ≡ o
    → Ends (IsReserved id user) (reserve_for c day id user job o db)
for-IsReserved c day id user db job (some reserved) found on = (job, found, on, refl)
for-IsReserved c day id user db job none found on =
    elim (Bool-cases (not (is_waiting_job job.state))) [
      | inl early ↦ rw early tt
      | inr due ↦ rw due (kind-IsReserved c day id user db job found)
    ]

reserve-IsReserved :
    (c : Clock) (day id user : ℕ) (db : Db)
    → Ends (IsReserved id user) (reserve_quick_generation_for_job c day id user db)
unfolding reserve_quick_generation_for_job select_own_job
reserve-IsReserved c day id user db =
    Ends-read (IsReserved id user) _ no_rows (λ db. find (is_own_job id user) db.generation_jobs) db
      (λ job found. for-IsReserved c day id user db job job.quota_reserved_on found refl)

held :
    (c : Clock) (day id user reserved : ℕ) (db : Db) (job : Job)
    → find (is_own_job id user) db.generation_jobs ≡ some job
    → job.quota_reserved_on ≡ some reserved
    → reserve_quick_generation_for_job c day id user db
      ≡ ok (
        (
          record { user_id = user; usage_date = reserved; kind = quota_kind job.template_id },
          false,
        ),
        db,
      )
unfolding reserve_quick_generation_for_job
held c day id user reserved db job e f =
    bind-ok (select_own_job id user) _ db (unfold select_own_job in ap (λ o. row_or no_rows o db) e)
    ∙ ap (λ o. reserve_for c day id user job o db) f

-- After a successful ReserveQuickGenerationForJob, the same call on any day and at any later time, as
-- the next one, answers with the same reservation and its flag false, and leaves the database as it
-- is: nothing is charged twice.
pub reserve_twice :
    (c c' : Clock) (day day' id user : ℕ) (db db' : Db) (r : Reservation) (b : Bool)
    → reserve_quick_generation_for_job c day id user db ≡ ok ((r, b), db')
    → reserve_quick_generation_for_job c' day' id user db' ≡ ok ((r, false), db')
reserve_twice c c' day day' id user db db' r b made =
    let (job, found, on, same) =
      Ends-ok (IsReserved id user) (reserve_quick_generation_for_job c day id user db)
        (reserve-IsReserved c day id user db) made in
    held c' day' id user r.usage_date db' job found on ∙ ap (λ s. ok ((s, false), db')) same

pub release-read :
    (c : Clock) (id : ℕ) (db : Db) (job : Job)
    → find (has_job_id id) db.generation_jobs ≡ some job
    → release_quick_generation_for_job c id db ≡ release_reserved c id job job.quota_reserved_on db
unfolding release_quick_generation_for_job
release-read c id db job e =
    bind-ok (select_job id) _ db (unfold select_job in ap (λ o. row_or no_rows o db) e)

-- Nothing is refunded for a job whose run was committed.
released_committed :
    (c : Clock) (id : ℕ) (db : Db) (job : Job) (o : Option ℕ)
    → is_some job.quota_committed_at ≡ true
    → release_reserved c id job o db ≡ ok (false, db)
released_committed c id db job none f = refl
released_committed c id db job (some day) f = rw f refl

committed_row : (c : Clock) (id : ℕ) (f : Job) → has_job_id id (set_committed c f) ≡ has_job_id id f
unfolding has_job_id set_committed
committed_row c id f = refl

-- The job of a commit is committed, whether by this call or before it.
abbrev IsCommitted : ℕ → Bool → Db → Type 0
IsCommitted id b db =
    (job : Job) × (find (has_job_id id) db.generation_jobs ≡ some job)
    × (is_some job.quota_committed_at ≡ true)

commit-Ends :
    (c : Clock) (id : ℕ) (db : Db) → Ends (IsCommitted id) (commit_quick_generation_for_job c id db)
unfolding commit_quick_generation_for_job select_job increment_revision
commit-Ends c id db =
    Ends-read (IsCommitted id) _ no_rows (λ db. find (has_job_id id) db.generation_jobs) db
      (λ job e. elim (Bool-cases (is_some job.quota_committed_at)) [
        | inl done ↦ rw done (job, e, done)
        | inr later ↦
            rw later
              (elim (Bool-cases
                (is_none job.quota_reserved_on || str_eq (prompt_text job.prompt_id) "")) [
                  | inl unbound ↦ rw unbound tt
                  | inr bound ↦ rw bound (
                      Ends-update (IsCommitted id) _ no_rows (has_job_id id) (set_committed c) db
                        (λ j g. (
                          set_committed c j,
                          find-update (has_job_id id) (has_job_id id) (set_committed c)
                                db.generation_jobs (committed_row c id) g
                              ∙ rw (find_sound (has_job_id id) db.generation_jobs g),
                          (unfold set_committed in refl),
                        )))
                ])
      ])

-- After a successful CommitQuickGenerationForJob, ReleaseQuickGenerationForJob at any later time
-- refunds nothing: it reports false and leaves the database as it is.
pub commit_is_final :
    (c c' : Clock) (id : ℕ) (db db' : Db) (b : Bool)
    → commit_quick_generation_for_job c id db ≡ ok (b, db')
    → release_quick_generation_for_job c' id db' ≡ ok (false, db')
commit_is_final c c' id db db' b h =
    let (job, e, f) =
      Ends-ok (IsCommitted id) (commit_quick_generation_for_job c id db) (commit-Ends c id db) h in
    release-read c' id db' job e ∙ released_committed c' id db' job job.quota_reserved_on f

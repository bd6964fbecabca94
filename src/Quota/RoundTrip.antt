-- ===== src/Quota/RoundTrip.antt =====
-- A release takes back what a reservation charged (internal/store/generation_quota.go).
use personal_cloud_ai_servic.Quota.Refund.{
  IsBooked, find-own_update, refunded, release_refunds, refunded-reads,
}
use personal_cloud_ai_servic.Dispatch.{is_waiting_job}
use personal_cloud_ai_servic.Jobs.Rewritten.{Ends-update}
use personal_cloud_ai_servic.Db.Keeps.{Ends, Ends-read, Ends-ok}
use personal_cloud_ai_servic.Quota.Charging.{quota_rows, reserve_kind-Ends}
use personal_cloud_ai_servic.Domain.Job.{Job}
use personal_cloud_ai_servic.Quota.Counters.{find-charged_user, find-upsert_usage}
use personal_cloud_ai_servic.Jobs.{
  increment_revision, has_job_id, owned_by, is_own_job, select_own_job,
}
use personal_cloud_ai_servic.Domain.Rows.{DailyUsage}
use personal_cloud_ai_servic.Domain.User.{User}
use personal_cloud_ai_servic.Prelude.{
  ℕ, Option, ◌≡◌, find, Bool, some, true, is_some, refl, false, ◌∙◌, ap, find_sound, none, arith,
  Bool-cases, count, not, ◌≤◌, find_only, inl, subst, inr, some_unique,
}
use personal_cloud_ai_servic.Db.{Clock, Db, ok, no_rows}
use personal_cloud_ai_servic.Quota.{
  book, charge, has_user_id, is_usage, Reservation, release_quick_generation_for_job,
  quick_generation_quota, quota_kind, set_reserved, reserve_for, reserve_quick_generation_for_job,
  Quota,
}

abbrev Books : ℕ → ℕ → ℕ → User → Option DailyUsage → Reservation × Bool → Db → Type 0
Books day id user u o (r, made) db = made ≡ true → IsBooked day id user u o r db

book-IsBooked :
    (c : Clock) (day id user : ℕ) (db : Db) (job : Job) (u : User) (o : Option DailyUsage)
    → find (has_job_id id) db.generation_jobs ≡ some job
    → job.user_id ≡ some user
    → is_some job.quota_committed_at ≡ false
    → find (has_user_id user) db.users ≡ some u
    → find (is_usage user day) db.daily_usage ≡ o
    → Ends (Books day id user u o) (book c day id user (quota_kind job.template_id) db)
unfolding book charge increment_revision
book-IsBooked c day id user db job u o row owned clean e f =
    Ends-update (Books day id user u o) _ no_rows (has_job_id id) (set_reserved c day) _
      (λ j g made. record {
        job = set_reserved c day job;
        row =
            find-own_update (has_job_id id) (set_reserved c day) db.generation_jobs
              (unfold has_job_id set_reserved in λ y. refl) row;
        reserved = (unfold set_reserved in refl);
        uncommitted = (unfold set_reserved in clean);
        owned = (unfold set_reserved in owned);
        same_kind = (unfold set_reserved in refl);
        counted = find-charged_user (quota_kind job.template_id) user db.users e;
        used = find-upsert_usage (quota_kind job.template_id) user day db.daily_usage o f;
      })

reserve_for-IsBooked :
    (c : Clock) (day id user : ℕ) (db : Db) (job : Job) (r : Option ℕ) (u : User)
    (o : Option DailyUsage)
    → find (has_job_id id) db.generation_jobs ≡ some job
    → job.user_id ≡ some user
    → is_some job.quota_committed_at ≡ false
    → find (has_user_id user) db.users ≡ some u
    → find (is_usage user day) db.daily_usage ≡ o
    → Ends (Books day id user u o) (reserve_for c day id user job r db)
reserve_for-IsBooked c day id user db job (some d) u o row owned clean e f =
    λ yes. absurd (ground arith)
reserve_for-IsBooked c day id user db job none u o row owned clean e f =
    elim (Bool-cases (not (is_waiting_job job.state))) [
      | inl early ↦ rw early tt
      | inr due ↦ rw due (
          reserve_kind-Ends (Books day id user u o) c day id user (quota_kind job.template_id) db e
            f (λ _ _. book-IsBooked c day id user db job u o row owned clean e f))
    ]

owner_of : (o : Option ℕ) (user : ℕ) → owned_by o user ≡ true → o ≡ some user
owner_of none user h = absurd (ground arith)
owner_of (some n) user h = let same : n ≡ user = ground arith in ap some same

own_row_owner :
    (id user : ℕ) (job : Job) → is_own_job id user job ≡ true → owned_by job.user_id user ≡ true
unfolding is_own_job
own_row_owner id user job h = ground arith

own_row_id : (id user : ℕ) (job : Job) → is_own_job id user job ≡ true → has_job_id id job ≡ true
unfolding is_own_job
own_row_id id user job h = ground arith

reserved-IsBooked :
    (c : Clock) (day id user : ℕ) (db : Db) (job : Job) (u : User)
    → count (has_job_id id) db.generation_jobs ≤ 1
    → find (is_own_job id user) db.generation_jobs ≡ some job
    → is_some job.quota_committed_at ≡ false
    → find (has_user_id user) db.users ≡ some u
    → Ends
        (Books day id user u (find (is_usage user day) db.daily_usage))
        (reserve_quick_generation_for_job c day id user db)
unfolding reserve_quick_generation_for_job select_own_job
reserved-IsBooked c day id user db job u one found clean e =
    let own : is_own_job id user job ≡ true =
      find_sound (is_own_job id user) db.generation_jobs found in
    let row : find (has_job_id id) db.generation_jobs ≡ some job =
      find_only (has_job_id id) db.generation_jobs (is_own_job id user) found
        (own_row_id id user job own) one in
    Ends-read (Books day id user u (find (is_usage user day) db.daily_usage)) _ no_rows
      (λ db. find (is_own_job id user) db.generation_jobs) db
      (λ j g.
        subst
          (λ x.
            Ends (Books day id user u (find (is_usage user day) db.daily_usage))
              (reserve_for c day id user x x.quota_reserved_on db))
          (some_unique (find (is_own_job id user) db.generation_jobs) found g)
          (reserve_for-IsBooked c day id user db job job.quota_reserved_on u
            (find (is_usage user day) db.daily_usage) row
            (owner_of job.user_id user (own_row_owner id user job own)) clean e refl))

-- What a release reports and the quota that is reported after it.
pub record IsRestored (c : Clock) (day id user : ℕ) (q : Quota) (db : Db) : Type 0 where
  pub after : Db
  pub released : release_quick_generation_for_job c id db ≡ ok (true, after)
  pub reported : quick_generation_quota day user after ≡ ok (q, after)

-- Where job ids are unique and the job's run was not committed: after a reservation that charged,
-- ReleaseQuickGenerationForJob at any later time succeeds and reports a refund, and the quota that is
-- reported for the user and the day is that of before the reservation.
pub reserve_then_release :
    (c c' : Clock) (day id user : ℕ) (db db' db0 : Db) (job : Job) (q : Quota) (r : Reservation)
    → count (has_job_id id) db.generation_jobs ≤ 1
    → find (is_own_job id user) db.generation_jobs ≡ some job
    → is_some job.quota_committed_at ≡ false
    → quick_generation_quota day user db ≡ ok (q, db0)
    → reserve_quick_generation_for_job c day id user db ≡ ok ((r, true), db')
    → IsRestored c' day id user q db'
reserve_then_release c c' day id user db db' db0 job q r one found clean reads made =
    let (u, e, same) = quota_rows day user db db0 q reads in
    let o = find (is_usage user day) db.daily_usage in
    let h : IsBooked day id user u o r db' =
      Ends-ok (Books day id user u o) (reserve_quick_generation_for_job c day id user db)
        (reserved-IsBooked c day id user db job u one found clean e) made refl in
    record {
      after = refunded c' day id user r.kind db';
      released = release_refunds c' day id user u o r db' h;
      reported =
          refunded-reads c' day id user u o r db' h
          ∙ ap (λ x. ok (x, refunded c' day id user r.kind db')) same;
    }

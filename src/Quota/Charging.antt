-- ===== src/Quota/Charging.antt =====
-- What the reservations of internal/store/generation_quota.go do to the reported quota.
use personal_cloud_ai_servic.Dispatch.{is_waiting_job}
use personal_cloud_ai_servic.Domain.Job.{Job}
use personal_cloud_ai_servic.Jobs.Rewritten.{Ends-update}
use personal_cloud_ai_servic.Jobs.{increment_revision, has_job_id, select_own_job, is_own_job}
use personal_cloud_ai_servic.Db.Keeps.{
  bind-ok, Ends, Ends-ok, Ends-read, differ, bind-err, first_result,
}
use personal_cloud_ai_servic.Quota.Counters.{
  charged_quota, quota_of, find-charged_user, find-upsert_usage, quota_of-charged, bucket,
}
use personal_cloud_ai_servic.Domain.Rows.{DailyUsage}
use personal_cloud_ai_servic.Db.{Db, ok, row_or, no_rows, Clock, err}
use personal_cloud_ai_servic.Domain.User.{User}
use personal_cloud_ai_servic.Prelude.{
  ℕ, Option, find, Bool, ◌≡◌, some, update, ap, ◌∙◌, true, false, refl, Bool-cases, not, arith, inl,
  inr, subst, none, Option-cases, sym,
}
use personal_cloud_ai_servic.Quota.{
  quick_generation_quota, QuotaKind, select_user, select_usage, Reservation, has_user_id, is_usage,
  add_total, upsert_usage, Quota, book, reserve_kind, reached, bucket_of, charge, image_quota,
  total_limit_of, total_used_of, video_quota, daily_limit_of, used_on, set_reserved,
  reserve_quick_generation_for_job, reserve_for, quota_kind,
}

select_user-reads :
    (user : ℕ) (db : Db) {u : User}
    → find (has_user_id user) db.users ≡ some u
    → select_user user db ≡ ok (u, db)
unfolding select_user
select_user-reads user db e = ap (λ o. row_or no_rows o db) e

pub select_user-misses :
    (user : ℕ) (db : Db)
    → find (has_user_id user) db.users ≡ none
    → select_user user db ≡ err no_rows
unfolding select_user
select_user-misses user db e = ap (λ o. row_or no_rows o db) e

-- What QuickGenerationQuota reports of a database whose rows are known.
pub quota_reads :
    (day user : ℕ) (db : Db) {u : User} {o : Option DailyUsage}
    → find (has_user_id user) db.users ≡ some u
    → find (is_usage user day) db.daily_usage ≡ o
    → quick_generation_quota day user db ≡ ok (quota_of u o, db)
unfolding quick_generation_quota select_usage
quota_reads day user db {u} e f =
    bind-ok (select_user user) _ db (select_user-reads user db e)
    ∙ ap (λ o. ok (quota_of u o, db)) f

charge-reads :
    (kind : QuotaKind) (day user : ℕ) (db db' : Db) {u : User} {o : Option DailyUsage}
    → find (has_user_id user) db.users ≡ some u
    → find (is_usage user day) db.daily_usage ≡ o
    → db'.users ≡ update (has_user_id user) (add_total kind) db.users
    → db'.daily_usage ≡ upsert_usage kind user day db.daily_usage
    → quick_generation_quota day user db' ≡ ok (charged_quota kind (quota_of u o), db')
charge-reads kind day user db db' {u} {o} e f g h =
    quota_reads day user db'
      (ap (find (has_user_id user)) g ∙ find-charged_user kind user db.users e)
      (ap (find (is_usage user day)) h ∙ find-upsert_usage kind user day db.daily_usage o f)
    ∙ ap (λ q. ok (q, db')) (quota_of-charged kind user day u o)

-- A charge that the limits allowed: what the quota reports after it, and that it stays within.
pub record IsCharged (day user : ℕ) (q : Quota) (r : Reservation) (db : Db) : Type 0 where
  pub reported : quick_generation_quota day user db ≡ ok (charged_quota r.kind q, db)
  pub daily_fits : reached (bucket r.kind q).daily_limit (bucket r.kind q).daily_used ≡ false
  pub total_fits : reached (bucket r.kind q).total_limit (bucket r.kind q).total_used ≡ false
  pub same_user : r.user_id ≡ user
  pub same_day : r.usage_date ≡ day

abbrev Charges : ℕ → ℕ → Quota → Reservation × Bool → Db → Type 0
Charges day user q (r, made) db = made ≡ true → IsCharged day user q r db

bucket-quota_of :
    (kind : QuotaKind) (u : User) (o : Option DailyUsage)
    → bucket kind (quota_of u o) ≡ bucket_of kind u o
bucket-quota_of image_quota u o = refl
bucket-quota_of video_quota u o = refl

book-IsCharged :
    (c : Clock) (day id user : ℕ) (kind : QuotaKind) (db : Db) {u : User} {o : Option DailyUsage}
    → find (has_user_id user) db.users ≡ some u
    → find (is_usage user day) db.daily_usage ≡ o
    → reached (total_limit_of kind u) (total_used_of kind u) ≡ false
    → reached (daily_limit_of kind u) (used_on kind o) ≡ false
    → Ends (Charges day user (quota_of u o)) (book c day id user kind db)
unfolding book charge increment_revision
book-IsCharged c day id user kind db {u} {o} e f total daily =
    Ends-update (Charges day user (quota_of u o)) _ no_rows (has_job_id id) (set_reserved c day) _
      (λ j g h. record {
        reported = charge-reads kind day user db _ e f refl refl;
        daily_fits = rw (bucket-quota_of kind u o) daily;
        total_fits = rw (bucket-quota_of kind u o) total;
        same_user = refl;
        same_day = refl;
      })

-- The ways through a reservation of a kind: only the last of its tests lets it charge.
pub reserve_kind-Ends :
    (Q : Reservation × Bool → Db → Type 0) (c : Clock) (day id user : ℕ) (kind : QuotaKind)
    (db : Db) {u : User} {o : Option DailyUsage}
    → find (has_user_id user) db.users ≡ some u
    → find (is_usage user day) db.daily_usage ≡ o
    → (reached (total_limit_of kind u) (total_used_of kind u) ≡ false
        → reached (daily_limit_of kind u) (used_on kind o) ≡ false
        → Ends Q (book c day id user kind db))
    → Ends Q (reserve_kind c day id user kind db)
unfolding reserve_kind select_usage
reserve_kind-Ends Q c day id user kind db {u} {o} e f next =
    rw (bind-ok (select_user user) _ db (select_user-reads user db e))
      (elim (Bool-cases (not u.can_use_quick_generation)) [
        | inl forbidden ↦ rw forbidden tt
        | inr allowed ↦
            rw allowed (elim (Bool-cases (reached (total_limit_of kind u) (total_used_of kind u))) [
              | inl full ↦ rw full tt
              | inr total ↦
                  rw (total, f)
                    (elim (Bool-cases (reached (daily_limit_of kind u) (used_on kind o))) [
                      | inl full ↦ rw full tt
                      | inr daily ↦ rw daily (next total daily)
                    ])
            ])
      ])

reserve_for-IsCharged :
    (c : Clock) (day id user : ℕ) (job : Job) (r : Option ℕ) (db : Db) {u : User}
    {o : Option DailyUsage}
    → find (has_user_id user) db.users ≡ some u
    → find (is_usage user day) db.daily_usage ≡ o
    → Ends (Charges day user (quota_of u o)) (reserve_for c day id user job r db)
reserve_for-IsCharged c day id user job (some reserved) db e f = λ yes. absurd (ground arith)
reserve_for-IsCharged c day id user job none db {u} {o} e f =
    elim (Bool-cases (not (is_waiting_job job.state))) [
      | inl early ↦ rw early tt
      | inr due ↦ rw due (
          reserve_kind-Ends (Charges day user (quota_of u o)) c day id user
            (quota_kind job.template_id) db e f
            (book-IsCharged c day id user (quota_kind job.template_id) db e f))
    ]

pub quota_rows :
    (day user : ℕ) (db db0 : Db) (q : Quota)
    → quick_generation_quota day user db ≡ ok (q, db0)
    → (u : User) × (find (has_user_id user) db.users ≡ some u)
      × (quota_of u (find (is_usage user day) db.daily_usage) ≡ q)
unfolding quick_generation_quota
quota_rows day user db db0 q h = elim (Option-cases (find (has_user_id user) db.users)) [
  | inl missing ↦
      absurd
        (differ (sym h ∙ bind-err (select_user user) _ db (select_user-misses user db missing)))
  | inr (u, e) ↦ (u, e, first_result (sym (quota_reads day user db e refl) ∙ h))
]

-- A reservation that charges (its flag is true) adds one run to the bucket of its kind in what
-- QuickGenerationQuota reports for the user and the day, leaves the other bucket, and is made only
-- where neither limit of that bucket was reached.
pub reserve_charges_once :
    (c : Clock) (day id user : ℕ) (db db' db0 : Db) (q : Quota) (r : Reservation)
    → quick_generation_quota day user db ≡ ok (q, db0)
    → reserve_quick_generation_for_job c day id user db ≡ ok ((r, true), db')
    → IsCharged day user q r db'
unfolding reserve_quick_generation_for_job select_own_job
reserve_charges_once c day id user db db' db0 q r reads made =
    let (u, e, same) = quota_rows day user db db0 q reads in
    Ends-ok (Charges day user q) (reserve_quick_generation_for_job c day id user db)
      (Ends-read (Charges day user q) _ no_rows (λ db. find (is_own_job id user) db.generation_jobs)
        db
        (λ job _.
          subst
            (λ q.
              Ends (Charges day user q) (reserve_for c day id user job job.quota_reserved_on db))
            same (reserve_for-IsCharged c day id user job job.quota_reserved_on db e refl)))
      made refl

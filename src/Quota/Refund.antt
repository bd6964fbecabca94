-- ===== src/Quota/Refund.antt =====
-- What ReleaseQuickGenerationForJob of internal/store/generation_quota.go takes back.
use personal_cloud_ai_servic.Db.Keeps.{bind-ok}
use personal_cloud_ai_servic.Quota.Charging.{quota_reads}
use personal_cloud_ai_servic.Quota.Settled.{release-read}
use personal_cloud_ai_servic.Domain.Job.{Job}
use personal_cloud_ai_servic.Quota.Counters.{quota_of, charged_usage}
use personal_cloud_ai_servic.Jobs.{update_job, increment_revision, has_job_id, rewritten_job}
use personal_cloud_ai_servic.Domain.Rows.{DailyUsage}
use personal_cloud_ai_servic.Domain.User.{User}
use personal_cloud_ai_servic.Prelude.{
  ℕ, Option, update, ◌≡◌, find, Bool, some, true, ◌+◌, is_some, refl, false, ◌∙◌, find-update, ap,
  find_sound, none, ◌-◌, List, arith,
}
use personal_cloud_ai_servic.Db.{Clock, Db, ok, no_rows, Tx, ◌>>=◌}
use personal_cloud_ai_servic.Quota.{
  QuotaKind, refund, has_user_id, is_usage, take_total, take_usage, Reservation, add_total,
  release_quick_generation_for_job, quick_generation_quota, set_unreserved, image_quota,
  video_quota, quota_kind, release_reserved,
}

add_take : (n : ℕ) → n + 1 - 1 ≡ n
add_take n = omega arith

-- The row that an update by its own key leaves.
pub find-own_update :
    {A : Type 0} (p : A → Bool) (f : A → A) (xs : List A) {x : A}
    → ((y : A) → p (f y) ≡ p y)
    → find p xs ≡ some x
    → find p (update p f xs) ≡ some (f x)
find-own_update p f xs same h = find-update p p f xs same h ∙ rw (find_sound p xs h) refl

quota_of-refunded :
    (kind : QuotaKind) (user day : ℕ) (u : User) (o : Option DailyUsage)
    → quota_of
        (take_total kind (add_total kind u))
        (some (take_usage kind (charged_usage kind user day o)))
      ≡ quota_of u o
quota_of-refunded image_quota user day u none = rw (add_take u.generation_total_used) refl
quota_of-refunded video_quota user day u none = rw (add_take u.video_generation_total_used) refl
quota_of-refunded image_quota user day u (some d) =
    rw (add_take u.generation_total_used, add_take d.used_count) refl
quota_of-refunded video_quota user day u (some d) =
    rw (add_take u.video_generation_total_used, add_take d.video_used_count) refl

same_user :
    (kind : QuotaKind) (id : ℕ) (u : User) → has_user_id id (take_total kind u) ≡ has_user_id id u
same_user image_quota id u = refl
same_user video_quota id u = refl

same_usage :
    (kind : QuotaKind) (user day : ℕ) (d : DailyUsage)
    → is_usage user day (take_usage kind d) ≡ is_usage user day d
same_usage image_quota user day d = refl
same_usage video_quota user day d = refl

-- The database that ReleaseQuickGenerationForJob leaves.
abbrev pub refunded : Clock → ℕ → ℕ → ℕ → QuotaKind → Db → Db
refunded c day id user kind db = record db {
  daily_usage = update (is_usage user day) (take_usage kind) db.daily_usage;
  users = update (has_user_id user) (take_total kind) db.users;
  generation_jobs = update (has_job_id id) (set_unreserved c) db.generation_jobs;
  generation_job_revision = db.generation_job_revision + 1;
}

-- A charged and uncommitted job: its row, and the counters of its owner.
pub record IsBooked (day id user : ℕ) (u : User) (o : Option DailyUsage) (r : Reservation) (db : Db)
    : Type 0 where
  pub job : Job
  pub row : find (has_job_id id) db.generation_jobs ≡ some job
  pub reserved : job.quota_reserved_on ≡ some day
  pub uncommitted : is_some job.quota_committed_at ≡ false
  pub owned : job.user_id ≡ some user
  pub same_kind : quota_kind job.template_id ≡ r.kind
  pub counted : find (has_user_id user) db.users ≡ some (add_total r.kind u)
  pub used : find (is_usage user day) db.daily_usage ≡ some (charged_usage r.kind user day o)

updated_then :
    (p : Job → Bool) (f : Job → Job) (k : Job → Tx Bool) (db : Db) {j : Job}
    → find p db.generation_jobs ≡ some j
    → (update_job no_rows p f >>= k) db
      ≡ k (f j) (record db { generation_jobs = update p f db.generation_jobs })
unfolding update_job
updated_then p f k db e =
    bind-ok (update_job no_rows p f) k db (ap (λ o. rewritten_job no_rows p f o db) e)

released_row :
    (c : Clock) (day id user : ℕ) (kind : QuotaKind) (db : Db) (job : Job)
    → find (has_job_id id) db.generation_jobs ≡ some job
    → is_some job.quota_committed_at ≡ false
    → job.user_id ≡ some user
    → quota_kind job.template_id ≡ kind
    → release_reserved c id job (some day) db ≡ ok (true, refunded c day id user kind db)
unfolding refund increment_revision
released_row c day id user kind db job row open_charge owned same =
    rw (open_charge, owned, same)
      (updated_then (has_job_id id) (set_unreserved c) _
        (record db {
          daily_usage = update (is_usage user day) (take_usage kind) db.daily_usage;
          users = update (has_user_id user) (take_total kind) db.users;
        })
        row)

pub release_refunds :
    (c : Clock) (day id user : ℕ) (u : User) (o : Option DailyUsage) (r : Reservation) (db : Db)
    → IsBooked day id user u o r db
    → release_quick_generation_for_job c id db ≡ ok (true, refunded c day id user r.kind db)
release_refunds c day id user u o r db h =
    release-read c id db h.job h.row
    ∙ ap (λ d. release_reserved c id h.job d db) h.reserved
    ∙ released_row c day id user r.kind db h.job h.row h.uncommitted h.owned h.same_kind

pub refunded-reads :
    (c : Clock) (day id user : ℕ) (u : User) (o : Option DailyUsage) (r : Reservation) (db : Db)
    → IsBooked day id user u o r db
    → quick_generation_quota day user (refunded c day id user r.kind db)
      ≡ ok (quota_of u o, refunded c day id user r.kind db)
refunded-reads c day id user u o r db h =
    quota_reads day user (refunded c day id user r.kind db)
      (find-own_update (has_user_id user) (take_total r.kind) db.users (same_user r.kind user)
        h.counted)
      (find-own_update (is_usage user day) (take_usage r.kind) db.daily_usage
        (same_usage r.kind user day) h.used)
    ∙ ap (λ q. ok (q, refunded c day id user r.kind db)) (quota_of-refunded r.kind user day u o)

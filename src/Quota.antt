-- ===== src/Quota.antt =====
-- internal/store/generation_quota.go: the daily and total limits of quick generation. The counters
-- are ints that stay below 2^31 (GREATEST(x - 1, 0) is subtraction on ℕ); `day` is the Moscow
-- calendar day of now(), timezone('Europe/Moscow', now())::date.
use personal_cloud_ai_servic.Dispatch.{is_waiting_job}
use personal_cloud_ai_servic.Domain.Job.{Job}
use personal_cloud_ai_servic.Jobs.{
  update_job, select_own_job, select_job, increment_revision, has_job_id, prompt_text,
}
use personal_cloud_ai_servic.Domain.Rows.{DailyUsage}
use personal_cloud_ai_servic.Domain.User.{User}
use personal_cloud_ai_servic.Db.{
  Error, Clock, Tx, image_total_limit, image_daily_limit, row_or, ok, pure, ◌>>=◌,
  video_total_limit, video_daily_limit, no_rows, ◌>>◌, fail, quota_forbidden, job_state_conflict,
  total_limit_reached, daily_limit_reached,
}
pub mod Counters
pub mod Charging
pub mod Settled
pub mod Refund
pub mod RoundTrip
use personal_cloud_ai_servic.Prelude.{
  ℕ, String, Option, if◌then◌else◌, Bool, ◌+◌, ◌-◌, List, some, str_eq, ◌==◌, ltb, is_none, update,
  find, not, false, is_some, none, ◌&&◌, ◌∷◌, ◌||◌, leb, true,
}

pub data QuotaKind : Type 0 where
  image_quota video_quota : QuotaKind

-- QuickGenerationReservation.
pub record Reservation : Type 0 where
  pub user_id : ℕ
  pub usage_date : ℕ
  pub kind : QuotaKind

-- QuickGenerationQuotaBucket and QuickGenerationQuota.
pub record Bucket : Type 0 where
  pub daily_limit : ℕ
  pub daily_used : ℕ
  pub total_limit : ℕ
  pub total_used : ℕ

pub record Quota : Type 0 where
  pub image : Bucket
  pub video : Bucket

unfoldable pub quota_kind : String → QuotaKind
quota_kind template = if str_eq template "minimax-h3-video" then video_quota else image_quota

-- quickGenerationLimitError.
abbrev pub total_limit_error : QuotaKind → Error
total_limit_error image_quota = image_total_limit
total_limit_error video_quota = video_total_limit

abbrev pub daily_limit_error : QuotaKind → Error
daily_limit_error image_quota = image_daily_limit
daily_limit_error video_quota = video_daily_limit

abbrev pub has_user_id : ℕ → User → Bool
has_user_id id u = u.id == id

abbrev pub is_usage : ℕ → ℕ → DailyUsage → Bool
is_usage user day d = (d.user_id == user) && (d.usage_date == day)

unfoldable pub select_user : ℕ → Tx User
select_user user db = row_or no_rows (find (has_user_id user) db.users) db

abbrev pub used_on : QuotaKind → Option DailyUsage → ℕ
used_on kind none = 0
used_on image_quota (some d) = d.used_count
used_on video_quota (some d) = d.video_used_count

abbrev pub daily_limit_of : QuotaKind → User → ℕ
daily_limit_of image_quota u = u.generation_daily_limit
daily_limit_of video_quota u = u.video_generation_daily_limit

abbrev pub total_limit_of : QuotaKind → User → ℕ
total_limit_of image_quota u = u.generation_total_limit
total_limit_of video_quota u = u.video_generation_total_limit

abbrev pub total_used_of : QuotaKind → User → ℕ
total_used_of image_quota u = u.generation_total_used
total_used_of video_quota u = u.video_generation_total_used

-- A limit of 0 is no limit.
abbrev pub reached : ℕ → ℕ → Bool
reached limit used = ltb 0 limit && leb limit used

abbrev pub fresh_usage : QuotaKind → ℕ → ℕ → DailyUsage
fresh_usage image_quota user day = record {
  user_id = user;
  usage_date = day;
  used_count = 1;
  video_used_count = 0;
}
fresh_usage video_quota user day = record {
  user_id = user;
  usage_date = day;
  used_count = 0;
  video_used_count = 1;
}

abbrev pub add_usage : QuotaKind → DailyUsage → DailyUsage
add_usage image_quota d = record d { used_count = d.used_count + 1 }
add_usage video_quota d = record d { video_used_count = d.video_used_count + 1 }

abbrev pub take_usage : QuotaKind → DailyUsage → DailyUsage
take_usage image_quota d = record d { used_count = d.used_count - 1 }
take_usage video_quota d = record d { video_used_count = d.video_used_count - 1 }

abbrev pub add_total : QuotaKind → User → User
add_total image_quota u = record u { generation_total_used = u.generation_total_used + 1 }
add_total video_quota u = record u {
  video_generation_total_used = u.video_generation_total_used + 1;
}

abbrev pub take_total : QuotaKind → User → User
take_total image_quota u = record u { generation_total_used = u.generation_total_used - 1 }
take_total video_quota u = record u {
  video_generation_total_used = u.video_generation_total_used - 1;
}

-- INSERT … ON CONFLICT(user_id, usage_date) DO UPDATE.
unfoldable pub upsert_usage : QuotaKind → ℕ → ℕ → List DailyUsage → List DailyUsage
upsert_usage kind user day rows =
    if is_none (find (is_usage user day) rows)
    then fresh_usage kind user day ∷ rows
    else update (is_usage user day) (add_usage kind) rows

-- The two charging statements, and the two that take a charge back.
unfoldable pub charge : QuotaKind → ℕ → ℕ → Tx (Unit {0})
unfolding upsert_usage
charge kind user day db = ok (
  tt,
  record db {
    daily_usage = upsert_usage kind user day db.daily_usage;
    users = update (has_user_id user) (add_total kind) db.users;
  },
)

unfoldable pub refund : QuotaKind → ℕ → ℕ → Tx (Unit {0})
refund kind user day db = ok (
  tt,
  record db {
    daily_usage = update (is_usage user day) (take_usage kind) db.daily_usage;
    users = update (has_user_id user) (take_total kind) db.users;
  },
)

unfoldable pub select_usage : ℕ → ℕ → Tx (Option DailyUsage)
select_usage user day db = ok (find (is_usage user day) db.daily_usage, db)

unfoldable pub set_reserved : Clock → ℕ → Job → Job
set_reserved c day j = record j { quota_reserved_on = some day; updated_at = c.now }

unfoldable pub book : Clock → ℕ → ℕ → ℕ → QuotaKind → Tx (Reservation × Bool)
unfolding charge update_job set_reserved increment_revision
book c day id user kind = do
  charge kind user day
  _ ← update_job no_rows (has_job_id id) (set_reserved c day)
  increment_revision
  pure (record { user_id = user; usage_date = day; kind = kind }, true)

unfoldable pub reserve_kind : Clock → ℕ → ℕ → ℕ → QuotaKind → Tx (Reservation × Bool)
unfolding select_user select_usage book
reserve_kind c day id user kind = do
  u ← select_user user
  if not u.can_use_quick_generation
      then fail quota_forbidden
      else if reached (total_limit_of kind u) (total_used_of kind u)
      then fail (total_limit_error kind)
      else do
        usage ← select_usage user day
        if reached (daily_limit_of kind u) (used_on kind usage)
            then fail (daily_limit_error kind)
            else book c day id user kind

abbrev pub reserve_for : Clock → ℕ → ℕ → ℕ → Job → Option ℕ → Tx (Reservation × Bool)
reserve_for c day id user job (some reserved) =
    pure
      (record { user_id = user; usage_date = reserved; kind = quota_kind job.template_id }, false)
reserve_for c day id user job none =
    if not (is_waiting_job job.state)
    then fail job_state_conflict
    else reserve_kind c day id user (quota_kind job.template_id)

unfoldable pub reserve_quick_generation_for_job : Clock → ℕ → ℕ → ℕ → Tx (Reservation × Bool)
unfolding select_own_job quota_kind is_waiting_job reserve_kind
reserve_quick_generation_for_job c day id user = do
  job ← select_own_job id user
  reserve_for c day id user job job.quota_reserved_on

unfoldable pub set_committed : Clock → Job → Job
set_committed c j = record j { quota_committed_at = some c.now; updated_at = c.now }

unfoldable pub commit_quick_generation_for_job : Clock → ℕ → Tx Bool
unfolding select_job set_committed update_job increment_revision
commit_quick_generation_for_job c id = do
  job ← select_job id
  if is_some job.quota_committed_at
      then pure false
      else if is_none job.quota_reserved_on || str_eq (prompt_text job.prompt_id) ""
      then fail job_state_conflict
      else do
        _ ← update_job no_rows (has_job_id id) (set_committed c)
        increment_revision
        pure true

unfoldable pub set_unreserved : Clock → Job → Job
set_unreserved c j = record j { quota_reserved_on = none; updated_at = c.now }

abbrev pub refund_owner : QuotaKind → Option ℕ → ℕ → Tx (Unit {0})
refund_owner kind none day = pure tt
refund_owner kind (some user) day = refund kind user day

abbrev pub release_reserved : Clock → ℕ → Job → Option ℕ → Tx Bool
release_reserved c id job none = pure false
release_reserved c id job (some day) = if is_some job.quota_committed_at then pure false else do
  refund_owner (quota_kind job.template_id) job.user_id day
  _ ← update_job no_rows (has_job_id id) (set_unreserved c)
  increment_revision
  pure true

unfoldable pub release_quick_generation_for_job : Clock → ℕ → Tx Bool
unfolding select_job quota_kind refund set_unreserved update_job increment_revision
release_quick_generation_for_job c id = do
  job ← select_job id
  release_reserved c id job job.quota_reserved_on

abbrev pub bucket_of : QuotaKind → User → Option DailyUsage → Bucket
bucket_of kind u d = record {
  daily_limit = daily_limit_of kind u;
  daily_used = used_on kind d;
  total_limit = total_limit_of kind u;
  total_used = total_used_of kind u;
}

unfoldable pub quick_generation_quota : ℕ → ℕ → Tx Quota
unfolding select_user select_usage
quick_generation_quota day user = do
  u ← select_user user
  usage ← select_usage user day
  pure (record { image = bucket_of image_quota u usage; video = bucket_of video_quota u usage })

unfoldable pub reserve_quick_generation : ℕ → ℕ → Tx Reservation
unfolding select_user select_usage charge
reserve_quick_generation day user = do
  u ← select_user user
  if not u.can_use_quick_generation
      then fail quota_forbidden
      else if reached u.generation_total_limit u.generation_total_used
      then fail total_limit_reached
      else do
        usage ← select_usage user day
        if reached u.generation_daily_limit (used_on image_quota usage)
            then fail daily_limit_reached
            else do
              charge image_quota user day
              pure (record { user_id = user; usage_date = day; kind = image_quota })

-- A reservation of user 0 is the zero value, which has no usage date either.
unfoldable pub release_quick_generation : Reservation → Tx (Unit {0})
unfolding refund
release_quick_generation r =
    if r.user_id == 0 then pure tt else refund r.kind r.user_id r.usage_date

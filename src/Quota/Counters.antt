-- ===== src/Quota/Counters.antt =====
-- How the charging statements of internal/store/generation_quota.go move the counters that are read.
use personal_cloud_ai_servic.Domain.Rows.{DailyUsage}
use personal_cloud_ai_servic.Prelude.{
  ◌+◌, Option, ℕ, find, List, ◌≡◌, some, true, refl, arith, update, find-update, none, ◌∙◌,
  find_sound,
}
use personal_cloud_ai_servic.Domain.User.{User}
use personal_cloud_ai_servic.Quota.{
  QuotaKind, Bucket, upsert_usage, Quota, has_user_id, is_usage, image_quota, bucket_of,
  fresh_usage, add_total, add_usage, video_quota,
}

-- The bucket of a kind, and a bucket with one more run.
abbrev pub bucket : QuotaKind → Quota → Bucket
bucket image_quota q = q.image
bucket video_quota q = q.video

abbrev pub one_more : Bucket → Bucket
one_more b = record b { daily_used = b.daily_used + 1; total_used = b.total_used + 1 }

-- A quota with one more run of a kind.
abbrev pub charged_quota : QuotaKind → Quota → Quota
charged_quota image_quota q = record q { image = one_more q.image }
charged_quota video_quota q = record q { video = one_more q.video }

-- What a user's row and its usage row say.
abbrev pub quota_of : User → Option DailyUsage → Quota
quota_of u d = record { image = bucket_of image_quota u d; video = bucket_of video_quota u d }

-- The usage row after a charge.
abbrev pub charged_usage : QuotaKind → ℕ → ℕ → Option DailyUsage → DailyUsage
charged_usage kind user day none = fresh_usage kind user day
charged_usage kind user day (some d) = add_usage kind d

pub quota_of-charged :
    (kind : QuotaKind) (user day : ℕ) (u : User) (o : Option DailyUsage)
    → quota_of (add_total kind u) (some (charged_usage kind user day o))
      ≡ charged_quota kind (quota_of u o)
quota_of-charged image_quota user day u none = refl
quota_of-charged video_quota user day u none = refl
quota_of-charged image_quota user day u (some d) = refl
quota_of-charged video_quota user day u (some d) = refl

has_user_id-add_total :
    (kind : QuotaKind) (id : ℕ) (u : User) → has_user_id id (add_total kind u) ≡ has_user_id id u
has_user_id-add_total image_quota id u = refl
has_user_id-add_total video_quota id u = refl

is_usage-add_usage :
    (kind : QuotaKind) (user day : ℕ) (d : DailyUsage)
    → is_usage user day (add_usage kind d) ≡ is_usage user day d
is_usage-add_usage image_quota user day d = refl
is_usage-add_usage video_quota user day d = refl

is_usage-fresh :
    (kind : QuotaKind) (user day : ℕ) → is_usage user day (fresh_usage kind user day) ≡ true
is_usage-fresh image_quota user day = ground arith
is_usage-fresh video_quota user day = ground arith

pub find-charged_user :
    (kind : QuotaKind) (user : ℕ) (users : List User) {u : User}
    → find (has_user_id user) users ≡ some u
    → find (has_user_id user) (update (has_user_id user) (add_total kind) users)
      ≡ some (add_total kind u)
find-charged_user kind user users {u = u} h =
    find-update (has_user_id user) (has_user_id user) (add_total kind) users
      (has_user_id-add_total kind user) h
    ∙ rw (find_sound (has_user_id user) users h)

pub find-upsert_usage :
    (kind : QuotaKind) (user day : ℕ) (rows : List DailyUsage) (o : Option DailyUsage)
    → find (is_usage user day) rows ≡ o
    → find (is_usage user day) (upsert_usage kind user day rows)
      ≡ some (charged_usage kind user day o)
unfolding upsert_usage find
find-upsert_usage kind user day rows none h = rw (h, is_usage-fresh kind user day)
find-upsert_usage kind user day rows (some d) h = rw h (
    find-update (is_usage user day) (is_usage user day) (add_usage kind) rows
      (is_usage-add_usage kind user day) h
    ∙ rw (find_sound (is_usage user day) rows h))

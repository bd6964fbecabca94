-- ===== src/Examples/OfService.antt =====
-- The theorems on generation_quota.go and limiter.go at concrete calls.
use personal_cloud_ai_servic.Limiter.Refined.{limiter_refines_spec}
use personal_cloud_ai_servic.Limiter.Abstract.{in_order, answers, spec_answers, has_room}
use personal_cloud_ai_servic.Quota.RoundTrip.{IsRestored, reserve_then_release}
use personal_cloud_ai_servic.Dispatch.{is_waiting_job}
use personal_cloud_ai_servic.Quota.Settled.{commit_is_final, reserve_twice}
use personal_cloud_ai_servic.Quota.Charging.{IsCharged, reserve_charges_once}
use personal_cloud_ai_servic.Limiter.Bounds.{
  IsBounded, limiter_run, records, allows, clears, limiter_run-IsBounded, limiter_step,
}
use personal_cloud_ai_servic.Jobs.{
  is_own_job, select_own_job, has_job_id, select_job, update_job, increment_revision,
}
use personal_cloud_ai_servic.Examples.{waiting_job, noon, later, job_db}
use personal_cloud_ai_servic.Db.{Db, committed, ok}
use personal_cloud_ai_servic.Limiter.{
  new_login_limiter, allow, record_failure, clear, sweep, allow_swept, record_swept, sweep_overflow,
  sweep_entries, is_full_for, tracked, recent, failures_of, is_empty, delete_key, set_key,
}
use personal_cloud_ai_servic.Prelude.{
  find, some, ◌≡◌, ◌∷◌, refl, false, true, [], arith, update, count, ◌≤◌, any, keep,
}
use personal_cloud_ai_servic.Domain.Job.{Job}
use personal_cloud_ai_servic.Quota.{
  Quota, Reservation, reserve_quick_generation_for_job, commit_quick_generation_for_job,
  image_quota, quick_generation_quota, release_quick_generation_for_job, quota_kind, set_committed,
  reserve_kind, select_user, select_usage, book, charge, upsert_usage, set_reserved,
}

abbrev quota_today : Quota
quota_today = record {
  image = record { daily_limit = 2; daily_used = 0; total_limit = 10; total_used = 4 };
  video = record { daily_limit = 1; daily_used = 0; total_limit = 1; total_used = 1 };
}

abbrev image_run : Reservation
image_run = record { user_id = 7; usage_date = 20000; kind = image_quota }

abbrev reserved_db : Db
unfolding reserve_quick_generation_for_job select_own_job is_own_job has_job_id quota_kind
    is_waiting_job reserve_kind select_user select_usage book charge upsert_usage update_job
    set_reserved increment_revision find update
reserved_db =
    committed (job_db waiting_job)
      (reserve_quick_generation_for_job noon 20000 1 7 (job_db waiting_job))

reserve_charges_once_example : IsCharged 20000 7 quota_today image_run reserved_db
unfolding reserve_quick_generation_for_job select_own_job is_own_job has_job_id quota_kind
    is_waiting_job reserve_kind select_user select_usage book charge upsert_usage update_job
    set_reserved increment_revision find update quick_generation_quota
reserve_charges_once_example =
    reserve_charges_once noon 20000 1 7 (job_db waiting_job) reserved_db (job_db waiting_job)
      quota_today image_run refl refl

abbrev reserved_job : Job
reserved_job = record waiting_job { quota_reserved_on = some 20000; prompt_id = some "p" }

reserve_twice_example :
    reserve_quick_generation_for_job later 20001 1 7 reserved_db
    ≡ ok ((image_run, false), reserved_db)
unfolding reserve_quick_generation_for_job select_own_job is_own_job has_job_id quota_kind
    is_waiting_job reserve_kind select_user select_usage book charge upsert_usage update_job
    set_reserved increment_revision find update
reserve_twice_example =
    reserve_twice noon later 20000 20001 1 7 (job_db waiting_job) reserved_db image_run true refl

abbrev committed_db : Db
unfolding commit_quick_generation_for_job select_job has_job_id set_committed update_job
    increment_revision find update
committed_db =
    committed (job_db reserved_job) (commit_quick_generation_for_job noon 1 (job_db reserved_job))

commit_is_final_example :
    release_quick_generation_for_job later 1 committed_db ≡ ok (false, committed_db)
unfolding commit_quick_generation_for_job select_job has_job_id set_committed update_job
    increment_revision find update
commit_is_final_example = commit_is_final noon later 1 (job_db reserved_job) committed_db true refl

limiter_run-IsBounded_example :
    IsBounded
      (limiter_run (new_login_limiter 5 0 0) (records 10 "ip" ∷ allows 20 "ip" ∷ clears "ip" ∷ []))
unfolding new_login_limiter
limiter_run-IsBounded_example =
    limiter_run-IsBounded (new_login_limiter 5 0 0)
      (records 10 "ip" ∷ allows 20 "ip" ∷ clears "ip" ∷ [])
      (record { keys = omega arith; spill = omega arith })

sole_job : count (has_job_id 1) (waiting_job ∷ []) ≤ 1
unfolding count has_job_id
sole_job = omega arith

reserve_then_release_example : IsRestored later 20000 1 7 quota_today reserved_db
unfolding reserve_quick_generation_for_job select_own_job is_own_job has_job_id quota_kind
    is_waiting_job reserve_kind select_user select_usage book charge upsert_usage update_job
    set_reserved increment_revision find update quick_generation_quota
reserve_then_release_example =
    reserve_then_release noon later 20000 1 7 (job_db waiting_job) reserved_db (job_db waiting_job)
      waiting_job quota_today image_run sole_job refl refl refl refl

limiter_refines_spec_example :
    answers
      (new_login_limiter 5 0 1)
      (records 10 "ip" ∷ allows 20 "ip" ∷ clears "ip" ∷ allows 30 "ip" ∷ [])
    ≡ spec_answers
        (new_login_limiter 5 0 1).window
        (new_login_limiter 5 0 1).limit
        []
        (records 10 "ip" ∷ allows 20 "ip" ∷ clears "ip" ∷ allows 30 "ip" ∷ [])
unfolding new_login_limiter in_order has_room limiter_step allow record_failure clear sweep
    allow_swept record_swept sweep_overflow sweep_entries is_full_for tracked any keep recent
    failures_of find is_empty delete_key set_key
limiter_refines_spec_example =
    limiter_refines_spec 5 0 1
      (records 10 "ip" ∷ allows 20 "ip" ∷ clears "ip" ∷ allows 30 "ip" ∷ []) refl refl

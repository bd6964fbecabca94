-- ===== src/Jobs.antt =====
-- internal/store/generation_job.go: the durable generation jobs. This file has the statements that
-- its operations share; the operations and the proofs are in the modules below.
pub mod Notify
pub mod Create
pub mod Claim
pub mod Transition
pub mod Cancel
pub mod Rewritten
use personal_cloud_ai_servic.Domain.Rows.{NotificationRevision}
use personal_cloud_ai_servic.Domain.Job.{JobTransition, Job}
use personal_cloud_ai_servic.Db.{Error, Tx, Clock, ok, pure, row_or, err, no_rows}
use personal_cloud_ai_servic.Prelude.{
  ℕ, Option, Bool, String, List, ◌-◌, ◌==◌, false, ◌&&◌, find, ◌+◌, ◌∷◌, ◌/◌, some, str_eq, update,
  if◌then◌else◌, none, [],
}

-- WHERE id=$1, and the owner's jobs.
unfoldable pub has_job_id : ℕ → Job → Bool
has_job_id id j = j.id == id

abbrev pub owned_by : Option ℕ → ℕ → Bool
owned_by none id = false
owned_by (some owner) id = owner == id

unfoldable pub is_request : ℕ → String → Job → Bool
is_request user request_id j = owned_by j.user_id user && str_eq j.request_id request_id

-- scanGenerationJob: a NULL prompt id reads as the empty text.
abbrev pub prompt_text : Option String → String
prompt_text none = ""
prompt_text (some p) = p

-- SELECT … WHERE id=$1.
unfoldable pub select_job : ℕ → Tx Job
select_job id db = row_or no_rows (find (has_job_id id) db.generation_jobs) db

-- SELECT … WHERE id=$1 AND user_id=$2.
unfoldable pub is_own_job : ℕ → ℕ → Job → Bool
unfolding has_job_id
is_own_job id user j = has_job_id id j && owned_by j.user_id user

unfoldable pub select_own_job : ℕ → ℕ → Tx Job
select_own_job id user db = row_or no_rows (find (is_own_job id user) db.generation_jobs) db

-- UPDATE generation_jobs SET f WHERE p RETURNING …
abbrev pub rewritten_job : Error → (Job → Bool) → (Job → Job) → Option Job → Tx Job
rewritten_job e p f none db = err e
rewritten_job e p f (some j) db =
    ok (f j, record db { generation_jobs = update p f db.generation_jobs })

unfoldable pub update_job : Error → (Job → Bool) → (Job → Job) → Tx Job
update_job e p f db = rewritten_job e p f (find p db.generation_jobs) db

-- incrementGenerationJobRevision.
unfoldable pub increment_revision : Tx (Unit {0})
increment_revision db =
    ok (tt, record db { generation_job_revision = db.generation_job_revision + 1 })

-- incrementUserNotificationRevision: an upsert.
unfoldable pub bump_revision : ℕ → List NotificationRevision → List NotificationRevision
bump_revision user [] = (record { user_id = user; revision = 1 }) ∷ []
bump_revision user (r ∷ rs) =
    if r.user_id == user
    then (record r { revision = r.revision + 1 }) ∷ rs
    else r ∷ bump_revision user rs

unfoldable pub increment_user_revision : ℕ → Tx (Unit {0})
unfolding bump_revision
increment_user_revision user db =
    ok (tt, record db { notification_revisions = bump_revision user db.notification_revisions })

abbrev pub increment_owner_revision : Option ℕ → Tx (Unit {0})
increment_owner_revision none = pure tt
increment_owner_revision (some user) = increment_user_revision user

-- INSERT INTO generation_job_transitions; the newest row stands first.
unfoldable pub record_transition : JobTransition → Tx (Unit {0})
record_transition t db =
    ok (tt, record db { generation_job_transitions = t ∷ db.generation_job_transitions })

-- time.Since(…).Milliseconds(), which the callers make 0 where it is negative.
abbrev pub duration_since : Clock → ℕ → ℕ
duration_since c t = (c.clock - t) / 1000

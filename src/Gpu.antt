-- ===== src/Gpu.antt =====
-- internal/store/gpu_work.go: admission of work to a GPU. A work item waits, is held under a lease,
-- may become uncertain when its lease runs out, and is released or cancelled on evidence.
pub mod Enqueue
pub mod Acquire
pub mod Release
pub mod Invariant
pub mod Preserved
pub mod Locked
pub mod Admitted
pub mod Calls
pub mod Grants
pub mod Fairness
pub mod Endings
pub mod Evidence
pub mod Unlease
use personal_cloud_ai_servic.Prelude.{
  ℕ, zero, ◌+◌, ◌*◌, ◌/◌, Bool, true, false, not, ◌&&◌, ◌||◌, Option, none, some, List, [], ◌∷◌,
  ◌++◌, String, str_eq, ltb, leb, ◌==◌, if◌then◌else◌, is_some, find, any, count, update,
  rune_count, contains_rune,
}
use personal_cloud_ai_servic.Domain.Gpu.{
  WorkKind, generation, lora_training, lora_caption, prompt_assistant, kind_valid, kind_text,
  WorkState, waiting, held, uncertain, released, cancelled, Phase, reserved, dispatching, running,
  Observation, idle, busy, unknown, EvidenceCode, executor_terminal, executor_idle, not_dispatched,
  request_completed, priority_head_start, intent_lifetime, max_lease_duration, GpuResource, GpuWork,
  GpuEvent, GpuWorkRequest, WaitCode, no_wait, gpu_in_use, executor_unconfirmed, not_waiting,
  intent_expired, executor_unavailable, external_work, owner_unavailable, waiting_turn,
  GpuAdmission, GpuReleaseEvidence,
}
use personal_cloud_ai_servic.Domain.User.{User}
use personal_cloud_ai_servic.Db.{
  Db, Error, ok, err, gpu_work_conflict, gpu_work_input, no_rows, constraint, Tx, ◌>>=◌, ◌>>◌, pure,
  fail, row_or, Clock, second,
}

-- gpuTextValid. A text of the model is valid UTF-8.
unfoldable pub text_valid : String → ℕ → Bool
text_valid value limit = leb (rune_count value) limit && not (contains_rune 0 value)

-- time.Second in nanoseconds, and int64(duration.Seconds()).
abbrev pub nanoseconds : ℕ
nanoseconds = 1000000000

abbrev pub whole_seconds : ℕ → ℕ
whole_seconds duration = duration / nanoseconds

unfoldable pub lease_valid : String → ℕ → Bool
unfolding text_valid
lease_valid token duration =
    not (str_eq token "")
    && text_valid token 96
    && leb nanoseconds duration
    && leb duration (max_lease_duration * nanoseconds)

-- WHERE id=$1, on the two tables.
unfoldable pub has_id : String → GpuWork → Bool
has_id id w = str_eq w.id id

unfoldable pub is_resource : String → GpuResource → Bool
is_resource id r = str_eq r.id id

unfoldable pub is_waiting : WorkState → Bool
is_waiting waiting = true
is_waiting _ = false

unfoldable pub is_held : WorkState → Bool
is_held held = true
is_held _ = false

unfoldable pub is_uncertain : WorkState → Bool
is_uncertain uncertain = true
is_uncertain _ = false

-- state IN ('held','uncertain').
unfoldable pub is_active : WorkState → Bool
is_active held = true
is_active uncertain = true
is_active _ = false

unfoldable pub holds : String → GpuWork → Bool
unfolding is_active
holds resource_id w = str_eq w.resource_id resource_id && is_active w.state

unfoldable pub is_reserved : Phase → Bool
is_reserved reserved = true
is_reserved _ = false

unfoldable pub is_running : Phase → Bool
is_running running = true
is_running _ = false

unfoldable pub is_dispatching : Phase → Bool
is_dispatching dispatching = true
is_dispatching _ = false

-- lease_until > t; a NULL is not.
abbrev pub later_than : Option ℕ → ℕ → Bool
later_than none t = false
later_than (some u) t = ltb t u

-- The newest event stands first.
unfoldable pub gpu_event : String → WorkState → String → String → Tx (Unit {0})
gpu_event id state code detail db = pure tt (record db {
  gpu_work_events =
      (record { work_id = id; state = state; code = code; detail = detail }) ∷ db.gpu_work_events;
})

unfoldable pub unconfirm : ℕ → GpuResource → GpuResource
unconfirm now r = record r {
  revision = r.revision + 1;
  observation = unknown;
  message = "Executor check required";
  valid_until = now;
}

unfoldable pub invalidate_observation : Clock → String → Tx (Unit {0})
unfolding unconfirm
invalidate_observation c id db =
    pure tt
      (record db { gpu_resources = update (is_resource id) (unconfirm c.now) db.gpu_resources })

unfoldable pub select_resource : String → Tx GpuResource
select_resource id db = row_or no_rows (find (is_resource id) db.gpu_resources) db

unfoldable pub select_work : String → Tx GpuWork
select_work id db = row_or no_rows (find (has_id id) db.gpu_work) db

-- UPDATE gpu_work SET f WHERE p RETURNING …: the rewritten row, or the error that the caller makes of
-- a missing one.
abbrev pub rewritten : Error → (GpuWork → Bool) → (GpuWork → GpuWork) → Option GpuWork → Tx GpuWork
rewritten e p f none db = err e
rewritten e p f (some w) db = ok (f w, record db { gpu_work = update p f db.gpu_work })

unfoldable pub update_work : Error → (GpuWork → Bool) → (GpuWork → GpuWork) → Tx GpuWork
update_work e p f db = rewritten e p f (find p db.gpu_work) db

-- lockGPUWork: the work item and its resource.
unfoldable pub lock_work : String → Tx (GpuResource × GpuWork)
unfolding select_work select_resource
lock_work id = do
  work ← select_work id
  resource ← select_resource work.resource_id
  pure (resource, work)

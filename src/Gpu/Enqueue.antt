-- ===== src/Gpu/Enqueue.antt =====
-- EnqueueGPUWork, ObserveGPUResource and RetryGPUWork of internal/store/gpu_work.go.
use personal_cloud_ai_servic.Prelude.{
  ℕ, ◌+◌, ◌*◌, Bool, true, false, not, ◌&&◌, ◌||◌, Option, none, some, ◌∷◌, String, str_eq, ltb,
  ◌==◌, if◌then◌else◌, find, any, update,
}
use personal_cloud_ai_servic.Domain.Gpu.{
  WorkKind, kind_valid, kind_text, waiting, released, cancelled, WorkState, reserved, Observation,
  unknown, other_observation, intent_lifetime, GpuResource, GpuWork, GpuWorkRequest,
}
use personal_cloud_ai_servic.Db.{
  gpu_work_conflict, gpu_work_input, no_rows, constraint, Tx, ◌>>=◌, ◌>>◌, pure, fail, row_or,
  Clock, second,
}
use personal_cloud_ai_servic.Gpu.{
  text_valid, nanoseconds, whole_seconds, has_id, is_resource, is_waiting, gpu_event,
  select_resource, update_work, lock_work,
}

unfoldable pub request_valid : GpuWorkRequest → Bool
unfolding text_valid kind_valid
request_valid input =
    not (str_eq input.id "")
    && not (str_eq input.resource_id "")
    && not (str_eq input.job_key "")
    && kind_valid input.kind
    && ltb 0 input.user_id
    && text_valid input.id 96
    && text_valid input.resource_id 64
    && text_valid input.job_key 96

-- The defaults of gpu_resources.
unfoldable pub new_resource : Clock → String → GpuResource
new_resource c id = record {
  id = id;
  revision = 1;
  observation = unknown;
  message = "";
  observed_at = c.now;
  valid_until = c.now;
}

-- INSERT INTO gpu_resources … ON CONFLICT(id) DO NOTHING.
unfoldable pub insert_resource : Clock → String → Tx (Unit {0})
unfolding new_resource
insert_resource c id db = pure tt (
    if any (is_resource id) db.gpu_resources
    then db
    else record db { gpu_resources = new_resource c id ∷ db.gpu_resources })

unfoldable pub same_key : WorkKind → String → GpuWork → Bool
unfolding kind_text
same_key kind job_key w = str_eq (kind_text w.kind) (kind_text kind) && str_eq w.job_key job_key

-- The defaults of gpu_work.
unfoldable pub new_work : Clock → GpuWorkRequest → GpuWork
new_work c input = record {
  id = input.id;
  resource_id = input.resource_id;
  kind = input.kind;
  job_key = input.job_key;
  user_id = some input.user_id;
  priority = input.priority;
  state = waiting;
  phase = reserved;
  lease_token = "";
  lease_until = none;
  external_id = "";
  cancellation_requested = false;
  ready_until = c.now + intent_lifetime * second;
  queued_at = c.now;
  created_at = c.now;
  updated_at = c.now;
  held_at = none;
  released_at = none;
}

-- INSERT INTO gpu_work … ON CONFLICT(kind,job_key) DO NOTHING, and how many rows it added. The
-- primary key and the foreign key to users refuse it otherwise.
unfoldable pub insert_work : Clock → GpuWorkRequest → Tx Bool
unfolding new_work
insert_work c input db =
    if any (same_key input.kind input.job_key) db.gpu_work
    then pure false db
    else if any (has_id input.id) db.gpu_work || not (any (λ u. u.id == input.user_id) db.users)
    then fail constraint db
    else pure true (record db { gpu_work = new_work c input ∷ db.gpu_work })

unfoldable pub select_key : GpuWorkRequest → Tx GpuWork
select_key input db = row_or no_rows (find (same_key input.kind input.job_key) db.gpu_work) db

abbrev owned_by : Option ℕ → ℕ → Bool
owned_by none id = false
owned_by (some owner) id = owner == id

unfoldable pub renew_intent : Clock → Bool → GpuWork → GpuWork
renew_intent c priority w = record w {
  ready_until = c.now + intent_lifetime * second;
  priority = priority;
}

unfoldable pub enqueue_gpu_work : Clock → GpuWorkRequest → Tx GpuWork
unfolding insert_resource select_resource insert_work select_key gpu_event update_work
enqueue_gpu_work c input = if not (request_valid input) then fail gpu_work_input else do
  insert_resource c input.resource_id
  resource ← select_resource input.resource_id
  inserted ← insert_work c input
  work ← select_key input
  if not (str_eq work.resource_id input.resource_id) || not (owned_by work.user_id input.user_id)
      then fail gpu_work_conflict
      else do
        if inserted then gpu_event work.id work.state "enqueued" "" else pure tt
        if is_waiting work.state
            then update_work no_rows (has_id work.id) (renew_intent c input.priority)
            else pure work

abbrev observation_known : Observation → Bool
observation_known (other_observation s) = false
observation_known _ = true

unfoldable pub observed : Clock → Observation → String → ℕ → GpuResource → GpuResource
observed c observation message valid_for r = record r {
  revision = r.revision + 1;
  observation = observation;
  message = message;
  observed_at = c.now;
  valid_until = c.now + whole_seconds valid_for * second;
}

-- WHERE id=$1 AND revision=$2.
unfoldable pub at_revision : String → ℕ → GpuResource → Bool
unfolding is_resource
at_revision id revision r = is_resource id r && (r.revision == revision)

abbrev pub rewritten_resource :
    (GpuResource → Bool) → (GpuResource → GpuResource) → Option GpuResource → Tx GpuResource
rewritten_resource p f none db = fail gpu_work_conflict db
rewritten_resource p f (some r) db =
    pure (f r) (record db { gpu_resources = update p f db.gpu_resources })

unfoldable pub observe_gpu_resource : Clock → String → ℕ → Observation → String → ℕ → Tx GpuResource
unfolding text_valid observed
observe_gpu_resource c id revision observation message valid_for db =
    if not (observation_known observation)
      || not (text_valid message 1000)
      || ltb valid_for nanoseconds
      || ltb (30 * nanoseconds) valid_for
    then fail gpu_work_input db
    else rewritten_resource (at_revision id revision) (observed c observation message valid_for)
        (find (at_revision id revision) db.gpu_resources) db

unfoldable pub is_finished : WorkState → Bool
is_finished released = true
is_finished cancelled = true
is_finished _ = false

unfoldable pub wait_again : Clock → GpuWork → GpuWork
wait_again c w = record w {
  state = waiting;
  phase = reserved;
  external_id = "";
  cancellation_requested = false;
  queued_at = c.now;
  ready_until = c.now + intent_lifetime * second;
  held_at = none;
  released_at = none;
  updated_at = c.now;
}

unfoldable pub retry_gpu_work : Clock → String → Tx GpuWork
unfolding lock_work update_work gpu_event
retry_gpu_work c id = do
  (resource, work) ← lock_work id
  if not (is_finished work.state) then fail gpu_work_conflict else do
    work' ← update_work no_rows (has_id id) (wait_again c)
    gpu_event id work'.state "retry" ""
    pure work'

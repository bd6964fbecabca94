-- ===== src/Gpu/Acquire.antt =====
-- AcquireGPUWork of internal/store/gpu_work.go. `before_id` is the database's order of ids, which
-- breaks ties in ORDER BY.
use personal_cloud_ai_servic.Prelude.{
  ℕ, suc, ◌+◌, ◌*◌, Bool, true, false, not, ◌&&◌, ◌||◌, Option, none, some, List, [], ◌∷◌, String,
  str_eq, ltb, ◌==◌, if◌then◌else◌, find, any, count, keep,
}
use personal_cloud_ai_servic.Domain.Gpu.{
  held, uncertain, reserved, Observation, idle, busy, priority_head_start, GpuResource, GpuWork,
  WaitCode, no_wait, gpu_in_use, executor_unconfirmed, not_waiting, intent_expired,
  executor_unavailable, external_work, owner_unavailable, waiting_turn, GpuAdmission,
}
use personal_cloud_ai_servic.Domain.User.{User}
use personal_cloud_ai_servic.Db.{
  Db, gpu_work_input, no_rows, Tx, ◌>>=◌, ◌>>◌, pure, fail, Clock, second,
}
use personal_cloud_ai_servic.Gpu.{
  lease_valid, whole_seconds, has_id, is_waiting, is_held, is_uncertain, holds, later_than,
  gpu_event, invalidate_observation, update_work, lock_work,
}

-- JOIN users u …, NOT u.disabled AND (u.account_expires_at IS NULL OR u.account_expires_at>now()).
abbrev unexpired : Option ℕ → ℕ → Bool
unexpired none now = true
unexpired (some t) now = ltb now t

unfoldable pub owner_available : Clock → List User → Option ℕ → Bool
owner_available c users none = false
owner_available c users (some id) =
    any (λ u. (u.id == id) && not u.disabled && unexpired u.account_expires_at c.now) users

unfoldable pub eligible : Clock → List User → String → GpuWork → Bool
eligible c users resource_id w =
    str_eq w.resource_id resource_id
    && is_waiting w.state
    && ltb c.now w.ready_until
    && not w.cancellation_requested
    && owner_available c users w.user_id

-- The head start of priority work, in microseconds.
unfoldable pub head_start : GpuWork → ℕ
head_start w = if w.priority then priority_head_start * second else 0

-- a.queued_at - head_start a < b.queued_at - head_start b, with the subtractions moved across.
unfoldable pub earlier : GpuWork → GpuWork → Bool
unfolding head_start
earlier a b = ltb (a.queued_at + head_start b) (b.queued_at + head_start a)

unfoldable pub precedes : (String → String → Bool) → GpuWork → GpuWork → Bool
unfolding earlier
precedes before_id a b = earlier a b || (not (earlier b a) && before_id a.id b.id)

-- ORDER BY … LIMIT 1.
unfoldable pub first_in_queue : (String → String → Bool) → List GpuWork → Option GpuWork
first_in_queue before_id [] = none
first_in_queue before_id (w ∷ ws) = elim (first_in_queue before_id ws) [
  | none ↦ some w
  | some v ↦ some (if precedes before_id v w then v else w)
]

-- row_number() OVER(ORDER BY …) of the row with this id, or 0 where it is not among the rows.
unfoldable pub row_number : (String → String → Bool) → String → List GpuWork → ℕ
row_number before_id id ws = elim (find (has_id id) ws) [
  | none ↦ 0
  | some w ↦ suc (count (λ v. precedes before_id v w) ws)
]

unfoldable pub queue : Clock → String → Db → List GpuWork
queue c resource_id db = keep (eligible c db.users resource_id) db.gpu_work

unfoldable pub queue_position : Clock → (String → String → Bool) → String → GpuWork → Tx ℕ
queue_position c before_id resource_id work db =
    pure
      (if is_waiting work.state then row_number before_id work.id (queue c resource_id db) else 0)
      db

unfoldable pub expire_lease : Clock → GpuWork → GpuWork
expire_lease c w = record w { state = uncertain; updated_at = c.now }

unfoldable pub hold : Clock → String → ℕ → GpuWork → GpuWork
hold c token duration w = record w {
  state = held;
  phase = reserved;
  lease_token = token;
  lease_until = some (c.now + whole_seconds duration * second);
  held_at = some c.now;
  updated_at = c.now;
}

-- What the caller reads while the resource has a holder.
unfoldable pub admission_under : GpuWork → String → ℕ → ℕ → GpuWork → GpuAdmission
admission_under work token position revision holder =
    let own = str_eq holder.id work.id in
    let granted =
      own
      && is_held holder.state
      && str_eq holder.lease_token token
      && not holder.cancellation_requested in
    record {
      work = if own then holder else work;
      granted = granted;
      wait_code =
          if granted
          then no_wait
          else if is_uncertain holder.state
          then executor_unconfirmed
          else gpu_in_use;
      position = position;
      resource_revision = revision;
    }

unfoldable pub contend : Clock → GpuResource → GpuWork → String → ℕ → GpuWork → Tx GpuAdmission
unfolding update_work gpu_event invalidate_observation
contend c resource work token position holder =
    if is_held holder.state && not (later_than holder.lease_until c.clock)
    then (do
      holder' ← update_work no_rows (has_id holder.id) (expire_lease c)
      gpu_event holder'.id holder'.state "lease_expired" "Executor completion is unconfirmed"
      invalidate_observation c resource.id
      pure (admission_under work token position (resource.revision + 1) holder'))
    else pure (admission_under work token position resource.revision holder)

abbrev pub refused : GpuWork → ℕ → ℕ → WaitCode → GpuAdmission
refused work position revision code = record {
  work = work;
  granted = false;
  wait_code = code;
  position = position;
  resource_revision = revision;
}

unfoldable pub grant : Clock → GpuResource → GpuWork → String → ℕ → ℕ → Tx GpuAdmission
unfolding update_work gpu_event invalidate_observation
grant c resource work token duration position = do
  work' ← update_work no_rows (has_id work.id) (hold c token duration)
  gpu_event work.id held "admitted" ""
  invalidate_observation c resource.id
  pure (record {
    work = work';
    granted = true;
    wait_code = no_wait;
    position = position;
    resource_revision = resource.revision + 1;
  })

unfoldable pub is_idle : Observation → Bool
is_idle idle = true
is_idle _ = false

unfoldable pub is_busy : Observation → Bool
is_busy busy = true
is_busy _ = false

abbrev pub executor_wait : Clock → GpuResource → WaitCode
executor_wait c resource =
    if is_busy resource.observation && ltb c.clock resource.valid_until
    then external_work
    else executor_unavailable

-- The turn goes to the first eligible work item.
unfoldable pub take_turn :
    Clock → GpuResource → GpuWork → String → ℕ → ℕ → Option GpuWork → Tx GpuAdmission
unfolding grant
take_turn c resource work token duration position none =
    pure (refused work position resource.revision owner_unavailable)
take_turn c resource work token duration position (some next) =
    if str_eq next.id work.id
    then grant c resource work token duration position
    else pure (refused work position resource.revision waiting_turn)

unfoldable pub admit :
    Clock → (String → String → Bool) → GpuResource → GpuWork → String → ℕ → ℕ → Tx GpuAdmission
admit c before_id resource work token duration position db =
    let refuse : WaitCode → Tx GpuAdmission =
      λ code. pure (refused work position resource.revision code) in
    if not (is_waiting work.state) || work.cancellation_requested
    then refuse not_waiting db
    else if not (ltb c.clock work.ready_until)
    then refuse intent_expired db
    else if not (is_idle resource.observation) || not (ltb c.clock resource.valid_until)
    then refuse (executor_wait c resource) db
    else take_turn c resource work token duration position
        (first_in_queue before_id (queue c resource.id db)) db

-- The unique index leaves one holder at most.
unfoldable pub select_holder : String → Tx (Option GpuWork)
select_holder resource_id db = pure (find (holds resource_id) db.gpu_work) db

-- The two ways on: under a holder, or to a free resource.
unfoldable pub answer :
    Clock
    → (String → String → Bool)
    → GpuResource
    → GpuWork
    → String
    → ℕ
    → ℕ
    → Option GpuWork
    → Tx GpuAdmission
answer c before_id resource work token duration position none =
    admit c before_id resource work token duration position
answer c before_id resource work token duration position (some holder) =
    contend c resource work token position holder

unfoldable pub acquire_gpu_work :
    Clock → (String → String → Bool) → String → String → ℕ → Tx GpuAdmission
unfolding lock_work queue_position select_holder
acquire_gpu_work c before_id id token duration =
    if not (lease_valid token duration) then fail gpu_work_input else do
      (resource, work) ← lock_work id
      position ← queue_position c before_id resource.id work
      holder ← select_holder resource.id
      answer c before_id resource work token duration position holder

-- ===== src/Gpu/Release.antt =====
-- HeartbeatGPUWork, SetGPUWorkPhase, RequestGPUWorkCancellation, ReleaseGPUWork and ActiveGPUWork of
-- internal/store/gpu_work.go.
use personal_cloud_ai_servic.Prelude.{
  ℕ, ◌+◌, ◌*◌, Bool, true, false, not, ◌&&◌, ◌||◌, none, some, String, str_eq, ◌==◌, if◌then◌else◌,
  is_some, find, update,
}
use personal_cloud_ai_servic.Domain.Gpu.{
  WorkKind, lora_caption, prompt_assistant, released, cancelled, Phase, reserved, dispatching,
  running, other_phase, EvidenceCode, executor_terminal, executor_idle, not_dispatched,
  request_completed, other_code, GpuWork, GpuReleaseEvidence,
}
use personal_cloud_ai_servic.Db.{
  gpu_work_conflict, gpu_work_input, no_rows, Tx, ◌>>=◌, ◌>>◌, pure, fail, row_or, Clock, second,
}
use personal_cloud_ai_servic.Gpu.{
  text_valid, lease_valid, whole_seconds, has_id, is_waiting, is_held, is_active, holds,
  is_reserved, is_running, later_than, gpu_event, invalidate_observation, update_work, lock_work,
}
use personal_cloud_ai_servic.Gpu.Enqueue.{is_finished}

-- id=$1 AND lease_token=$2 AND state='held' AND lease_until>clock_timestamp() AND NOT cancellation_requested.
unfoldable pub beats : Clock → String → String → GpuWork → Bool
unfolding has_id is_held
beats c id token w =
    has_id id w
    && str_eq w.lease_token token
    && is_held w.state
    && later_than w.lease_until c.clock
    && not w.cancellation_requested

unfoldable pub prolong : Clock → ℕ → GpuWork → GpuWork
prolong c duration w = record w {
  lease_until = some (c.clock + whole_seconds duration * second);
  updated_at = c.now;
}

-- The result is whether one row was Affected; ids are unique.
unfoldable pub heartbeat_gpu_work : Clock → String → String → ℕ → Tx Bool
unfolding lease_valid
heartbeat_gpu_work c id token duration db =
    if not (lease_valid token duration)
    then fail gpu_work_input db
    else pure (is_some (find (beats c id token) db.gpu_work))
        (record db { gpu_work = update (beats c id token) (prolong c duration) db.gpu_work })

abbrev phase_settable : Phase → Bool
phase_settable dispatching = true
phase_settable running = true
phase_settable _ = false

abbrev phase_text : Phase → String
phase_text reserved = "reserved"
phase_text dispatching = "dispatching"
phase_text running = "running"
phase_text (other_phase s) = s

unfoldable pub phase_conflict : GpuWork → String → Phase → String → Bool
unfolding is_held is_running is_reserved
phase_conflict work token phase external_id =
    not (is_held work.state)
    || not (str_eq work.lease_token token)
    || work.cancellation_requested
    || (is_running work.phase
        && (not (is_running phase) || not (str_eq external_id work.external_id)))
    || (is_reserved work.phase && is_running phase)

-- id=$1 AND lease_token=$2 AND lease_until>clock_timestamp().
unfoldable pub leased : Clock → String → String → GpuWork → Bool
unfolding has_id
leased c id token w = has_id id w && str_eq w.lease_token token && later_than w.lease_until c.clock

unfoldable pub enter_phase : Clock → Phase → String → GpuWork → GpuWork
enter_phase c phase external_id w = record w {
  phase = phase;
  external_id = external_id;
  updated_at = c.now;
}

unfoldable pub set_gpu_work_phase : Clock → String → String → Phase → String → Tx GpuWork
unfolding text_valid lock_work phase_conflict update_work gpu_event invalidate_observation
set_gpu_work_phase c id token phase external_id =
    if not (phase_settable phase) || not (text_valid external_id 200)
    then fail gpu_work_input
    else do
      (resource, work) ← lock_work id
      if phase_conflict work token phase external_id then fail gpu_work_conflict else do
        work' ← update_work gpu_work_conflict (leased c id token) (enter_phase c phase external_id)
        gpu_event id work'.state (phase_text phase) external_id
        invalidate_observation c resource.id
        pure work'

unfoldable pub cancel : Clock → GpuWork → GpuWork
cancel c w = record w {
  cancellation_requested = true;
  state = if is_waiting w.state then cancelled else w.state;
  released_at = if is_waiting w.state then some c.now else w.released_at;
  updated_at = c.now;
}

unfoldable pub request_gpu_work_cancellation : Clock → String → Tx GpuWork
unfolding lock_work is_finished update_work gpu_event
request_gpu_work_cancellation c id = do
  (resource, work) ← lock_work id
  if is_finished work.state || work.cancellation_requested then pure work else do
    work' ← update_work no_rows (has_id id) (cancel c)
    gpu_event id work'.state "cancellation_requested" ""
    pure work'

abbrev is_local_inference : WorkKind → Bool
is_local_inference lora_caption = true
is_local_inference prompt_assistant = true
is_local_inference _ = false

-- Which evidence ends the lease: `owned` is held under a live lease.
unfoldable pub evidence_valid : Bool → GpuWork → EvidenceCode → Bool
unfolding is_reserved
evidence_valid owned work executor_terminal = true
evidence_valid owned work executor_idle = true
evidence_valid owned work not_dispatched = owned && is_reserved work.phase
evidence_valid owned work request_completed =
    owned && not (is_reserved work.phase) && is_local_inference work.kind
evidence_valid owned work (other_code s) = false

abbrev evidence_text : EvidenceCode → String
evidence_text executor_terminal = "executor_terminal"
evidence_text executor_idle = "executor_idle"
evidence_text not_dispatched = "not_dispatched"
evidence_text request_completed = "request_completed"
evidence_text (other_code s) = s

unfoldable pub give_up : Clock → GpuWork → GpuWork
give_up c w = record w {
  state = if w.cancellation_requested then cancelled else released;
  lease_token = "";
  lease_until = none;
  released_at = some c.now;
  updated_at = c.now;
}

unfoldable pub release_gpu_work : Clock → String → String → GpuReleaseEvidence → Tx GpuWork
unfolding text_valid lock_work is_active is_held update_work gpu_event invalidate_observation
release_gpu_work c id token evidence =
    if not (text_valid evidence.detail 1000) then fail gpu_work_input else do
      (resource, work) ← lock_work id
      if not (resource.revision == evidence.resource_revision)
            || not (str_eq work.lease_token token)
            || not (is_active work.state)
          then fail gpu_work_conflict
          else if not (
              evidence_valid (is_held work.state && later_than work.lease_until c.clock) work
                evidence.code)
          then fail gpu_work_input
          else do
            work' ← update_work no_rows (has_id id) (give_up c)
            gpu_event id work'.state (evidence_text evidence.code) evidence.detail
            invalidate_observation c resource.id
            pure work'

unfoldable pub active_gpu_work : String → Tx GpuWork
active_gpu_work resource_id db = row_or no_rows (find (holds resource_id) db.gpu_work) db

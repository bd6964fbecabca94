-- ===== src/Examples/OfGpu.antt =====
-- The theorems on internal/store/gpu_work.go at concrete calls.
use personal_cloud_ai_servic.Gpu.Fairness.{acquire_in_turn, gain}
use personal_cloud_ai_servic.Gpu.Grants.{IsGranted, acquire-IsGranted}
use personal_cloud_ai_servic.Gpu.Unlease.{EndsLease, step-EndsLease}
use personal_cloud_ai_servic.Examples.{
  gpu_item, gpu_db, noon, no_order, minute_lease, later, value_or,
}
use personal_cloud_ai_servic.Gpu.Calls.{
  Call, run, step, acquires, run-HasGpuInvariant, releases, enters_phase, cancels,
}
use personal_cloud_ai_servic.Gpu.{
  is_active, lock_work, has_id, select_resource, select_work, update_work, gpu_event,
  invalidate_observation, unconfirm, is_resource, holds, is_held, is_uncertain, is_waiting,
  lease_valid, text_valid,
}
use personal_cloud_ai_servic.Gpu.Endings.{IsLeased}
use personal_cloud_ai_servic.Db.{Db, Clock, Result, committed}
use personal_cloud_ai_servic.Domain.Gpu.{
  GpuWork, held, reserved, executor_idle, Phase, GpuAdmission, not_waiting,
}
use personal_cloud_ai_servic.Gpu.Acquire.{
  acquire_gpu_work, queue_position, select_holder, answer, admit, contend, take_turn, grant, hold,
  first_in_queue, queue, eligible, owner_available, precedes, earlier, head_start, row_number,
  is_idle, is_busy, refused,
}
use personal_cloud_ai_servic.Gpu.Preserved.{HasGpuInvariant}
use personal_cloud_ai_servic.Gpu.Invariant.{lease_shaped, IsExclusive, insert-IsExclusive}
use personal_cloud_ai_servic.Prelude.{
  rune_count, contains_rune, count, List, find, [], any, ◌∷◌, refl, arith, ◌⊎◌, some, keep, update,
  ◌&&◌, ◌≡◌, false, ltb, ◌+◌,
}

empty-IsExclusive : IsExclusive []
unfolding count
empty-IsExclusive = record {
  unique_id = λ id. omega arith;
  one_holder = λ r. omega arith;
  all_shaped = omega arith;
}

gpu_db-HasGpuInvariant : HasGpuInvariant gpu_db
unfolding lease_shaped is_active any
gpu_db-HasGpuInvariant = record {
  table = insert-IsExclusive gpu_item [] refl refl refl empty-IsExclusive;
}

abbrev session : List (Clock × Call)
session =
    (noon, acquires "w1" "t" minute_lease)
    ∷ (noon, enters_phase "w1" "t" Phase.running "x")
    ∷ (later, cancels "w1")
    ∷ []

run-HasGpuInvariant_example : HasGpuInvariant (run no_order gpu_db session)
run-HasGpuInvariant_example = run-HasGpuInvariant no_order gpu_db session gpu_db-HasGpuInvariant

abbrev admitted : Result (GpuAdmission × Db)
unfolding acquire_gpu_work lock_work select_resource select_work queue_position select_holder answer
    admit contend take_turn grant update_work gpu_event invalidate_observation unconfirm hold
    first_in_queue queue eligible owner_available precedes earlier head_start row_number keep find
    any count update has_id is_resource holds is_active is_held is_uncertain is_waiting is_idle
    is_busy lease_valid text_valid rune_count contains_rune
admitted = acquire_gpu_work noon no_order "w1" "t" minute_lease gpu_db

abbrev admission : GpuAdmission
unfolding acquire_gpu_work lock_work select_resource select_work queue_position select_holder answer
    admit contend take_turn grant update_work gpu_event invalidate_observation unconfirm hold
    first_in_queue queue eligible owner_available precedes earlier head_start row_number keep find
    any count update has_id is_resource holds is_active is_held is_uncertain is_waiting is_idle
    is_busy lease_valid text_valid rune_count contains_rune
admission = value_or (refused gpu_item 0 0 not_waiting) admitted

acquire-IsGranted_example : IsGranted "w1" "t" admission.work (committed gpu_db admitted)
unfolding acquire_gpu_work lock_work select_resource select_work queue_position select_holder answer
    admit contend take_turn grant update_work gpu_event invalidate_observation unconfirm hold
    first_in_queue queue eligible owner_available precedes earlier head_start row_number keep find
    any count update has_id is_resource holds is_active is_held is_uncertain is_waiting is_idle
    is_busy lease_valid text_valid rune_count contains_rune
acquire-IsGranted_example =
    acquire-IsGranted noon no_order "w1" "t" minute_lease gpu_db {a = admission}
      {db' = committed gpu_db admitted} gpu_db-HasGpuInvariant refl refl

acquire_in_turn_example :
    any
      (λ v.
        eligible noon gpu_db.users "gpu" v
        && ltb (v.queued_at + gain gpu_item) (gpu_item.queued_at + gain v))
      gpu_db.gpu_work
    ≡ false
unfolding acquire_gpu_work lock_work select_resource select_work queue_position select_holder answer
    admit contend take_turn grant update_work gpu_event invalidate_observation unconfirm hold
    first_in_queue queue eligible owner_available precedes earlier head_start row_number keep find
    any count update has_id is_resource holds is_active is_held is_uncertain is_waiting is_idle
    is_busy lease_valid text_valid rune_count contains_rune
acquire_in_turn_example =
    acquire_in_turn noon no_order "w1" "t" minute_lease gpu_db gpu_item {a = admission}
      {db' = committed gpu_db admitted} gpu_db-HasGpuInvariant refl refl refl refl

abbrev held_item : GpuWork
held_item = record gpu_item {
  state = held;
  phase = reserved;
  lease_token = "t";
  lease_until = some 60000000;
}

abbrev held_db : Db
held_db = record gpu_db { gpu_work = held_item ∷ [] }

held-IsLeased : IsLeased "w1" held_db
unfolding find has_id is_active
held-IsLeased = record { work = held_item; stored = refl; active = refl }

abbrev ending : Clock × Call
ending =
    (noon, releases "w1" "t" (record { code = executor_idle; detail = ""; resource_revision = 3 }))

step-EndsLease_example :
    IsLeased "w1" (step no_order held_db ending) ⊎ EndsLease "w1" held_db ending
step-EndsLease_example = step-EndsLease no_order held_db ending "w1" held-IsLeased

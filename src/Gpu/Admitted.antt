-- ===== src/Gpu/Admitted.antt =====
-- AcquireGPUWork and RetryGPUWork keep the invariants of the table gpu_work.
use personal_cloud_ai_servic.Gpu.Locked.{lock_work-Ends, update_work-bind}
use personal_cloud_ai_servic.Db.Keeps.{Keeps, After}
use personal_cloud_ai_servic.Prelude.{
  ℕ, ◌≡◌, refl, true, none, some, List, String, eq_iff, arith, inl, inr, find, find_sound,
  find-none, update, find_fails, Bool, not, Bool-cases, find_only, Option, str_eq, ◌&&◌, sym, subst,
}
use personal_cloud_ai_servic.Domain.Gpu.{GpuWork, GpuResource}
use personal_cloud_ai_servic.Db.{Db, Clock, no_rows}
use personal_cloud_ai_servic.Gpu.{
  has_id, is_active, holds, lease_valid, gpu_event, invalidate_observation, is_held, later_than,
  is_resource,
}
use personal_cloud_ai_servic.Gpu.Invariant.{IsExclusive, replace-IsExclusive, lease_shaped}
use personal_cloud_ai_servic.Gpu.Enqueue.{wait_again, is_finished, retry_gpu_work}
use personal_cloud_ai_servic.Gpu.Acquire.{
  hold, expire_lease, grant, take_turn, contend, admit, acquire_gpu_work, first_in_queue, queue,
  answer,
}
use personal_cloud_ai_servic.Gpu.Preserved.{HasGpuInvariant}

-- The row that an id finds has that id.
pub found_id :
    (id : String) (works : List GpuWork) {w : GpuWork} → find (has_id id) works ≡ some w → w.id ≡ id
unfolding has_id
found_id id works {w} e = (eq_iff w.id id).0 (find_sound (has_id id) works e)

-- Rewriting the row that stands under `id`.
module _ (db : Db) (h : HasGpuInvariant db) (id : String) (w : GpuWork)
    (found : find (has_id id) db.gpu_work ≡ some w) where
  wait_again-Keeps :
      (c : Clock)
      → is_finished w.state ≡ true
      → lease_shaped w ≡ true
      → IsExclusive (update (has_id id) (wait_again c) db.gpu_work)
  unfolding wait_again is_active is_finished lease_shaped
  wait_again-Keeps c done shape =
      replace-IsExclusive (wait_again c) id w db.gpu_work found (inl (λ e. cc)) refl refl
        (ground arith) h.table

  hold-Keeps :
      (c : Clock) (token : String) (duration : ℕ)
      → lease_valid token duration ≡ true
      → find (holds w.resource_id) db.gpu_work ≡ none
      → IsExclusive (update (has_id id) (hold c token duration) db.gpu_work)
  unfolding hold is_active lease_shaped lease_valid
  hold-Keeps c token duration fit free =
      replace-IsExclusive (hold c token duration) id w db.gpu_work found
        (inr (find-none (holds w.resource_id) db.gpu_work free)) refl refl (ground arith) h.table

  expire-Keeps :
      (c : Clock)
      → is_active w.state ≡ true
      → lease_shaped w ≡ true
      → IsExclusive (update (has_id id) (expire_lease c) db.gpu_work)
  unfolding expire_lease is_active lease_shaped
  expire-Keeps c active shape =
      replace-IsExclusive (expire_lease c) id w db.gpu_work found (inl (λ e. active)) refl refl
        (ground arith) h.table

pub shape_of :
    (db : Db)
    → HasGpuInvariant db
    → (q : GpuWork → Bool) {w : GpuWork} → find q db.gpu_work ≡ some w
    → lease_shaped w ≡ true
shape_of db h q {w} e =
    let fine = find_fails (λ w'. not (lease_shaped w')) db.gpu_work q e h.table.all_shaped in
    ground arith

pub retry-Keeps : (c : Clock) (id : String) → Keeps HasGpuInvariant (retry_gpu_work c id)
unfolding retry_gpu_work gpu_event
retry-Keeps c id = record {
  at = λ db h.
      lock_work-Ends (λ _ d. HasGpuInvariant d) id _ db
        (λ w r e g. elim (Bool-cases (is_finished w.state)) [
          | inl done ↦ rw done (
              rw (update_work-bind no_rows (has_id id) (wait_again c) _ db e) (record {
                table = wait_again-Keeps db h id w e c done (shape_of db h (has_id id) e);
              }))
          | inr undone ↦ rw undone tt
        ]);
}

pub holder_active :
    (db : Db) (r : String) (holder : GpuWork)
    → find (holds r) db.gpu_work ≡ some holder
    → is_active holder.state ≡ true
unfolding holds
holder_active db r holder found =
    let passes = find_sound (holds r) db.gpu_work found in ground arith

-- The holder that a resource has is the row under its own id.
pub holder_by_id :
    (db : Db)
    → HasGpuInvariant db
    → (r : String) (holder : GpuWork) → find (holds r) db.gpu_work ≡ some holder
    → find (has_id holder.id) db.gpu_work ≡ some holder
unfolding has_id
holder_by_id db h r holder found =
    find_only (has_id holder.id) db.gpu_work (holds r) found ((eq_iff holder.id holder.id).1 refl)
      (h.table.unique_id holder.id)

grant-Keeps :
    (c : Clock) (r : GpuResource) (w : GpuWork) (token : String) (duration position : ℕ) (db : Db)
    → HasGpuInvariant db
    → find (has_id w.id) db.gpu_work ≡ some w
    → find (holds w.resource_id) db.gpu_work ≡ none
    → lease_valid token duration ≡ true
    → After HasGpuInvariant (grant c r w token duration position db)
unfolding grant gpu_event invalidate_observation
grant-Keeps c r w token duration position db h found free fit =
    rw (update_work-bind no_rows (has_id w.id) (hold c token duration) _ db found)
      (record { table = hold-Keeps db h w.id w found c token duration fit free })

take_turn-Keeps :
    (c : Clock) (r : GpuResource) (w : GpuWork) (token : String) (duration position : ℕ)
    (o : Option GpuWork) (db : Db)
    → HasGpuInvariant db
    → find (has_id w.id) db.gpu_work ≡ some w
    → find (holds w.resource_id) db.gpu_work ≡ none
    → lease_valid token duration ≡ true
    → After HasGpuInvariant (take_turn c r w token duration position o db)
unfolding take_turn
take_turn-Keeps c r w token duration position none db h found free fit = h
take_turn-Keeps c r w token duration position (some next) db h found free fit =
    elim (Bool-cases (str_eq next.id w.id)) [
      | inl mine ↦ rw mine (grant-Keeps c r w token duration position db h found free fit)
      | inr other ↦ rw other h
    ]

contend-Keeps :
    (c : Clock) (r : GpuResource) (w : GpuWork) (token : String) (position : ℕ) (holder : GpuWork)
    (db : Db)
    → HasGpuInvariant db
    → find (holds r.id) db.gpu_work ≡ some holder
    → After HasGpuInvariant (contend c r w token position holder db)
unfolding contend gpu_event invalidate_observation
contend-Keeps c r w token position holder db h found =
    elim (Bool-cases (is_held holder.state && not (later_than holder.lease_until c.clock))) [
      | inl late ↦ rw late (
          rw
            (update_work-bind no_rows (has_id holder.id) (expire_lease c) _ db
              (holder_by_id db h r.id holder found))
            (record {
              table =
                  expire-Keeps db h holder.id holder (holder_by_id db h r.id holder found) c
                    (holder_active db r.id holder found) (shape_of db h (holds r.id) found);
            }))
      | inr live ↦ rw live h
    ]

admit-Keeps :
    (c : Clock) (before_id : String → String → Bool) (r : GpuResource) (w : GpuWork)
    (token : String) (duration position : ℕ) (db : Db)
    → HasGpuInvariant db
    → find (has_id w.id) db.gpu_work ≡ some w
    → find (holds w.resource_id) db.gpu_work ≡ none
    → lease_valid token duration ≡ true
    → After HasGpuInvariant (admit c before_id r w token duration position db)
unfolding admit
admit-Keeps c before_id r w token duration position db h found free fit = ground (
  arith,
  take_turn-Keeps c r w token duration position (first_in_queue before_id (queue c r.id db)) db h
      found free fit,
)

answer-Keeps :
    (c : Clock) (before_id : String → String → Bool) (r : GpuResource) (w : GpuWork)
    (token : String) (duration position : ℕ) (o : Option GpuWork) (db : Db)
    → HasGpuInvariant db
    → find (has_id w.id) db.gpu_work ≡ some w
    → w.resource_id ≡ r.id
    → find (holds r.id) db.gpu_work ≡ o
    → lease_valid token duration ≡ true
    → After HasGpuInvariant (answer c before_id r w token duration position o db)
unfolding answer
answer-Keeps c before_id r w token duration position none db h found same free fit =
    admit-Keeps c before_id r w token duration position db h found (rw same free) fit
answer-Keeps c before_id r w token duration position (some holder) db h found same busy fit =
    contend-Keeps c r w token position holder db h busy

-- The resource that a work item's id locks is the one that it names.
pub locked_resource :
    (db : Db) (w : GpuWork) {r : GpuResource}
    → find (is_resource w.resource_id) db.gpu_resources ≡ some r
    → w.resource_id ≡ r.id
unfolding is_resource
locked_resource db w {r} g =
    sym ((eq_iff r.id w.resource_id).0 (find_sound (is_resource w.resource_id) db.gpu_resources g))

pub found_under_own_id :
    (id : String) (db : Db) {w : GpuWork}
    → find (has_id id) db.gpu_work ≡ some w
    → find (has_id w.id) db.gpu_work ≡ some w
found_under_own_id id db {w} e =
    subst (λ i. find (has_id i) db.gpu_work ≡ some w) (sym (found_id id db.gpu_work e)) e

pub acquire-Keeps :
    (c : Clock) (before_id : String → String → Bool) (id token : String) (duration : ℕ)
    → Keeps HasGpuInvariant (acquire_gpu_work c before_id id token duration)
unfolding acquire_gpu_work
acquire-Keeps c before_id id token duration = record {
  at = λ db h. elim (Bool-cases (lease_valid token duration)) [
    | inr unfit ↦ rw unfit tt
    | inl fit ↦ rw fit (
        lock_work-Ends (λ _ d. HasGpuInvariant d) id _ db
          (λ w r e g.
            answer-Keeps c before_id r w token duration _ (find (holds r.id) db.gpu_work) db h
              (found_under_own_id id db e) (locked_resource db w g) refl fit))
  ];
}

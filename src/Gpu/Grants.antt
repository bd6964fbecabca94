-- ===== src/Gpu/Grants.antt =====
-- What a granted admission means: the lease is the caller's, and the turn was its own.
use personal_cloud_ai_servic.Gpu.Invariant.{lease_shaped}
use personal_cloud_ai_servic.Gpu.Preserved.{HasGpuInvariant}
use personal_cloud_ai_servic.Gpu.Admitted.{
  found_under_own_id, locked_resource, holder_by_id, found_id, shape_of,
}
use personal_cloud_ai_servic.Gpu.Locked.{update_work-bind, lock_work-Ends}
use personal_cloud_ai_servic.Db.Keeps.{Ends, Ends-ok}
use personal_cloud_ai_servic.Db.{Db, Clock, no_rows, ok}
use personal_cloud_ai_servic.Gpu.{
  has_id, gpu_event, invalidate_observation, is_held, holds, lease_valid, is_waiting, later_than,
  is_active,
}
use personal_cloud_ai_servic.Domain.Gpu.{GpuAdmission, GpuWork, GpuResource, WaitCode}
use personal_cloud_ai_servic.Prelude.{
  String, Bool, find, ◌≡◌, ℕ, some, true, false, str_eq, is_some, Bool-cases, eq_iff, inr, inl,
  find-update, refl, ◌∙◌, Option, not, ◌&&◌, none, ◌||◌, ltb, arith, subst, sym,
}
use personal_cloud_ai_servic.Gpu.Acquire.{
  acquire_gpu_work, hold, grant, answer, take_turn, admit, contend, expire_lease, is_idle,
  first_in_queue, admission_under, queue, refused,
}

-- The ways through AcquireGPUWork once the lease request is well-formed.
pub acquire-Ends :
    (Q : GpuAdmission → Db → Type 0) (c : Clock) (before_id : String → String → Bool)
    (id token : String) (duration : ℕ) (db : Db)
    → ((w : GpuWork) (r : GpuResource) (position : ℕ)
        → find (has_id id) db.gpu_work ≡ some w
        → w.resource_id ≡ r.id
        → Ends Q
            (answer c before_id r w token duration position (find (holds r.id) db.gpu_work) db))
    → Ends Q (acquire_gpu_work c before_id id token duration db)
unfolding acquire_gpu_work
acquire-Ends Q c before_id id token duration db k = elim (Bool-cases (lease_valid token duration)) [
  | inr unfit ↦ rw unfit tt
  | inl fit ↦ rw fit (lock_work-Ends Q id _ db (λ w r e g. k w r _ e (locked_resource db w g)))
]

-- The caller's work item holds its resource under the caller's token, and nobody asked to cancel it.
pub record IsGranted (id token : String) (work : GpuWork) (db : Db) : Type 0 where
  pub stored : find (has_id id) db.gpu_work ≡ some work
  pub is_held_now : is_held work.state ≡ true
  pub has_token : str_eq work.lease_token token ≡ true
  pub has_deadline : is_some work.lease_until ≡ true
  pub uncancelled : work.cancellation_requested ≡ false

abbrev GrantsRightly : String → String → GpuAdmission → Db → Type 0
GrantsRightly id token a db = a.granted ≡ true → IsGranted id token a.work db

hold-kept_id :
    (c : Clock) (token : String) (duration : ℕ) (id : String) (w : GpuWork)
    → has_id id (hold c token duration w) ≡ has_id id w
unfolding hold has_id
hold-kept_id c token duration id w = refl

own_id : (w : GpuWork) → has_id w.id w ≡ true
unfolding has_id
own_id w = (eq_iff w.id w.id).1 refl

grant-IsGranted :
    (c : Clock) (r : GpuResource) (w : GpuWork) (id token : String) (duration position : ℕ)
    (db : Db)
    → find (has_id id) db.gpu_work ≡ some w
    → w.cancellation_requested ≡ false
    → Ends (GrantsRightly id token) (grant c r w token duration position db)
unfolding grant gpu_event invalidate_observation
grant-IsGranted c r w id token duration position db found free =
    rw
      (update_work-bind no_rows (has_id w.id) (hold c token duration) _ db
        (found_under_own_id id db found))
      (λ yes_granted. record {
        stored =
            find-update (has_id id) (has_id w.id) (hold c token duration) db.gpu_work
              (hold-kept_id c token duration id) found
            ∙ rw (own_id w);
        is_held_now = (unfold hold is_held in refl);
        has_token = (unfold hold in (eq_iff token token).1 refl);
        has_deadline = (unfold hold in refl);
        uncancelled = (unfold hold in free);
      })

take_turn-IsGranted :
    (c : Clock) (r : GpuResource) (w : GpuWork) (id token : String) (duration position : ℕ)
    (o : Option GpuWork) (db : Db)
    → find (has_id id) db.gpu_work ≡ some w
    → w.cancellation_requested ≡ false
    → Ends (GrantsRightly id token) (take_turn c r w token duration position o db)
unfolding take_turn
take_turn-IsGranted c r w id token duration position none db found free = λ e. cc
take_turn-IsGranted c r w id token duration position (some next) db found free =
    elim (Bool-cases (str_eq next.id w.id)) [
      | inl mine ↦ rw mine (grant-IsGranted c r w id token duration position db found free)
      | inr other ↦ rw other (λ e. cc)
    ]

-- The refusals of a free resource's admission, and its turn.
pub admit-Ends :
    (Q : GpuAdmission → Db → Type 0) (c : Clock) (before_id : String → String → Bool)
    (r : GpuResource) (w : GpuWork) (token : String) (duration position : ℕ) (db : Db)
    → ((code : WaitCode) → Q (refused w position r.revision code) db)
    → (w.cancellation_requested ≡ false
        → Ends Q (
            take_turn c r w token duration position
              (first_in_queue before_id (queue c r.id db))
              db))
    → Ends Q (admit c before_id r w token duration position db)
unfolding admit
admit-Ends Q c before_id r w token duration position db stop go =
    elim (Bool-cases (not (is_waiting w.state) || w.cancellation_requested)) [
      | inl e ↦ rw e (stop _)
      | inr e ↦ rw e (elim (Bool-cases (not (ltb c.clock w.ready_until))) [
        | inl f ↦ rw f (stop _)
        | inr f ↦
            rw f
              (elim (Bool-cases (not (is_idle r.observation) || not (ltb c.clock r.valid_until))) [
                | inl g ↦ rw g (stop _)
                | inr g ↦ rw g (go (ground arith))
              ])
      ])
    ]

admit-IsGranted :
    (c : Clock) (before_id : String → String → Bool) (r : GpuResource) (w : GpuWork)
    (id token : String) (duration position : ℕ) (db : Db)
    → find (has_id id) db.gpu_work ≡ some w
    → Ends (GrantsRightly id token) (admit c before_id r w token duration position db)
admit-IsGranted c before_id r w id token duration position db found =
    admit-Ends (GrantsRightly id token) c before_id r w token duration position db (λ code e. cc)
      (λ free. take_turn-IsGranted c r w id token duration position _ db found free)

deadline_of :
    (w : GpuWork) → is_held w.state ≡ true → lease_shaped w ≡ true → is_some w.lease_until ≡ true
unfolding lease_shaped is_held is_active
deadline_of w e shape = ground arith

admission_under_granted :
    (w : GpuWork) (token : String) (position revision : ℕ) (holder : GpuWork)
    → (admission_under w token position revision holder).granted ≡ true
    → (str_eq holder.id w.id ≡ true)
      × (is_held holder.state ≡ true)
      × (str_eq holder.lease_token token ≡ true)
      × (holder.cancellation_requested ≡ false)
      × ((admission_under w token position revision holder).work ≡ holder)
unfolding admission_under
admission_under_granted w token position revision holder e =
    (ground arith, ground arith, ground arith, ground arith, ground arith)

held-IsGranted :
    (w : GpuWork) (id token : String) (position revision : ℕ) (holder : GpuWork) (db : Db)
    → HasGpuInvariant db
    → find (has_id id) db.gpu_work ≡ some w
    → find (has_id holder.id) db.gpu_work ≡ some holder
    → GrantsRightly id token (admission_under w token position revision holder) db
held-IsGranted w id token position revision holder db h found stored e =
    let facts = admission_under_granted w token position revision holder e in
    let same : holder.id ≡ id = (eq_iff holder.id w.id).0 facts.0 ∙ found_id id db.gpu_work found in
    let shape = shape_of db h (has_id holder.id) stored in
    subst (λ v. IsGranted id token v db) (sym facts.4)
      (record {
        stored = subst (λ i. find (has_id i) db.gpu_work ≡ some holder) same stored;
        is_held_now = facts.1;
        has_token = facts.2;
        has_deadline = deadline_of holder facts.1 shape;
        uncancelled = facts.3;
      })

contend-IsGranted :
    (c : Clock) (r : GpuResource) (w : GpuWork) (id token : String) (position : ℕ)
    (holder : GpuWork) (db : Db)
    → HasGpuInvariant db
    → find (has_id id) db.gpu_work ≡ some w
    → find (holds r.id) db.gpu_work ≡ some holder
    → Ends (GrantsRightly id token) (contend c r w token position holder db)
unfolding contend gpu_event invalidate_observation
contend-IsGranted c r w id token position holder db h found busy =
    elim (Bool-cases (is_held holder.state && not (later_than holder.lease_until c.clock))) [
      | inl late ↦ rw late (
          rw
            (update_work-bind no_rows (has_id holder.id) (expire_lease c) _ db
              (holder_by_id db h r.id holder busy))
            (λ e. absurd (unfold expire_lease admission_under is_held in ground arith)))
      | inr live ↦ rw live (
          held-IsGranted w id token position r.revision holder db h found
            (holder_by_id db h r.id holder busy))
    ]

answer-IsGranted :
    (c : Clock) (before_id : String → String → Bool) (r : GpuResource) (w : GpuWork)
    (id token : String) (duration position : ℕ) (o : Option GpuWork) (db : Db)
    → HasGpuInvariant db
    → find (has_id id) db.gpu_work ≡ some w
    → find (holds r.id) db.gpu_work ≡ o
    → Ends (GrantsRightly id token) (answer c before_id r w token duration position o db)
unfolding answer
answer-IsGranted c before_id r w id token duration position none db h found free =
    admit-IsGranted c before_id r w id token duration position db found
answer-IsGranted c before_id r w id token duration position (some holder) db h found busy =
    contend-IsGranted c r w id token position holder db h found busy

acquire_granted :
    (c : Clock) (before_id : String → String → Bool) (id token : String) (duration : ℕ) (db : Db)
    → HasGpuInvariant db
    → Ends (GrantsRightly id token) (acquire_gpu_work c before_id id token duration db)
acquire_granted c before_id id token duration db h =
    acquire-Ends (GrantsRightly id token) c before_id id token duration db
      (λ w r position found same.
        answer-IsGranted c before_id r w id token duration position (find (holds r.id) db.gpu_work)
          db h found refl)

-- In a table with unique ids, one holder at most to a resource and a lease on exactly the holders:
-- when AcquireGPUWork answers that the lease is granted, on a new turn or to the holder's repeated
-- call, the returned work item is stored under its id, is held under the caller's token with a
-- deadline, and its cancellation is not requested.
pub acquire-IsGranted :
    (c : Clock) (before_id : String → String → Bool) (id token : String) (duration : ℕ) (db : Db)
    {a : GpuAdmission} {db' : Db}
    → HasGpuInvariant db
    → acquire_gpu_work c before_id id token duration db ≡ ok (a, db')
    → a.granted ≡ true
    → IsGranted id token a.work db'
acquire-IsGranted c before_id id token duration db h success =
    Ends-ok (GrantsRightly id token) (acquire_gpu_work c before_id id token duration db)
      (acquire_granted c before_id id token duration db h) success

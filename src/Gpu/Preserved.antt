-- ===== src/Gpu/Preserved.antt =====
-- Every operation of internal/store/gpu_work.go keeps the invariants of the table gpu_work.
use personal_cloud_ai_servic.Prelude.{
  ℕ, ◌==◌, ◌≡◌, refl, Bool, true, false, not, ◌||◌, Option, none, some, String, arith, Bool-cases,
  inl, inr, find, any,
}
use personal_cloud_ai_servic.Domain.Gpu.{GpuWork, GpuWorkRequest, Phase, GpuReleaseEvidence}
use personal_cloud_ai_servic.Db.{Db, Error, Clock}
use personal_cloud_ai_servic.Db.Keeps.{Keeps, After, Keeps-pure, Keeps-if, Keeps-bind, keeps_rules}
use personal_cloud_ai_servic.Gpu.{
  has_id, is_active, rewritten, update_work, gpu_event, invalidate_observation, lock_work,
  is_waiting, lease_valid,
}
use personal_cloud_ai_servic.Gpu.Invariant.{
  IsExclusive, IsTame, update-IsExclusive, insert-IsExclusive, lease_shaped,
}
use personal_cloud_ai_servic.Gpu.Enqueue.{
  enqueue_gpu_work, renew_intent, insert_work, insert_resource, new_work, same_key,
}
use personal_cloud_ai_servic.Gpu.Release.{
  heartbeat_gpu_work, beats, prolong, enter_phase, cancel, give_up, set_gpu_work_phase,
  request_gpu_work_cancellation, release_gpu_work,
}

pub record HasGpuInvariant (db : Db) : Type 0 where
  pub table : IsExclusive db.gpu_work

pub renew_intent-IsTame : (q : GpuWork → Bool) (c : Clock) (p : Bool) → IsTame q (renew_intent c p)
unfolding renew_intent lease_shaped
renew_intent-IsTame q c p = record {
  same_id = λ w. refl;
  same_resource = λ w. refl;
  no_holder = λ w e h. h;
  shaped = λ w e h. h;
}

prolong-IsTame :
    (c : Clock) (id token : String) (duration : ℕ) → IsTame (beats c id token) (prolong c duration)
unfolding prolong lease_shaped beats is_active
prolong-IsTame c id token duration = record {
  same_id = λ w. refl;
  same_resource = λ w. refl;
  no_holder = λ w e h. h;
  shaped = λ w e h. ground arith;
}

pub enter_phase-IsTame :
    (q : GpuWork → Bool) (c : Clock) (p : Phase) (x : String) → IsTame q (enter_phase c p x)
unfolding enter_phase lease_shaped
enter_phase-IsTame q c p x = record {
  same_id = λ w. refl;
  same_resource = λ w. refl;
  no_holder = λ w e h. h;
  shaped = λ w e h. h;
}

pub cancel-IsTame : (q : GpuWork → Bool) (c : Clock) → IsTame q (cancel c)
unfolding cancel lease_shaped is_active is_waiting
cancel-IsTame q c = record {
  same_id = λ w. refl;
  same_resource = λ w. refl;
  no_holder = λ w e h. ground arith;
  shaped = λ w e h. ground arith;
}

pub give_up-IsTame : (q : GpuWork → Bool) (c : Clock) → IsTame q (give_up c)
unfolding give_up lease_shaped is_active
give_up-IsTame q c = record {
  same_id = λ w. refl;
  same_resource = λ w. refl;
  no_holder = λ w e h. ground arith;
  shaped = λ w e h. ground arith;
}

After-rewritten :
    (e : Error) (q : GpuWork → Bool) (f : GpuWork → GpuWork) (o : Option GpuWork) (db : Db)
    → IsTame q f
    → HasGpuInvariant db
    → After HasGpuInvariant (rewritten e q f o db)
After-rewritten e q f none db t h = tt
After-rewritten e q f (some w) db t h = record {
  table = update-IsExclusive q f t db.gpu_work h.table;
}

pub update_work-Keeps :
    (e : Error) (q : GpuWork → Bool) (f : GpuWork → GpuWork)
    → IsTame q f
    → Keeps HasGpuInvariant (update_work e q f)
unfolding update_work
update_work-Keeps e q f t = record { at = λ db. After-rewritten e q f (find q db.gpu_work) db t }

pub gpu_event-Keeps :
    (id : String) (s : _) (code detail : String)
    → Keeps HasGpuInvariant (gpu_event id s code detail)
unfolding gpu_event
gpu_event-Keeps id s code detail = record { at = λ db h. record { table = h.table } }

pub invalidate-Keeps :
    (c : Clock) (id : String) → Keeps HasGpuInvariant (invalidate_observation c id)
unfolding invalidate_observation
invalidate-Keeps c id = record { at = λ db h. record { table = h.table } }

pub lock_work-Keeps : (id : String) → Keeps HasGpuInvariant (lock_work id)
unfolding lock_work
lock_work-Keeps id = search keeps_rules

pub insert_resource-Keeps : (c : Clock) (id : String) → Keeps HasGpuInvariant (insert_resource c id)
unfolding insert_resource
insert_resource-Keeps c id = record { at = λ db h. record { table = ground (arith, h.table) } }

new_work-idle : (c : Clock) (input : GpuWorkRequest) → is_active (new_work c input).state ≡ false
unfolding new_work is_active
new_work-idle c input = refl

new_work-shaped : (c : Clock) (input : GpuWorkRequest) → lease_shaped (new_work c input) ≡ true
unfolding new_work is_active lease_shaped
new_work-shaped c input = refl

pub insert_work-Keeps :
    (c : Clock) (input : GpuWorkRequest) → Keeps HasGpuInvariant (insert_work c input)
unfolding insert_work
insert_work-Keeps c input = record {
  at = λ db h. elim (Bool-cases (any (same_key input.kind input.job_key) db.gpu_work)) [
    | inl old ↦ rw old h
    | inr new ↦
        elim (Bool-cases
          (any (has_id input.id) db.gpu_work || not (any (λ u. u.id == input.user_id) db.users))) [
            | inl taken ↦ rw (new, taken) tt
            | inr free ↦
                rw (new, free)
                  (record {
                    table =
                        insert-IsExclusive (new_work c input) db.gpu_work (fresh db free)
                          (new_work-idle c input) (new_work-shaped c input) h.table;
                  })
          ]
  ];
}
  where
    fresh :
        (db : Db)
        → (any (has_id input.id) db.gpu_work || not (any (λ u. u.id == input.user_id) db.users))
          ≡ false
        → any (has_id (new_work c input).id) db.gpu_work ≡ false
    fresh db e = ground arith

pub ruleset gpu_rules = (
  keeps_rules, gpu_event-Keeps, invalidate-Keeps, lock_work-Keeps, insert_resource-Keeps,
  insert_work-Keeps, update_work-Keeps, renew_intent-IsTame, cancel-IsTame, give_up-IsTame,
  enter_phase-IsTame,
)

-- Enqueueing keeps the invariants.
pub enqueue-Keeps :
    (c : Clock) (input : GpuWorkRequest) → Keeps HasGpuInvariant (enqueue_gpu_work c input)
unfolding enqueue_gpu_work
enqueue-Keeps c input = search gpu_rules depth 20

pub set_phase-Keeps :
    (c : Clock) (id token : String) (phase : Phase) (x : String)
    → Keeps HasGpuInvariant (set_gpu_work_phase c id token phase x)
unfolding set_gpu_work_phase
set_phase-Keeps c id token phase x = search gpu_rules depth 20

pub cancellation-Keeps :
    (c : Clock) (id : String) → Keeps HasGpuInvariant (request_gpu_work_cancellation c id)
unfolding request_gpu_work_cancellation
cancellation-Keeps c id = search gpu_rules depth 20

pub release-Keeps :
    (c : Clock) (id token : String) (e : GpuReleaseEvidence)
    → Keeps HasGpuInvariant (release_gpu_work c id token e)
unfolding release_gpu_work
release-Keeps c id token e = search gpu_rules depth 20

pub heartbeat-Keeps :
    (c : Clock) (id token : String) (duration : ℕ)
    → Keeps HasGpuInvariant (heartbeat_gpu_work c id token duration)
unfolding heartbeat_gpu_work
heartbeat-Keeps c id token duration = record {
  at = λ db h. elim (Bool-cases (lease_valid token duration)) [
    | inl fit ↦ rw fit (record {
      table =
          update-IsExclusive (beats c id token) (prolong c duration)
            (prolong-IsTame c id token duration) db.gpu_work h.table;
    })
    | inr unfit ↦ rw unfit tt
  ];
}

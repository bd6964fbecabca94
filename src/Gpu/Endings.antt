-- ===== src/Gpu/Endings.antt =====
-- A lease ends only by a release with evidence: lost responses, expired leases, cancellation
-- requests and other calls leave held work held or uncertain.
use personal_cloud_ai_servic.Gpu.Grants.{admit-Ends, acquire-Ends}
use personal_cloud_ai_servic.Gpu.{
  has_id, update_work, gpu_event, invalidate_observation, lock_work, is_active, is_waiting,
  rewritten,
}
use personal_cloud_ai_servic.Db.{Db, Error, Clock}
use personal_cloud_ai_servic.Db.Keeps.{keeps_rules, Keeps, After}
use personal_cloud_ai_servic.Gpu.Acquire.{
  expire_lease, hold, grant, contend, take_turn, answer, acquire_gpu_work,
}
use personal_cloud_ai_servic.Gpu.Release.{
  prolong, enter_phase, cancel, request_gpu_work_cancellation, set_gpu_work_phase,
}
use personal_cloud_ai_servic.Gpu.Enqueue.{renew_intent}
use personal_cloud_ai_servic.Domain.Gpu.{GpuWork, WorkState, Phase, GpuResource}
use personal_cloud_ai_servic.Prelude.{
  String, Bool, find, ◌≡◌, update, Option, ℕ, some, true, if◌then◌else◌, find-update, arith,
  Bool-cases, false, refl, str_eq, none, inl, inr,
}

-- The work item under an id is held or uncertain.
pub record IsLeased (id : String) (db : Db) : Type 0 where
  pub work : GpuWork
  pub stored : find (has_id id) db.gpu_work ≡ some work
  pub active : is_active work.state ≡ true

pub record IsSteady (f : GpuWork → GpuWork) : Type 0 where
  pub same_id : (id : String) (w : GpuWork) → has_id id (f w) ≡ has_id id w
  pub stays : (w : GpuWork) → is_active w.state ≡ true → is_active (f w).state ≡ true

steady-if :
    (f : GpuWork → GpuWork)
    → IsSteady f
    → (b : Bool) (w : GpuWork) → is_active w.state ≡ true
    → is_active (if b then f w else w).state ≡ true
steady-if f t true w a = t.stays w a
steady-if f t false w a = a

pub update-IsLeased :
    (id : String) (q : GpuWork → Bool) (f : GpuWork → GpuWork) (db : Db)
    → IsSteady f
    → IsLeased id db
    → IsLeased id (record db { gpu_work = update q f db.gpu_work })
update-IsLeased id q f db t h = record {
  work = if q h.work then f h.work else h.work;
  stored = find-update (has_id id) q f db.gpu_work (t.same_id id) h.stored;
  active = steady-if f t (q h.work) h.work h.active;
}

After-rewritten-IsLeased :
    (id : String) (e : Error) (q : GpuWork → Bool) (f : GpuWork → GpuWork) (o : Option GpuWork)
    (db : Db)
    → IsSteady f
    → IsLeased id db
    → After (IsLeased id) (rewritten e q f o db)
After-rewritten-IsLeased id e q f none db t h = tt
After-rewritten-IsLeased id e q f (some w) db t h = update-IsLeased id q f db t h

module _ (id : String) where
  pub update_work-steady :
      (e : Error) (q : GpuWork → Bool) (f : GpuWork → GpuWork)
      → IsSteady f
      → Keeps (IsLeased id) (update_work e q f)
  unfolding update_work
  update_work-steady e q f t = record {
    at = λ db. After-rewritten-IsLeased id e q f (find q db.gpu_work) db t;
  }

  pub gpu_event-steady :
      (i : String) (s : WorkState) (code detail : String)
      → Keeps (IsLeased id) (gpu_event i s code detail)
  unfolding gpu_event
  gpu_event-steady i s code detail = record {
    at = λ db h. record { work = h.work; stored = h.stored; active = h.active };
  }

  pub invalidate-steady :
      (c : Clock) (i : String) → Keeps (IsLeased id) (invalidate_observation c i)
  unfolding invalidate_observation
  invalidate-steady c i = record {
    at = λ db h. record { work = h.work; stored = h.stored; active = h.active };
  }

  pub lock_work-steady : (i : String) → Keeps (IsLeased id) (lock_work i)
  unfolding lock_work
  lock_work-steady i = search keeps_rules

pub renew_intent-IsSteady : (c : Clock) (p : Bool) → IsSteady (renew_intent c p)
unfolding renew_intent has_id
renew_intent-IsSteady c p = record { same_id = λ i w. refl; stays = λ w a. a }

pub prolong-IsSteady : (c : Clock) (d : ℕ) → IsSteady (prolong c d)
unfolding prolong has_id
prolong-IsSteady c d = record { same_id = λ i w. refl; stays = λ w a. a }

pub enter_phase-IsSteady : (c : Clock) (p : Phase) (x : String) → IsSteady (enter_phase c p x)
unfolding enter_phase has_id
enter_phase-IsSteady c p x = record { same_id = λ i w. refl; stays = λ w a. a }

pub cancel-IsSteady : (c : Clock) → IsSteady (cancel c)
unfolding cancel has_id is_active is_waiting
cancel-IsSteady c = record { same_id = λ i w. refl; stays = λ w a. ground arith }

pub expire_lease-IsSteady : (c : Clock) → IsSteady (expire_lease c)
unfolding expire_lease has_id is_active
expire_lease-IsSteady c = record { same_id = λ i w. refl; stays = λ w a. refl }

pub hold-IsSteady : (c : Clock) (token : String) (d : ℕ) → IsSteady (hold c token d)
unfolding hold has_id is_active
hold-IsSteady c token d = record { same_id = λ i w. refl; stays = λ w a. refl }

pub ruleset steady_rules = (
  keeps_rules, update_work-steady, gpu_event-steady, invalidate-steady, lock_work-steady,
  renew_intent-IsSteady, enter_phase-IsSteady, cancel-IsSteady, expire_lease-IsSteady,
  hold-IsSteady,
)

pub cancel-Keeps :
    (id : String) (c : Clock) (i : String) → Keeps (IsLeased id) (request_gpu_work_cancellation c i)
unfolding request_gpu_work_cancellation
cancel-Keeps id c i = search steady_rules depth 20

pub phase-Keeps :
    (id : String) (c : Clock) (i token : String) (p : Phase) (x : String)
    → Keeps (IsLeased id) (set_gpu_work_phase c i token p x)
unfolding set_gpu_work_phase
phase-Keeps id c i token p x = search steady_rules depth 20

grant-steady :
    (id : String) (c : Clock) (r : GpuResource) (w : GpuWork) (token : String) (d n : ℕ)
    → Keeps (IsLeased id) (grant c r w token d n)
unfolding grant
grant-steady id c r w token d n = search steady_rules depth 20

contend-steady :
    (id : String) (c : Clock) (r : GpuResource) (w : GpuWork) (token : String) (n : ℕ)
    (holder : GpuWork)
    → Keeps (IsLeased id) (contend c r w token n holder)
unfolding contend
contend-steady id c r w token n holder = search steady_rules depth 20

take_turn-steady :
    (id : String) (c : Clock) (r : GpuResource) (w : GpuWork) (token : String) (d n : ℕ)
    (o : Option GpuWork) (db : Db)
    → IsLeased id db
    → After (IsLeased id) (take_turn c r w token d n o db)
unfolding take_turn
take_turn-steady id c r w token d n none db h = h
take_turn-steady id c r w token d n (some next) db h = elim (Bool-cases (str_eq next.id w.id)) [
  | inl mine ↦ rw mine ((grant-steady id c r w token d n).at db h)
  | inr other ↦ rw other h
]

answer-steady :
    (id : String) (c : Clock) (b : String → String → Bool) (r : GpuResource) (w : GpuWork)
    (token : String) (d n : ℕ) (o : Option GpuWork) (db : Db)
    → IsLeased id db
    → After (IsLeased id) (answer c b r w token d n o db)
unfolding answer
answer-steady id c b r w token d n none db h =
    admit-Ends (λ _ d'. IsLeased id d') c b r w token d n db (λ code. h)
      (λ free. take_turn-steady id c r w token d n _ db h)
answer-steady id c b r w token d n (some holder) db h =
    (contend-steady id c r w token n holder).at db h

pub acquire-steady :
    (id : String) (c : Clock) (b : String → String → Bool) (i token : String) (d : ℕ)
    → Keeps (IsLeased id) (acquire_gpu_work c b i token d)
acquire-steady id c b i token d = record {
  at = λ db h.
      acquire-Ends (λ _ d'. IsLeased id d') c b i token d db
        (λ w r n found same. answer-steady id c b r w token d n _ db h);
}

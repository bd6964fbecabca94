-- ===== src/Gpu/Evidence.antt =====
-- What ends a lease: ReleaseGPUWork with the lease token, the current revision of the resource and
-- evidence that its code accepts.
use personal_cloud_ai_servic.Gpu.Locked.{lock_work-Ends}
use personal_cloud_ai_servic.Gpu.Admitted.{found_id}
use personal_cloud_ai_servic.Db.Keeps.{Keeps, After}
use personal_cloud_ai_servic.Gpu.Endings.{IsLeased, steady_rules}
use personal_cloud_ai_servic.Domain.Gpu.{GpuReleaseEvidence, GpuWork, GpuResource, GpuWorkRequest}
use personal_cloud_ai_servic.Prelude.{
  String, ◌≡◌, str_eq, false, refl, find, some, update, find-update, ◌∙◌, ◌&&◌, true, Option,
  Bool-cases, arith, some_unique, any, inr, subst, ◌∷◌, inl, eq_iff, none, ◌==◌, any-find,
}
use personal_cloud_ai_servic.Gpu.Enqueue.{
  wait_again, retry_gpu_work, insert_resource, new_work, insert_work, enqueue_gpu_work, is_finished,
  same_key,
}
use personal_cloud_ai_servic.Gpu.Release.{give_up, release_gpu_work, evidence_valid}
use personal_cloud_ai_servic.Gpu.{
  has_id, update_work, is_resource, is_held, later_than, is_active, rewritten,
}
use personal_cloud_ai_servic.Db.{Clock, Db, Error}

-- The conditions under which a release takes effect.
pub record IsEvidence (c : Clock) (id token : String) (e : GpuReleaseEvidence) (db : Db)
    : Type 0 where
  pub work : GpuWork
  pub resource : GpuResource
  pub stored : find (has_id id) db.gpu_work ≡ some work
  pub located : find (is_resource work.resource_id) db.gpu_resources ≡ some resource
  pub fresh : resource.revision ≡ e.resource_revision
  pub own_token : work.lease_token ≡ token
  pub accepted :
      evidence_valid (is_held work.state && later_than work.lease_until c.clock) work e.code ≡ true

-- A change of the rows under another id.
other-IsLeased :
    (id i : String) (f : GpuWork → GpuWork) (db : Db)
    → ((j : String) (w : GpuWork) → has_id j (f w) ≡ has_id j w)
    → str_eq i id ≡ false
    → IsLeased i db
    → IsLeased i (record db { gpu_work = update (has_id id) f db.gpu_work })
unfolding has_id
other-IsLeased id i f db same differ h =
    let own : h.work.id ≡ i = found_id i db.gpu_work h.stored in
    let missed : str_eq h.work.id id ≡ false = rw own differ in
    record {
      work = h.work;
      stored = find-update (has_id i) (has_id id) f db.gpu_work (same i) h.stored ∙ rw missed;
      active = h.active;
    }

give_up_id : (c : Clock) (j : String) (w : GpuWork) → has_id j (give_up c w) ≡ has_id j w
unfolding give_up has_id
give_up_id c j w = refl

wait_again_id : (c : Clock) (j : String) (w : GpuWork) → has_id j (wait_again c w) ≡ has_id j w
unfolding wait_again has_id
wait_again_id c j w = refl

After-rewritten-other :
    (id i : String) (x : Error) (f : GpuWork → GpuWork) (o : Option GpuWork) (db : Db)
    → ((j : String) (w : GpuWork) → has_id j (f w) ≡ has_id j w)
    → str_eq i id ≡ false
    → IsLeased i db
    → After (IsLeased i) (rewritten x (has_id id) f o db)
After-rewritten-other id i x f none db same differ h = tt
After-rewritten-other id i x f (some w) db same differ h = other-IsLeased id i f db same differ h

update_work-other :
    (id i : String) (x : Error) (f : GpuWork → GpuWork)
    → ((j : String) (w : GpuWork) → has_id j (f w) ≡ has_id j w)
    → str_eq i id ≡ false
    → Keeps (IsLeased i) (update_work x (has_id id) f)
unfolding update_work
update_work-other id i x f same differ = record {
  at = λ db. After-rewritten-other id i x f (find (has_id id) db.gpu_work) db same differ;
}

give_up-other :
    (id i : String) (c : Clock) (x : Error)
    → str_eq i id ≡ false
    → Keeps (IsLeased i) (update_work x (has_id id) (give_up c))
give_up-other id i c x differ = update_work-other id i x (give_up c) (give_up_id c) differ

wait_again-other :
    (id i : String) (c : Clock) (x : Error)
    → str_eq i id ≡ false
    → Keeps (IsLeased i) (update_work x (has_id id) (wait_again c))
wait_again-other id i c x differ = update_work-other id i x (wait_again c) (wait_again_id c) differ

pub release_other :
    (c : Clock) (id token i : String) (e : GpuReleaseEvidence)
    → str_eq i id ≡ false
    → Keeps (IsLeased i) (release_gpu_work c id token e)
unfolding release_gpu_work
release_other c id token i e differ = search (steady_rules, give_up-other) depth 20

retry_other :
    (c : Clock) (id i : String) → str_eq i id ≡ false → Keeps (IsLeased i) (retry_gpu_work c id)
unfolding retry_gpu_work
retry_other c id i differ = search (steady_rules, wait_again-other) depth 20

not_finished : (w : GpuWork) → is_active w.state ≡ true → is_finished w.state ≡ false
unfolding is_active is_finished
not_finished w a = ground arith

-- A leased work item is not retried.
retry_same : (c : Clock) (i : String) → Keeps (IsLeased i) (retry_gpu_work c i)
unfolding retry_gpu_work
retry_same c i = record {
  at = λ db h.
      lock_work-Ends (λ _ d. IsLeased i d) i _ db
        (λ w r found located.
          let same = some_unique (find (has_id i) db.gpu_work) h.stored found in
          rw (not_finished w (subst (λ v. is_active v.state ≡ true) same h.active)) tt);
}

pub retry-steady : (c : Clock) (id i : String) → Keeps (IsLeased i) (retry_gpu_work c id)
retry-steady c id i = elim (Bool-cases (str_eq i id)) [
  | inr differ ↦ retry_other c id i differ
  | inl same ↦
      subst (λ j. Keeps (IsLeased i) (retry_gpu_work c j)) ((eq_iff i id).0 same) (retry_same c i)
]

insert_resource-steady : (c : Clock) (i id : String) → Keeps (IsLeased i) (insert_resource c id)
unfolding insert_resource
insert_resource-steady c i id = record {
  at = λ db h. record { work = h.work; stored = ground (arith, h.stored); active = h.active };
}

new_row_apart :
    (c : Clock) (input : GpuWorkRequest) (i : String) (db : Db)
    → any (has_id input.id) db.gpu_work ≡ false
    → IsLeased i db
    → find (has_id i) (new_work c input ∷ db.gpu_work) ≡ find (has_id i) db.gpu_work
unfolding find new_work has_id
new_row_apart c input i db fresh h = elim (Bool-cases (str_eq input.id i)) [
  | inr differ ↦ rw differ
  | inl same ↦
      let gone : find (has_id i) db.gpu_work ≡ none =
        subst (λ j. find (has_id j) db.gpu_work ≡ none) ((eq_iff input.id i).0 same)
          (any-find (has_id input.id) db.gpu_work fresh) in
      absurd (ground (arith, h.stored))
]

insert_work-steady :
    (c : Clock) (i : String) (input : GpuWorkRequest) → Keeps (IsLeased i) (insert_work c input)
unfolding insert_work
insert_work-steady c i input = record {
  at = λ db h. elim (Bool-cases (any (same_key input.kind input.job_key) db.gpu_work)) [
    | inl old ↦ rw old h
    | inr new ↦ elim (Bool-cases (any (has_id input.id) db.gpu_work)) [
      | inl taken ↦ rw (new, taken) tt
      | inr fresh ↦ elim (Bool-cases (any (λ u. u.id == input.user_id) db.users)) [
        | inr nobody ↦ rw (new, fresh, nobody) tt
        | inl known ↦
            rw (new, fresh, known)
              (record {
                work = h.work;
                stored = new_row_apart c input i db fresh h ∙ h.stored;
                active = h.active;
              })
      ]
    ]
  ];
}

pub enqueue-steady :
    (c : Clock) (i : String) (input : GpuWorkRequest)
    → Keeps (IsLeased i) (enqueue_gpu_work c input)
unfolding enqueue_gpu_work
enqueue-steady c i input =
    search (steady_rules, insert_resource-steady, insert_work-steady) depth 20

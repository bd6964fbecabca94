-- ===== src/Gpu/Unlease.antt =====
-- The one call that ends a lease.
use personal_cloud_ai_servic.Gpu.Locked.{lock_work-unowned, lock_work-found}
use personal_cloud_ai_servic.Gpu.{
  lease_valid, text_valid, is_resource, lock_work, is_active, is_held, later_than,
}
use personal_cloud_ai_servic.Gpu.Evidence.{IsEvidence, release_other, enqueue-steady, retry-steady}
use personal_cloud_ai_servic.Db.Keeps.{
  Keeps, After, Keeps-committed, bind-err, after-committed, bind-ok,
}
use personal_cloud_ai_servic.Gpu.Endings.{
  IsLeased, update-IsLeased, acquire-steady, prolong-IsSteady, phase-Keeps, cancel-Keeps,
}
use personal_cloud_ai_servic.Domain.Gpu.{GpuResource, GpuReleaseEvidence, Observation}
use personal_cloud_ai_servic.Db.{Db, Clock, committed}
use personal_cloud_ai_servic.Gpu.Calls.{
  step, Call, releases, enqueues, observes, acquires, heartbeats, enters_phase, cancels, retries,
}
use personal_cloud_ai_servic.Gpu.Enqueue.{
  observe_gpu_resource, rewritten_resource, at_revision, observed,
}
use personal_cloud_ai_servic.Gpu.Release.{
  release_gpu_work, heartbeat_gpu_work, beats, prolong, evidence_valid,
}
use personal_cloud_ai_servic.Prelude.{
  String, Bool, ℕ, Option, ◌≡◌, Bool-cases, arith, ◌⊎◌, str_eq, inl, inr, some, Option-cases, find,
  none, eq_iff, subst, not, ◌==◌, sym, ◌||◌, ◌&&◌,
}

-- What a call must be to end the lease of the work item `i`.
abbrev pub EndsLease : String → Db → Clock × Call → Type 0
EndsLease i db (c, releases id token e) = (id ≡ i) × IsEvidence c id token e db
EndsLease i db (c, enqueues input) = ⊥
EndsLease i db (c, observes id revision o message valid_for) = ⊥
EndsLease i db (c, acquires id token duration) = ⊥
EndsLease i db (c, heartbeats id token duration) = ⊥
EndsLease i db (c, enters_phase id token phase x) = ⊥
EndsLease i db (c, cancels id) = ⊥
EndsLease i db (c, retries id) = ⊥

-- A release of leased work either leaves the lease or had its evidence.
release_same :
    (c : Clock) (i token : String) (e : GpuReleaseEvidence) (db : Db)
    → IsLeased i db
    → After (IsLeased i) (release_gpu_work c i token e db) ⊎ IsEvidence c i token e db
unfolding release_gpu_work
release_same c i token e db h = elim (Bool-cases (text_valid e.detail 1000)) [
  | inr unfit ↦ inl (rw unfit tt)
  | inl fit ↦ elim (Option-cases (find (is_resource h.work.resource_id) db.gpu_resources)) [
    | inl missing ↦
        inl (rw fit (rw (bind-err (lock_work i) _ db (lock_work-unowned i db h.stored missing)) tt))
    | inr (r, located) ↦
        elim (Bool-cases (
          not (r.revision == e.resource_revision)
          || not (str_eq h.work.lease_token token)
          || not (is_active h.work.state))) [
            | inl conflict ↦ inl (
                rw fit (
                  rw (bind-ok (lock_work i) _ db (lock_work-found i db h.stored located))
                    (rw conflict tt)))
            | inr agreed ↦
                elim (Bool-cases (
                  evidence_valid (is_held h.work.state && later_than h.work.lease_until c.clock)
                    h.work e.code)) [
                      | inr rejected ↦ inl (
                          rw fit (
                            rw (bind-ok (lock_work i) _ db (lock_work-found i db h.stored located))
                              (rw (agreed, rejected) tt)))
                      | inl accepted ↦ inr (record {
                        work = h.work;
                        resource = r;
                        stored = h.stored;
                        located = located;
                        fresh = ground arith;
                        own_token = (eq_iff h.work.lease_token token).0 (ground arith);
                        accepted = accepted;
                      })
                    ]
          ]
  ]
]

heartbeat-steady :
    (c : Clock) (id token i : String) (d : ℕ) → Keeps (IsLeased i) (heartbeat_gpu_work c id token d)
unfolding heartbeat_gpu_work
heartbeat-steady c id token i d = record {
  at = λ db h. elim (Bool-cases (lease_valid token d)) [
    | inr unfit ↦ rw unfit tt
    | inl fit ↦
        rw fit (update-IsLeased i (beats c id token) (prolong c d) db (prolong-IsSteady c d) h)
  ];
}

rewritten_resource-steady :
    (i : String) (p : GpuResource → Bool) (f : GpuResource → GpuResource) (o : Option GpuResource)
    (db : Db)
    → IsLeased i db
    → After (IsLeased i) (rewritten_resource p f o db)
rewritten_resource-steady i p f none db h = tt
rewritten_resource-steady i p f (some r) db h = record {
  work = h.work;
  stored = h.stored;
  active = h.active;
}

observe-steady :
    (c : Clock) (i id : String) (revision : ℕ) (o : Observation) (message : String) (valid_for : ℕ)
    → Keeps (IsLeased i) (observe_gpu_resource c id revision o message valid_for)
unfolding observe_gpu_resource
observe-steady c i id revision o message valid_for = record {
  at = λ db h. ground (
    arith,
    rewritten_resource-steady i (at_revision id revision) (observed c o message valid_for)
        (find (at_revision id revision) db.gpu_resources) db h,
  );
}

release_ends :
    (b : String → String → Bool) (c : Clock) (i id token : String) (e : GpuReleaseEvidence)
    (db : Db)
    → IsLeased i db
    → IsLeased i (step b db (c, releases id token e)) ⊎ EndsLease i db (c, releases id token e)
unfolding step
release_ends b c i id token e db h = elim (Bool-cases (str_eq i id)) [
  | inr differ ↦ inl (Keeps-committed (release_other c id token i e differ) db h)
  | inl same ↦
      let one : i ≡ id = (eq_iff i id).0 same in
      elim (release_same c i token e db h) [
        | inl kept ↦ inl (
            subst (λ j. IsLeased i (committed db (release_gpu_work c j token e db))) one
              (after-committed (IsLeased i) db (release_gpu_work c i token e db) h kept))
        | inr evidence ↦ inr (sym one, subst (λ j. IsEvidence c j token e db) one evidence)
      ]
]

-- A call after which a held or uncertain work item is no longer held or uncertain is a release of
-- that item, with its lease token, with the current revision of its resource, and with evidence that
-- the item's state, phase and kind accept.
pub step-EndsLease :
    (before_id : String → String → Bool) (db : Db) (call : Clock × Call) (i : String)
    → IsLeased i db
    → IsLeased i (step before_id db call) ⊎ EndsLease i db call
unfolding step
step-EndsLease b db (c, enqueues input) i h = inl (Keeps-committed (enqueue-steady c i input) db h)
step-EndsLease b db (c, observes id revision o message valid_for) i h =
    inl (Keeps-committed (observe-steady c i id revision o message valid_for) db h)
step-EndsLease b db (c, acquires id token d) i h =
    inl (Keeps-committed (acquire-steady i c b id token d) db h)
step-EndsLease b db (c, heartbeats id token d) i h =
    inl (Keeps-committed (heartbeat-steady c id token i d) db h)
step-EndsLease b db (c, enters_phase id token phase x) i h =
    inl (Keeps-committed (phase-Keeps i c id token phase x) db h)
step-EndsLease b db (c, cancels id) i h = inl (Keeps-committed (cancel-Keeps i c id) db h)
step-EndsLease b db (c, releases id token e) i h = release_ends b c i id token e db h
step-EndsLease b db (c, retries id) i h = inl (Keeps-committed (retry-steady c id i) db h)

-- ===== src/Gpu/Fairness.antt =====
-- The turn goes by queue time, with the head start of priority work.
use personal_cloud_ai_servic.Gpu.Locked.{update_work-bind}
use personal_cloud_ai_servic.Gpu.Admitted.{holder_by_id, holder_active, found_under_own_id}
use personal_cloud_ai_servic.Gpu.Grants.{admit-Ends, acquire-Ends}
use personal_cloud_ai_servic.Db.Keeps.{Ends, Ends-any, Ends-ok}
use personal_cloud_ai_servic.Gpu.Preserved.{HasGpuInvariant}
use personal_cloud_ai_servic.Gpu.{
  has_id, is_waiting, is_active, holds, gpu_event, invalidate_observation, is_held, later_than,
}
use personal_cloud_ai_servic.Db.{Clock, Db, ok, no_rows, second}
use personal_cloud_ai_servic.Domain.Gpu.{GpuWork, GpuResource, GpuAdmission, priority_head_start}
use personal_cloud_ai_servic.Prelude.{
  any, String, ◌≡◌, Bool, false, true, arith, List, none, some, All, ◌∷◌, Option-cases, [], inl,
  refl, subst, inr, Bool-cases, any-le, ℕ, find, Option, ◌&&◌, str_eq, All-keep, unique-All, sym,
  any-keep, not, ◌∙◌, eq_iff, ap, ◌+◌, some_unique, if◌then◌else◌, ltb, ◌*◌,
}
use personal_cloud_ai_servic.Gpu.Acquire.{
  first_in_queue, precedes, earlier, queue, take_turn, eligible, grant, admit, admission_under,
  contend, answer, acquire_gpu_work, expire_lease, head_start,
}

precedes-earlier :
    (b : String → String → Bool) (u w : GpuWork) → precedes b u w ≡ true → earlier w u ≡ false
unfolding precedes
precedes-earlier b u w t = ground arith

earlier_irrefl : (w : GpuWork) → earlier w w ≡ false
unfolding earlier
earlier_irrefl w = ground arith

earlier_trans :
    (b : String → String → Bool) (x u w : GpuWork)
    → precedes b u w ≡ false
    → earlier x w ≡ true
    → earlier x u ≡ true
unfolding precedes
earlier_trans b x u w t e = ground arith

first_in_queue-none :
    (before_id : String → String → Bool) (ws : List GpuWork)
    → first_in_queue before_id ws ≡ none
    → ws ≡ []
unfolding first_in_queue
first_in_queue-none b [] e = refl
first_in_queue-none b (w ∷ ws) e = absurd (ground arith)

-- Nobody in the list is earlier than the first in the queue.
first_in_queue-minimal :
    (before_id : String → String → Bool) (ws : List GpuWork) {v : GpuWork}
    → first_in_queue before_id ws ≡ some v
    → any (λ u. earlier u v) ws ≡ false
unfolding first_in_queue any
first_in_queue-minimal b [] e = cc
first_in_queue-minimal b (w ∷ ws) {v = v} e = elim (Option-cases (first_in_queue b ws)) [
  | inl none_left ↦
      let same : w ≡ v = ground arith in
      subst (λ t. any (λ x. earlier x t) (w ∷ ws) ≡ false) same
        (rw (first_in_queue-none b ws none_left) (ground (arith, earlier_irrefl w)))
  | inr (u, last) ↦ elim (Bool-cases (precedes b u w)) [
    | inl t ↦
        let same : u ≡ v = ground arith in
        let rest = first_in_queue-minimal b ws last in
        subst (λ t'. any (λ x. earlier x t') (w ∷ ws) ≡ false) same
          (ground (arith, precedes-earlier b u w t))
    | inr t ↦
        let same : w ≡ v = ground arith in
        let rest =
          any-le (λ x. earlier x w) (λ x. earlier x u) ws (λ x. earlier_trans b x u w t)
            (first_in_queue-minimal b ws last) in
        subst (λ t'. any (λ x. earlier x t') (w ∷ ws) ≡ false) same
          (ground (arith, earlier_irrefl w))
  ]
]

pub first_in_queue-All {κ} :
    (P : GpuWork → Type κ) (before_id : String → String → Bool) (ws : List GpuWork) {v : GpuWork}
    → All P ws
    → first_in_queue before_id ws ≡ some v
    → P v
unfolding first_in_queue
first_in_queue-All P b [] h e = absurd (ground arith)
first_in_queue-All P b (w ∷ ws) {v = v} h e = elim (Option-cases (first_in_queue b ws)) [
  | inl none_left ↦ subst P (ground arith) h.0
  | inr (u, last) ↦ elim (Bool-cases (precedes b u w)) [
    | inl t ↦ subst P (ground arith) (first_in_queue-All P b ws h.1 last)
    | inr t ↦ subst P (ground arith) h.0
  ]
]

-- The turn was the caller's own.
abbrev InTurn : Clock → Db → GpuWork → GpuAdmission → Db → Type 0
InTurn c db w a db' =
    a.granted ≡ true
    → any (λ v. eligible c db.users w.resource_id v && earlier v w) db.gpu_work ≡ false

next_is_caller :
    (c : Clock) (before_id : String → String → Bool) (r : GpuResource) (w next : GpuWork) (db : Db)
    → HasGpuInvariant db
    → find (has_id w.id) db.gpu_work ≡ some w
    → first_in_queue before_id (queue c r.id db) ≡ some next
    → str_eq next.id w.id ≡ true
    → next ≡ w
unfolding queue has_id
next_is_caller c b r w next db h found first mine =
    first_in_queue-All (λ u. has_id w.id u ≡ true → u ≡ w) b (queue c r.id db)
      (All-keep (λ u. has_id w.id u ≡ true → u ≡ w) (eligible c db.users r.id) db.gpu_work
        (unique-All (has_id w.id) db.gpu_work found (h.table.unique_id w.id)))
      first mine

nobody_earlier :
    (c : Clock) (before_id : String → String → Bool) (r : GpuResource) (w next : GpuWork) (db : Db)
    → HasGpuInvariant db
    → find (has_id w.id) db.gpu_work ≡ some w
    → w.resource_id ≡ r.id
    → first_in_queue before_id (queue c r.id db) ≡ some next
    → str_eq next.id w.id ≡ true
    → any (λ v. eligible c db.users w.resource_id v && earlier v w) db.gpu_work ≡ false
unfolding queue
nobody_earlier c b r w next db h found same first mine =
    subst (λ i. any (λ v. eligible c db.users i v && earlier v w) db.gpu_work ≡ false) (sym same)
      (sym (any-keep (λ v. earlier v w) (eligible c db.users r.id) db.gpu_work)
        ∙ subst (λ u. any (λ v. earlier v u) (queue c r.id db) ≡ false)
            (next_is_caller c b r w next db h found first mine)
            (first_in_queue-minimal b (queue c r.id db) first))

take_turn-InTurn :
    (c : Clock) (before_id : String → String → Bool) (r : GpuResource) (w : GpuWork)
    (token : String) (duration position : ℕ) (o : Option GpuWork) (db : Db)
    → HasGpuInvariant db
    → find (has_id w.id) db.gpu_work ≡ some w
    → w.resource_id ≡ r.id
    → first_in_queue before_id (queue c r.id db) ≡ o
    → Ends (InTurn c db w) (take_turn c r w token duration position o db)
unfolding take_turn
take_turn-InTurn c b r w token duration position none db h found same first = λ e. cc
take_turn-InTurn c b r w token duration position (some next) db h found same first =
    elim (Bool-cases (str_eq next.id w.id)) [
      | inr other ↦ rw other (λ e. cc)
      | inl mine ↦ rw mine (
          Ends-any (InTurn c db w) (grant c r w token duration position db)
            (λ a db' e. nobody_earlier c b r w next db h found same first mine))
    ]

admit-InTurn :
    (c : Clock) (before_id : String → String → Bool) (r : GpuResource) (w : GpuWork)
    (token : String) (duration position : ℕ) (db : Db)
    → HasGpuInvariant db
    → find (has_id w.id) db.gpu_work ≡ some w
    → w.resource_id ≡ r.id
    → Ends (InTurn c db w) (admit c before_id r w token duration position db)
admit-InTurn c b r w token duration position db h found same =
    admit-Ends (InTurn c db w) c b r w token duration position db (λ code e. cc)
      (λ free. take_turn-InTurn c b r w token duration position _ db h found same refl)

-- Work that waits is not the holder, so an admission under a holder does not grant.
waiting_not_holder :
    (w holder : GpuWork) (r : String) (db : Db)
    → HasGpuInvariant db
    → find (has_id w.id) db.gpu_work ≡ some w
    → is_waiting w.state ≡ true
    → find (holds r) db.gpu_work ≡ some holder
    → str_eq holder.id w.id ≡ false
unfolding is_waiting is_active
waiting_not_holder w holder r db h found waits busy = elim (Bool-cases (str_eq holder.id w.id)) [
  | inr other ↦ other
  | inl own ↦
      let stored = holder_by_id db h r holder busy in
      let again : find (has_id w.id) db.gpu_work ≡ some holder =
        subst (λ i. find (has_id i) db.gpu_work ≡ some holder) ((eq_iff holder.id w.id).0 own)
          stored in
      let same : holder ≡ w = some_unique (find (has_id w.id) db.gpu_work) again found in
      let active = holder_active db r holder busy in absurd (ground (arith, ap (λ v. v.state) same))
]

admission_under_other :
    (w : GpuWork) (token : String) (position revision : ℕ) (holder : GpuWork)
    → str_eq holder.id w.id ≡ false
    → (admission_under w token position revision holder).granted ≡ false
unfolding admission_under
admission_under_other w token position revision holder e = rw e

contend-InTurn :
    (c : Clock) (r : GpuResource) (w : GpuWork) (token : String) (position : ℕ) (holder : GpuWork)
    (db : Db)
    → HasGpuInvariant db
    → find (has_id w.id) db.gpu_work ≡ some w
    → is_waiting w.state ≡ true
    → find (holds r.id) db.gpu_work ≡ some holder
    → Ends (InTurn c db w) (contend c r w token position holder db)
unfolding contend gpu_event invalidate_observation
contend-InTurn c r w token position holder db h found waits busy =
    let other = waiting_not_holder w holder r.id db h found waits busy in
    elim (Bool-cases (is_held holder.state && not (later_than holder.lease_until c.clock))) [
      | inl late ↦ rw late (
          rw
            (update_work-bind no_rows (has_id holder.id) (expire_lease c) _ db
              (holder_by_id db h r.id holder busy))
            (λ e.
              let no_grant =
                admission_under_other w token position (r.revision + 1) (expire_lease c holder)
                  (unfold expire_lease in other) in
              cc))
      | inr live ↦
          rw live (λ e.
            let no_grant = admission_under_other w token position r.revision holder other in cc)
    ]

answer-InTurn :
    (c : Clock) (before_id : String → String → Bool) (r : GpuResource) (w : GpuWork)
    (token : String) (duration position : ℕ) (o : Option GpuWork) (db : Db)
    → HasGpuInvariant db
    → find (has_id w.id) db.gpu_work ≡ some w
    → is_waiting w.state ≡ true
    → w.resource_id ≡ r.id
    → find (holds r.id) db.gpu_work ≡ o
    → Ends (InTurn c db w) (answer c before_id r w token duration position o db)
unfolding answer
answer-InTurn c b r w token duration position none db h found waits same free =
    admit-InTurn c b r w token duration position db h found same
answer-InTurn c b r w token duration position (some holder) db h found waits same busy =
    contend-InTurn c r w token position holder db h found waits busy

-- What priority work gains in the queue.
abbrev pub gain : GpuWork → ℕ
gain w = if w.priority then priority_head_start * second else 0

-- In a table with unique ids, one holder at most to a resource and a lease on exactly the holders:
-- when AcquireGPUWork grants the lease to work that was waiting, no work that is eligible for the
-- resource has an earlier queue time, the head start of priority work counted in.
pub acquire_in_turn :
    (c : Clock) (before_id : String → String → Bool) (id token : String) (duration : ℕ) (db : Db)
    (w : GpuWork) {a : GpuAdmission} {db' : Db}
    → HasGpuInvariant db
    → find (has_id id) db.gpu_work ≡ some w
    → is_waiting w.state ≡ true
    → acquire_gpu_work c before_id id token duration db ≡ ok (a, db')
    → a.granted ≡ true
    → any
        (λ v.
          eligible c db.users w.resource_id v && ltb (v.queued_at + gain w) (w.queued_at + gain v))
        db.gpu_work
      ≡ false
unfolding earlier head_start
acquire_in_turn c b id token duration db w h found waits success =
    Ends-ok (InTurn c db w) (acquire_gpu_work c b id token duration db)
      (acquire-Ends (InTurn c db w) c b id token duration db (λ w' r position found' same.
        let one : w' ≡ w = some_unique (find (has_id id) db.gpu_work) found' found in
        subst
          (λ v.
            Ends (InTurn c db w)
              (answer c b r v token duration position (find (holds r.id) db.gpu_work) db))
          (sym one)
          (answer-InTurn c b r w token duration position (find (holds r.id) db.gpu_work) db h
            (found_under_own_id id db found) waits (ap (λ v. v.resource_id) (sym one) ∙ same)
            refl)))
      success

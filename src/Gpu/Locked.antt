-- ===== src/Gpu/Locked.antt =====
-- What a transaction knows after lockGPUWork: the work item and its resource stand in their tables.
use personal_cloud_ai_servic.Prelude.{◌≡◌, none, some, String, inl, inr, Option-cases, find, arith}
use personal_cloud_ai_servic.Domain.Gpu.{GpuWork, GpuResource}
use personal_cloud_ai_servic.Db.{Db, ok, err, Tx, ◌>>=◌, no_rows, Error}
use personal_cloud_ai_servic.Db.Keeps.{Ends, bind-ok, bind-err}
use personal_cloud_ai_servic.Gpu.{has_id, is_resource, lock_work, update_work, Bool, update}

pub lock_work-missing :
    (id : String) (db : Db) → find (has_id id) db.gpu_work ≡ none → lock_work id db ≡ err no_rows
unfolding lock_work
lock_work-missing id db e = ground arith

pub lock_work-found :
    (id : String) (db : Db) {w : GpuWork} {r : GpuResource}
    → find (has_id id) db.gpu_work ≡ some w
    → find (is_resource w.resource_id) db.gpu_resources ≡ some r
    → lock_work id db ≡ ok ((r, w), db)
unfolding lock_work
lock_work-found id db {w = w} {r = r} e f = ground arith

pub lock_work-unowned :
    (id : String) (db : Db) {w : GpuWork}
    → find (has_id id) db.gpu_work ≡ some w
    → find (is_resource w.resource_id) db.gpu_resources ≡ none
    → lock_work id db ≡ err no_rows
unfolding lock_work
lock_work-unowned id db {w = w} e f = ground arith

pub lock_work-Ends :
    {B : Type 0} (Q : B → Db → Type 0) (id : String) (f : GpuResource × GpuWork → Tx B) (db : Db)
    → ((w : GpuWork) (r : GpuResource)
        → find (has_id id) db.gpu_work ≡ some w
        → find (is_resource w.resource_id) db.gpu_resources ≡ some r
        → Ends Q (f (r, w) db))
    → Ends Q ((lock_work id >>= f) db)
lock_work-Ends Q id f db k = elim (Option-cases (find (has_id id) db.gpu_work)) [
  | inl e ↦ rw (bind-err (lock_work id) f db (lock_work-missing id db e)) tt
  | inr (w, e) ↦ elim (Option-cases (find (is_resource w.resource_id) db.gpu_resources)) [
    | inl g ↦ rw (bind-err (lock_work id) f db (lock_work-unowned id db e g)) tt
    | inr (r, g) ↦ rw (bind-ok (lock_work id) f db (lock_work-found id db e g)) (k w r e g)
  ]
]

pub update_work-bind :
    {B : Type 0} (e : Error) (q : GpuWork → Bool) (f : GpuWork → GpuWork) (k : GpuWork → Tx B)
    (db : Db) {w : GpuWork}
    → find q db.gpu_work ≡ some w
    → (update_work e q f >>= k) db ≡ k (f w) (record db { gpu_work = update q f db.gpu_work })
unfolding update_work
update_work-bind e q f k db {w = w} h = bind-ok (update_work e q f) k db (ground arith)

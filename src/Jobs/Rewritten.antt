-- ===== src/Jobs/Rewritten.antt =====
-- What follows an update of one job (internal/store/generation_job.go).
use personal_cloud_ai_servic.Db.Keeps.{Ends}
use personal_cloud_ai_servic.Prelude.{Bool, Option, find, ◌≡◌, some, update, none, refl}
use personal_cloud_ai_servic.Jobs.{update_job, rewritten_job}
use personal_cloud_ai_servic.Domain.Job.{Job}
use personal_cloud_ai_servic.Db.{Db, Tx, Error, ◌>>=◌, ok, err}

module _ {B : Type 0} (Q : B → Db → Type 0) (k : Job → Tx B) where
  rewritten_end :
      (e : Error) (p : Job → Bool) (f : Job → Job) (o : Option Job) (db : Db)
      → ((j : Job)
          → o ≡ some j
          → Ends Q (k (f j) (record db { generation_jobs = update p f db.generation_jobs })))
      → Ends Q (elim (rewritten_job e p f o db) [ ok (a, db') ↦ k a db' | err e ↦ err e ])
  rewritten_end e p f none db next = tt
  rewritten_end e p f (some j) db next = next j refl

  pub Ends-update :
      (e : Error) (p : Job → Bool) (f : Job → Job) (db : Db)
      → ((j : Job)
          → find p db.generation_jobs ≡ some j
          → Ends Q (k (f j) (record db { generation_jobs = update p f db.generation_jobs })))
      → Ends Q ((update_job e p f >>= k) db)
  unfolding update_job
  Ends-update e p f db next = rewritten_end e p f (find p db.generation_jobs) db next

-- ===== src/Dispatch/Once.antt =====
-- What the updates around a submission leave of a job (internal/store/generation_dispatch.go).
use personal_cloud_ai_servic.Db.Keeps.{Ends}
use personal_cloud_ai_servic.Db.{Db, err, job_state_conflict}
use personal_cloud_ai_servic.Dispatch.Submission.{affect_one, affect}
use personal_cloud_ai_servic.Domain.Job.{Job}
use personal_cloud_ai_servic.Prelude.{
  any, update, count, Bool, List, ◌≡◌, true, false, ◌≤◌, arith, ◌∷◌, Bool-cases, inl, inr, [], find,
  none, count-none, count-le, update-none, any-le, refl, any-count,
}

-- After the one row with a key was rewritten, no row passes a test that asks for the key and that a
-- rewritten row fails.
pub rewritten_fails :
    (key p q : Job → Bool) (f : Job → Job) (jobs : List Job)
    → ((j : Job) → p j ≡ true → key j ≡ true)
    → ((j : Job) → q j ≡ true → key j ≡ true)
    → ((j : Job) → q (f j) ≡ false)
    → count key jobs ≤ 1
    → any p jobs ≡ true
    → any q (update p f jobs) ≡ false
unfolding any update count
rewritten_fails key p q f [] pk qk qf one some_p = absurd (ground arith)
rewritten_fails key p q f (j ∷ js) pk qk qf one some_p = elim (Bool-cases (p j)) [
  | inl e ↦
      let mine : key j ≡ true = pk j e in
      let alone : count key js ≡ 0 = ground arith in
      let nobody : find p js ≡ none = count-none p js (ground (arith, count-le p key pk js)) in
      let same : update p f js ≡ js = update-none p f js nobody in
      let none_left : any q js ≡ false = any-le q key js qk (any-count key js alone) in
      rw e (rw (qf j, same) none_left)
  | inr e ↦ elim (Bool-cases (q j)) [
    | inl t ↦
        let mine : key j ≡ true = qk j t in
        let alone : count key js ≡ 0 = ground arith in
        let nobody : any p js ≡ false = any-le p key js pk (any-count key js alone) in
        absurd (ground arith)
    | inr t ↦ rw e (rw t (rewritten_fails key p q f js pk qk qf (ground arith) (ground arith)))
  ]
]

abbrev pub Affected : (Job → Bool) → (Job → Job) → Db → Unit {0} → Db → Type 0
Affected p f db x db' =
    (any p db.generation_jobs ≡ true)
    × (db'.generation_jobs ≡ update p f db.generation_jobs)
    × (db'.next_job_id ≡ db.next_job_id)

pub affect_one-Ends :
    (p : Job → Bool) (f : Job → Job) (db : Db) → Ends (Affected p f db) (affect_one p f db)
unfolding affect_one affect
affect_one-Ends p f db = elim (Bool-cases (any p db.generation_jobs)) [
  | inl e ↦ rw e (e, refl, refl)
  | inr e ↦ rw e tt
]

pub affect_one-none :
    (p : Job → Bool) (f : Job → Job) (db : Db)
    → any p db.generation_jobs ≡ false
    → affect_one p f db ≡ err job_state_conflict
unfolding affect_one affect
affect_one-none p f db e = rw e refl

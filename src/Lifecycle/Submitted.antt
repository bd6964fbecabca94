-- ===== src/Lifecycle/Submitted.antt =====
-- A job is submitted once, and not after its resources were fenced for release, over any sequence of
-- job calls (internal/store/generation_dispatch.go).
use personal_cloud_ai_servic.Lifecycle.{stays}
use personal_cloud_ai_servic.Db.Keeps.{Ends-ok, differ}
use personal_cloud_ai_servic.Dispatch.Once.{
  Affected, affect_one-none, rewritten_fails, affect_one-Ends,
}
use personal_cloud_ai_servic.Lifecycle.Calls.{JobCall, run_jobs, run_jobs-Follows}
use personal_cloud_ai_servic.Lifecycle.History.{unbegun, unclosed, Follows}
use personal_cloud_ai_servic.Db.{Clock, Db, ok, err, job_state_conflict}
use personal_cloud_ai_servic.Prelude.{
  Bool, ℕ, List, String, ◌≡◌, any, true, false, str_eq, arith, find, count, update, ◌≤◌, Bool-cases,
  some, find-none, ◌<◌, inl, refl, Option-cases, any-find, inr, count-update_same, ap, sym, ◌==◌,
  ◌∙◌, any-le, any-count,
}
use personal_cloud_ai_servic.Domain.Job.{Job}
use personal_cloud_ai_servic.Jobs.{has_job_id}
use personal_cloud_ai_servic.Dispatch.Submission.{
  submittable, fenceable, begin_submission, fence_resource_release, set_submitting, set_fenced,
  affect, affect_one,
}

submittable_unbegun :
    (c : Clock) (id : ℕ) (token : String) (j : Job)
    → submittable c id token j ≡ true
    → unbegun id j ≡ true
unfolding submittable
submittable_unbegun c id token j h = ground arith

submittable_unclosed :
    (c : Clock) (id : ℕ) (token : String) (j : Job)
    → submittable c id token j ≡ true
    → unclosed id j ≡ true
unfolding submittable
submittable_unclosed c id token j h = ground arith

fenceable_id :
    (id : ℕ) (token : String) (j : Job) → fenceable id token j ≡ true → has_job_id id j ≡ true
unfolding fenceable
fenceable_id id token j h = ground arith

-- The job that an update hit is still there.
hit_row :
    (p : Job → Bool) (f : Job → Job) (id : ℕ) (rows : List Job)
    → ((j : Job) → p j ≡ true → has_job_id id j ≡ true)
    → ((j : Job) → (f j).id ≡ j.id)
    → any p rows ≡ true
    → (j : Job) × (find (has_job_id id) (update p f rows) ≡ some j)
unfolding has_job_id
hit_row p f id rows le same hit = elim (Option-cases (find (has_job_id id) (update p f rows))) [
  | inr found ↦ found
  | inl gone ↦
      let before = count-update_same (has_job_id id) p f rows (λ j _. ap (λ n. n == id) (same j)) in
      let none_there : count (has_job_id id) rows ≡ 0 =
        omega (arith, before, find-none (has_job_id id) (update p f rows) gone) in
      let missed : any p rows ≡ false =
        any-le p (has_job_id id) rows le (any-count (has_job_id id) rows none_there) in
      absurd (ground arith)
]

none_left : (q : Job → Bool) (rows : List Job) → any q rows ≡ false → count q rows ≤ 0
none_left q rows e = omega (arith, find-none q rows (any-find q rows e))

-- What the marked rewriting of the one job with an id leaves to follow.
marked-Follows :
    (b d : Bool) (id : ℕ) (p : Job → Bool) (f : Job → Job) (db db' : Db)
    → ((j : Job) → p j ≡ true → has_job_id id j ≡ true)
    → ((j : Job) → (f j).id ≡ j.id)
    → (b ≡ true → (j : Job) → unbegun id (f j) ≡ false)
    → (d ≡ true → (j : Job) → unclosed id (f j) ≡ false)
    → count (has_job_id id) db.generation_jobs ≤ 1
    → id < db.next_job_id
    → Affected p f db tt db'
    → (j : Job) × Follows id (record { state = j.state; begun = b; closed = d }) db'
marked-Follows b d id p f db db' le same begun closed one issued (hit, rows, next) =
    let (j, found) = hit_row p f id db.generation_jobs le same hit in
    (
      j,
      record {
        job = j;
        stored = ap (find (has_job_id id)) rows ∙ found;
        follows = stays;
        issued = omega (arith, next, issued);
        released = λ live ended. absurd (ground arith);
        begins = λ e. none_left (unbegun id) db'.generation_jobs (
            ap (any (unbegun id)) rows
            ∙ rewritten_fails (has_job_id id) p (unbegun id) f db.generation_jobs le
                (λ y t. ground arith) (begun e) one hit);
        closes = λ e. none_left (unclosed id) db'.generation_jobs (
            ap (any (unclosed id)) rows
            ∙ rewritten_fails (has_job_id id) p (unclosed id) f db.generation_jobs le
                (λ y t. ground arith) (closed e) one hit);
      },
    )

empty_token :
    (c : Clock) (id : ℕ) (token : String) (db : Db)
    → str_eq token "" ≡ true
    → begin_submission c id token db ≡ err job_state_conflict
unfolding begin_submission
empty_token c id token db e = rw e refl

begun-Affected :
    (c : Clock) (id : ℕ) (token : String) (db db' : Db)
    → begin_submission c id token db ≡ ok (tt, db')
    → Affected (submittable c id token) (set_submitting c) db tt db'
unfolding begin_submission
begun-Affected c id token db db' h = elim (Bool-cases (str_eq token "")) [
  | inl empty ↦ absurd (differ (sym h ∙ empty_token c id token db empty))
  | inr full ↦
      Ends-ok (Affected (submittable c id token) (set_submitting c) db)
        (affect_one (submittable c id token) (set_submitting c) db)
        (affect_one-Ends (submittable c id token) (set_submitting c) db) (rw full at h)
]

fenced-Affected :
    (c : Clock) (id : ℕ) (token : String) (db db' : Db)
    → fence_resource_release c id token db ≡ ok (true, db')
    → Affected (fenceable id token) (set_fenced c) db tt db'
unfolding fence_resource_release affect
fenced-Affected c id token db db' h =
    Ends-ok (λ b db'. b ≡ true → Affected (fenceable id token) (set_fenced c) db tt db')
      (fence_resource_release c id token db) (λ hit. (hit, refl, refl)) h refl

begin-refused :
    (c : Clock) (id : ℕ) (token : String) (db : Db) (bad : Job → Bool)
    → ((j : Job) → submittable c id token j ≡ true → bad j ≡ true)
    → count bad db.generation_jobs ≤ 0
    → begin_submission c id token db ≡ err job_state_conflict
unfolding begin_submission
begin-refused c id token db bad le h = elim (Bool-cases (str_eq token "")) [
  | inl empty ↦ rw empty refl
  | inr full ↦ rw full (
      affect_one-none (submittable c id token) (set_submitting c) db (
        any-le (submittable c id token) bad db.generation_jobs le
          (any-count bad db.generation_jobs (omega (arith, h)))))
]

submitting_begun : (c : Clock) (id : ℕ) (j : Job) → unbegun id (set_submitting c j) ≡ false
unfolding set_submitting
submitting_begun c id j = ground arith

fenced_closed : (c : Clock) (id : ℕ) (j : Job) → unclosed id (set_fenced c j) ≡ false
unfolding set_fenced
fenced_closed c id j = ground arith

-- After a successful BeginGenerationJobSubmission of a job with a unique id below the next value of
-- the id sequence, and after whatever job calls follow it, in any order and with any clocks, the
-- submission of that job can not be begun: the call is refused under any token and at any time.
pub begin_once :
    (c c' : Clock) (id : ℕ) (token token' : String) (db db' : Db) (calls : List (Clock × JobCall))
    → count (has_job_id id) db.generation_jobs ≤ 1
    → id < db.next_job_id
    → begin_submission c id token db ≡ ok (tt, db')
    → begin_submission c' id token' (run_jobs db' calls) ≡ err job_state_conflict
unfolding submittable
begin_once c c' id token token' db db' calls one issued h =
    let (j, start) =
      marked-Follows true false id (submittable c id token) (set_submitting c) db db'
        (λ y e. ground arith) (unfold set_submitting in λ y. refl) (λ _ y. submitting_begun c id y)
        (λ e. absurd (ground arith)) one issued (begun-Affected c id token db db' h) in
    let after = run_jobs-Follows id _ db' calls start in
    begin-refused c' id token' (run_jobs db' calls) (unbegun id) (submittable_unbegun c' id token')
      (after.begins refl)

-- After a FenceGenerationJobResourceRelease that reports true, of a job with a unique id below the
-- next value of the id sequence, and after whatever job calls follow it, in any order and with any
-- clocks, the submission of that job can not be begun: the call is refused under any token and at any
-- time.
pub fenced_for_good :
    (c c' : Clock) (id : ℕ) (token token' : String) (db db' : Db) (calls : List (Clock × JobCall))
    → count (has_job_id id) db.generation_jobs ≤ 1
    → id < db.next_job_id
    → fence_resource_release c id token db ≡ ok (true, db')
    → begin_submission c' id token' (run_jobs db' calls) ≡ err job_state_conflict
fenced_for_good c c' id token token' db db' calls one issued h =
    let (j, start) =
      marked-Follows false true id (fenceable id token) (set_fenced c) db db'
        (fenceable_id id token) (unfold set_fenced in λ y. refl) (λ e. absurd (ground arith))
        (λ _ y. fenced_closed c id y) one issued (fenced-Affected c id token db db' h) in
    let after = run_jobs-Follows id _ db' calls start in
    begin-refused c' id token' (run_jobs db' calls) (unclosed id)
      (submittable_unclosed c' id token') (after.closes refl)

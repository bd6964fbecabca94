-- ===== src/Dispatch/Turn.antt =====
-- The order of the dispatcher (internal/store/generation_dispatch.go).
use personal_cloud_ai_servic.Domain.Job.{Job}
use personal_cloud_ai_servic.Domain.User.{User}
use personal_cloud_ai_servic.Prelude.{
  List, ◌≡◌, false, true, arith, none, some, [], All, ◌∷◌, Option-cases, inl, inr, refl,
  if◌then◌else◌, subst, Bool-cases,
}
use personal_cloud_ai_servic.Dispatch.{job_precedes, first_job}

some_eq : {a b : Job} → some a ≡ some b → a ≡ b
some_eq e = cc

precedes_trans :
    (users : List User) (a b d : Job)
    → job_precedes users b a ≡ false
    → job_precedes users d b ≡ false
    → job_precedes users d a ≡ false
unfolding job_precedes
precedes_trans users a b d h k = ground arith

precedes_asym :
    (users : List User) (a b : Job) → job_precedes users a b ≡ true → job_precedes users b a ≡ false
unfolding job_precedes
precedes_asym users a b h = ground arith

precedes_irrefl : (users : List User) (a : Job) → job_precedes users a a ≡ false
unfolding job_precedes
precedes_irrefl users a = ground arith

first_job-none : (users : List User) (js : List Job) → first_job users js ≡ none → js ≡ []
unfolding first_job
first_job-none users [] h = refl
first_job-none users (j ∷ js) h = elim (Option-cases (first_job users js)) [
  | inl e ↦ let g : some j ≡ none = rw e at h in absurd (ground arith)
  | inr (k, e) ↦
      let g : some (if job_precedes users k j then k else j) ≡ none = rw e at h in
      absurd (ground arith)
]

later-All :
    (users : List User) (a b : Job) (js : List Job)
    → job_precedes users b a ≡ false
    → All (λ k. job_precedes users k b ≡ false) js
    → All (λ k. job_precedes users k a ≡ false) js
later-All users a b [] h all = tt
later-All users a b (j ∷ js) h all =
    (precedes_trans users a b j h all.0, later-All users a b js h all.1)

-- No job precedes the first.
pub first_job-first :
    (users : List User) (js : List Job) (j : Job)
    → first_job users js ≡ some j
    → All (λ k. job_precedes users k j ≡ false) js
unfolding first_job
first_job-first users [] j h = tt
first_job-first users (x ∷ xs) j h = elim (Option-cases (first_job users xs)) [
  | inl e ↦
      let g : some x ≡ some j = rw e at h in
      let same : x ≡ j = some_eq g in
      subst (λ y. All (λ k. job_precedes users k y ≡ false) (x ∷ xs)) same
        (precedes_irrefl users x, rw (first_job-none users xs e) tt)
  | inr (k, e) ↦ elim (Bool-cases (job_precedes users k x)) [
    | inl t ↦
        let g : some k ≡ some j = rw (e, t) at h in
        let same : k ≡ j = some_eq g in
        subst (λ y. All (λ k. job_precedes users k y ≡ false) (x ∷ xs)) same
          (precedes_asym users k x t, first_job-first users xs k e)
    | inr t ↦
        let g : some x ≡ some j = rw (e, t) at h in
        let same : x ≡ j = some_eq g in
        subst (λ y. All (λ k. job_precedes users k y ≡ false) (x ∷ xs)) same
          (precedes_irrefl users x, later-All users x k xs t (first_job-first users xs k e))
  ]
]

pub first_job-All {κ} :
    (P : Job → Type κ) (users : List User) (js : List Job) (j : Job)
    → All P js
    → first_job users js ≡ some j
    → P j
unfolding first_job
first_job-All P users [] j all h = absurd (ground arith)
first_job-All P users (x ∷ xs) j all h = elim (Option-cases (first_job users xs)) [
  | inl e ↦ subst P (some_eq (rw e at h)) all.0
  | inr (k, e) ↦ elim (Bool-cases (job_precedes users k x)) [
    | inl t ↦ subst P (some_eq (rw (e, t) at h)) (first_job-All P users xs k all.1 e)
    | inr t ↦ subst P (some_eq (rw (e, t) at h)) all.0
  ]
]

-- ===== src/Lifecycle/History.antt =====
-- What a transaction of internal/store must leave of one job: its row, under its id, in a state that
-- the graph reaches from an earlier one.
use personal_cloud_ai_servic.Domain.Rows.{Notification}
use personal_cloud_ai_servic.Db.Keeps.{After, Keeps, keeps_rules, Keeps-pure}
use personal_cloud_ai_servic.Jobs.Notify.{
  insert_notification, create_notification, notify_user, notify_owner, is_of_user,
}
use personal_cloud_ai_servic.Dispatch.Submission.{affect}
use personal_cloud_ai_servic.Jobs.{
  has_job_id, update_job, select_job, select_own_job, increment_revision, increment_user_revision,
  record_transition, rewritten_job, increment_owner_revision,
}
use personal_cloud_ai_servic.Lifecycle.{Reaches}
use personal_cloud_ai_servic.Db.{Db, Error}
use personal_cloud_ai_servic.Domain.Job.{Job, JobState, JobTransition, terminal}
use personal_cloud_ai_servic.Prelude.{
  ℕ, ◌≡◌, Bool, Option, find, true, update, ap, refl, some, Bool-cases, ◌∙◌, ◌<◌, subst, any, inl,
  find-update, sym, ◌==◌, none, inr, false, is_some, ◌&&◌, count, is_none, ◌≤◌, arith,
  count-update_le,
}

-- A job that was not terminal in the state `s` has given its resources back where it is terminal now.
abbrev pub Released : JobState → Job → Type 0
Released s j = terminal s ≡ false → terminal j.state ≡ true → is_some j.resources_released_at ≡ true

-- What is known of a job at the start: its state, and whether its submission has begun and its
-- dispatch is closed.
pub record Origin : Type 0 where
  pub state : JobState
  pub begun : Bool
  pub closed : Bool

abbrev pub unbegun : ℕ → Job → Bool
unbegun i j = has_job_id i j && is_none j.submission_started_at

abbrev pub unclosed : ℕ → Job → Bool
unclosed i j = has_job_id i j && is_none j.dispatch_closed_at

-- The job `i` is there, its state follows the graph from that of the start, its id is not given out
-- again, and a submission that had begun or a dispatch that was closed stays so.
pub record Follows (i : ℕ) (s : Origin) (db : Db) : Type 0 where
  pub job : Job
  pub stored : find (has_job_id i) db.generation_jobs ≡ some job
  pub follows : Reaches s.state job.state
  pub issued : i < db.next_job_id
  pub released : Released s.state job
  pub begins : s.begun ≡ true → count (unbegun i) db.generation_jobs ≤ 0
  pub closes : s.closed ≡ true → count (unclosed i) db.generation_jobs ≤ 0

-- A rewriting leaves the marks of a begun submission and of a closed dispatch.
pub record IsMarked (f : Job → Job) : Type 0 where
  pub begun :
      (y : Job)
      → is_none (f y).submission_started_at ≡ true
      → is_none y.submission_started_at ≡ true
  pub closed :
      (y : Job) → is_none (f y).dispatch_closed_at ≡ true → is_none y.dispatch_closed_at ≡ true

-- A rewriting of a row that keeps its id and its marks, and leads its state along the graph.
pub record IsStep (f : Job → Job) : Type 0 where
  pub same_id : (y : Job) → (f y).id ≡ y.id
  pub onward : (s : JobState) (y : Job) → Reaches s y.state → Reaches s (f y).state
  pub give_back : (s : JobState) (y : Job) → Released s y → Released s (f y)
  pub marks : IsMarked f

module _ (i : ℕ) (s : Origin) where
  same_has_id :
      (f : Job → Job)
      → ((y : Job) → (f y).id ≡ y.id)
      → (y : Job) → has_job_id i (f y) ≡ has_job_id i y
  unfolding has_job_id
  same_has_id f same y = ap (λ n. n == i) (same y)

  update-begins :
      (p : Job → Bool) (f : Job → Job) (db : Db)
      → ((y : Job) → (f y).id ≡ y.id)
      → IsMarked f
      → Follows i s db
      → s.begun ≡ true
      → count (unbegun i) (update p f db.generation_jobs) ≤ 0
  update-begins p f db same marks h b = omega (
    arith,
    count-update_le (unbegun i) p f db.generation_jobs
        (λ y _ e. ground (arith, same_has_id f same y, marks.begun y)),
    h.begins b,
  )

  update-closes :
      (p : Job → Bool) (f : Job → Job) (db : Db)
      → ((y : Job) → (f y).id ≡ y.id)
      → IsMarked f
      → Follows i s db
      → s.closed ≡ true
      → count (unclosed i) (update p f db.generation_jobs) ≤ 0
  update-closes p f db same marks h b = omega (
    arith,
    count-update_le (unclosed i) p f db.generation_jobs
        (λ y _ e. ground (arith, same_has_id f same y, marks.closed y)),
    h.closes b,
  )

  -- An update that leads the job's own row along the graph, where it touches that row.
  pub update-Follows :
      (p : Job → Bool) (f : Job → Job) (db : Db)
      → ((y : Job) → (f y).id ≡ y.id)
      → IsMarked f
      → (h : Follows i s db)
      → (p h.job ≡ true → Reaches s.state (f h.job).state × Released s.state (f h.job))
      → Follows i s (record db { generation_jobs = update p f db.generation_jobs })
  update-Follows p f db same marks h next = elim (Bool-cases (p h.job)) [
    | inl e ↦ record {
      job = f h.job;
      stored =
          find-update (has_job_id i) p f db.generation_jobs (same_has_id f same) h.stored
          ∙ rw e refl;
      follows = (next e).0;
      released = (next e).1;
      issued = h.issued;
      begins = update-begins p f db same marks h;
      closes = update-closes p f db same marks h;
    }
    | inr e ↦ record {
      job = h.job;
      stored =
          find-update (has_job_id i) p f db.generation_jobs (same_has_id f same) h.stored
          ∙ rw e refl;
      follows = h.follows;
      released = h.released;
      issued = h.issued;
      begins = update-begins p f db same marks h;
      closes = update-closes p f db same marks h;
    }
  ]

  pub step-Follows :
      (p : Job → Bool) (f : Job → Job) (db : Db)
      → IsStep f
      → Follows i s db
      → Follows i s (record db { generation_jobs = update p f db.generation_jobs })
  step-Follows p f db good h =
      update-Follows p f db good.same_id good.marks h
        (λ _. (good.onward s.state h.job h.follows, good.give_back s.state h.job h.released))

  rewritten-Follows :
      (e : Error) (p : Job → Bool) (f : Job → Job) (o : Option Job) (db : Db)
      → IsStep f
      → Follows i s db
      → After (Follows i s) (rewritten_job e p f o db)
  rewritten-Follows e p f none db good h = tt
  rewritten-Follows e p f (some j) db good h = step-Follows p f db good h

  pub update_job-Keeps :
      (e : Error) (p : Job → Bool) (f : Job → Job)
      → IsStep f
      → Keeps (Follows i s) (update_job e p f)
  unfolding update_job
  update_job-Keeps e p f good = record {
    at = λ db h. rewritten-Follows e p f (find p db.generation_jobs) db good h;
  }

  pub affect-Keeps : (p : Job → Bool) (f : Job → Job) → IsStep f → Keeps (Follows i s) (affect p f)
  unfolding affect
  affect-Keeps p f good = record { at = λ db h. step-Follows p f db good h }

  -- A call that leaves the jobs and their sequence.
  pub aside-Follows :
      (db db' : Db)
      → Follows i s db
      → db'.generation_jobs ≡ db.generation_jobs
      → db'.next_job_id ≡ db.next_job_id
      → Follows i s db'
  aside-Follows db db' h e f = record {
    job = h.job;
    stored = ap (find (has_job_id i)) e ∙ h.stored;
    follows = h.follows;
    released = h.released;
    issued = subst (λ n. i < n) (sym f) h.issued;
    begins = λ b. rw e (h.begins b);
    closes = λ b. rw e (h.closes b);
  }

  pub select_job-Keeps : (id : ℕ) → Keeps (Follows i s) (select_job id)
  unfolding select_job
  select_job-Keeps id = search keeps_rules

  pub select_own_job-Keeps : (id user : ℕ) → Keeps (Follows i s) (select_own_job id user)
  unfolding select_own_job
  select_own_job-Keeps id user = search keeps_rules

  pub increment_revision-Keeps : Keeps (Follows i s) increment_revision
  unfolding increment_revision
  increment_revision-Keeps = record { at = λ db h. aside-Follows db _ h refl refl }

  pub user_revision-Keeps : (user : ℕ) → Keeps (Follows i s) (increment_user_revision user)
  unfolding increment_user_revision
  user_revision-Keeps user = record { at = λ db h. aside-Follows db _ h refl refl }

  pub owner_revision-Keeps : (o : Option ℕ) → Keeps (Follows i s) (increment_owner_revision o)
  owner_revision-Keeps none = Keeps-pure tt
  owner_revision-Keeps (some user) = user_revision-Keeps user

  pub record_transition-Keeps : (t : JobTransition) → Keeps (Follows i s) (record_transition t)
  unfolding record_transition
  record_transition-Keeps t = record { at = λ db h. aside-Follows db _ h refl refl }

  insert_notification-Keeps : (n : Notification) → Keeps (Follows i s) (insert_notification n)
  unfolding insert_notification
  insert_notification-Keeps n = record {
    at = λ db h.
        elim (Bool-cases (any (λ m. m.generation_job_id == n.generation_job_id) db.notifications)) [
          | inl old ↦ rw old h
          | inr new ↦ rw new (aside-Follows db _ h refl refl)
        ];
  }

  pub create_notification-Keeps : (j : Job) → Keeps (Follows i s) (create_notification j)
  unfolding create_notification
  create_notification-Keeps j = search (keeps_rules, notify_owner-Keeps) depth 20
    where
      notify_user-Keeps : (user : ℕ) (o : _) → Keeps (Follows i s) (notify_user j user o)
      notify_user-Keeps user o = search (keeps_rules, insert_notification-Keeps)

      notify_owner-Keeps : (o : Option ℕ) → Keeps (Follows i s) (notify_owner j o)
      notify_owner-Keeps none = record { at = λ db h. h }
      notify_owner-Keeps (some user) = record {
        at = λ db h.
            (notify_user-Keeps user (find (is_of_user user) db.notification_preferences)).at db h;
      }

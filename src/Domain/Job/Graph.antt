-- ===== src/Domain/Job/Graph.antt =====
-- What the graph of generationJobTransitions (internal/domain/generation_job.go) promises.
use personal_cloud_ai_servic.Prelude.{
  any, ℕ, ◌≡◌, true, ◌<◌, false, arith, refl, if◌then◌else◌, List, All, ltb, ◌∷◌, Bool-cases, inl,
  inr, [],
}
use personal_cloud_ai_servic.Domain.Job.{
  JobState, can_transition, job_transitions, terminal, state_eq, valid, draft, cancellable,
  preparing, completed, cancelled, uploading, failed, other_state, waiting_for_resources, expired,
  queued, running, postprocessing, archiving, state_code,
}

-- How far a state is from the start; the terminal states and the unknown ones are last.
abbrev pub rank : JobState → ℕ
rank s = if ltb (state_code s) 8 then state_code s else 8

-- `==` on the constants is equality.
pub state_eq-code : (a b : JobState) → state_eq a b ≡ true → state_code a ≡ state_code b
state_eq-code (other_state s) (other_state t) h = refl
state_eq-code (other_state s) _ h = ground arith
state_eq-code _ b h = ground arith

-- A state that equals an entry of a list of later states is later.
any-above :
    (n : ℕ) (b : JobState) (ts : List JobState)
    → All (λ t. n < rank t) ts
    → any (state_eq b) ts ≡ true
    → n < rank b
unfolding any
any-above n b [] all h = ground arith
any-above n b (t ∷ ts) all h = elim (Bool-cases (state_eq b t)) [
  | inl e ↦ ground (arith, state_eq-code b t e)
  | inr e ↦ any-above n b ts all.1 (ground arith)
]

entries_above : (a : JobState) → All (λ t. rank a < rank t) (job_transitions a)
unfolding job_transitions
entries_above draft = (omega arith, (omega arith, (omega arith, (omega arith, tt))))
entries_above preparing =
    (omega arith, (omega arith, (omega arith, (omega arith, (omega arith, tt)))))
entries_above uploading = (omega arith, (omega arith, (omega arith, (omega arith, tt))))
entries_above waiting_for_resources = (omega arith, (omega arith, (omega arith, (omega arith, tt))))
entries_above queued = (omega arith, (omega arith, (omega arith, (omega arith, (omega arith, tt)))))
entries_above running = (omega arith, (omega arith, (omega arith, (omega arith, tt))))
entries_above postprocessing = (omega arith, (omega arith, (omega arith, tt)))
entries_above archiving = (omega arith, (omega arith, (omega arith, tt)))
entries_above _ = tt

-- A move to another state goes forward in the order of the states, so no job goes round.
pub can_transition-rank :
    (a b : JobState) → can_transition a b ≡ true → state_eq a b ≡ false → rank a < rank b
unfolding can_transition
can_transition-rank a b h differ =
    any-above (rank a) b (job_transitions a) (entries_above a) (ground arith)

-- From a terminal state the only allowed step is to the same state.
pub terminal_last : (a b : JobState) → terminal a ≡ true → can_transition a b ≡ state_eq a b
unfolding can_transition terminal job_transitions any valid
terminal_last completed b h = ground arith
terminal_last failed b h = ground arith
terminal_last cancelled b h = ground arith
terminal_last expired b h = ground arith
terminal_last _ b h = cc

-- A state that is not terminal can be cancelled exactly where its graph entry leads to `cancelled`.
pub cancellable_graph :
    (s : JobState) → terminal s ≡ false → cancellable s ≡ can_transition s cancelled
unfolding can_transition terminal job_transitions any valid cancellable
cancellable_graph draft h = refl
cancellable_graph preparing h = refl
cancellable_graph uploading h = refl
cancellable_graph waiting_for_resources h = refl
cancellable_graph queued h = refl
cancellable_graph running h = refl
cancellable_graph postprocessing h = refl
cancellable_graph archiving h = refl
cancellable_graph (other_state s) h = refl
cancellable_graph _ h = cc

-- What equals a terminal state is that state.
pub terminal_eq : (a b : JobState) → terminal a ≡ true → state_eq a b ≡ true → b ≡ a
unfolding terminal
terminal_eq completed completed h e = refl
terminal_eq completed _ h e = absurd (ground arith)
terminal_eq failed failed h e = refl
terminal_eq failed _ h e = absurd (ground arith)
terminal_eq cancelled cancelled h e = refl
terminal_eq cancelled _ h e = absurd (ground arith)
terminal_eq expired expired h e = refl
terminal_eq expired _ h e = absurd (ground arith)
terminal_eq _ b h e = absurd (ground arith)

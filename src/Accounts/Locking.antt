-- ===== src/Accounts/Locking.antt =====
-- Failed logins lock an account (internal/store/authentication.go).
use personal_cloud_ai_servic.Db.Keeps.{bind-ok}
use personal_cloud_ai_servic.Domain.User.{User, is_locked}
use personal_cloud_ai_servic.Db.{Clock, Db, committed, ok, row_or, no_rows}
use personal_cloud_ai_servic.Accounts.{answers_to, record_login_failure, set_failed, next_failure}
use personal_cloud_ai_servic.Prelude.{
  String, ℕ, List, find, ◌≡◌, ◌+◌, ◌∷◌, some, ◌<◌, refl, none, [], subst, ap, arith, length, update,
  sym, ◌≤◌, ◌++◌, if◌then◌else◌, true, find_sound, find-update,
}

-- Consecutive failures of one identity, each at its time.
unfoldable pub fail_logins : (String → String) → String → ℕ → ℕ → Db → List Clock → Db
fail_logins lower identity threshold duration db [] = db
fail_logins lower identity threshold duration db (c ∷ cs) =
    fail_logins lower identity threshold duration
      (committed db (record_login_failure lower c identity threshold duration db)) cs

-- An account that answers to the identity and has failed some times without a lock.
pub record HasFailed (lower : String → String) (identity : String) (n : ℕ) (db : Db) : Type 0 where
  pub user : User
  pub stored : find (answers_to lower identity) db.users ≡ some user
  pub failures : user.failed_login_count ≡ n
  pub unlocked : user.locked_until ≡ none

failed-answers :
    (lower : String → String) (identity : String) (c : Clock) (threshold duration : ℕ) (u : User)
    → answers_to lower identity (set_failed c threshold duration u) ≡ answers_to lower identity u
unfolding answers_to set_failed
failed-answers lower identity c threshold duration u = refl

failure_result :
    (lower : String → String) (identity : String) (c : Clock) (threshold duration : ℕ) (db : Db)
    (u : User)
    → find (answers_to lower identity) db.users ≡ some u
    → record_login_failure lower c identity threshold duration db
      ≡ ok (
        (set_failed c threshold duration u).locked_until,
        record db {
          users = update (answers_to lower identity) (set_failed c threshold duration) db.users;
        },
      )
unfolding record_login_failure
failure_result lower identity c threshold duration db u found =
    bind-ok (λ db. row_or no_rows (find (answers_to lower identity) db.users) db)
      (λ u db. ok (
        (set_failed c threshold duration u).locked_until,
        record db {
          users = update (answers_to lower identity) (set_failed c threshold duration) db.users;
        },
      ))
      db {a = u} {db' = db} (rw found refl)

-- What a failure leaves under the identity.
failure_stored :
    (lower : String → String) (identity : String) (c : Clock) (threshold duration : ℕ) (db : Db)
    (u : User)
    → find (answers_to lower identity) db.users ≡ some u
    → find
        (answers_to lower identity)
        (committed db (record_login_failure lower c identity threshold duration db)).users
      ≡ some (set_failed c threshold duration u)
failure_stored lower identity c threshold duration db u found =
    let q = answers_to lower identity in
    let f = set_failed c threshold duration in
    subst (λ r. find q (committed db r).users ≡ some (f u))
      (sym (failure_result lower identity c threshold duration db u found))
      (subst (λ t. find q (update q f db.users) ≡ some (if t then f u else u))
        (find_sound q db.users found)
        (find-update q q f db.users (failed-answers lower identity c threshold duration) found))

-- The counter of an account that is not locked.
failed_row :
    (c : Clock) (threshold duration n : ℕ) (u : User)
    → u.failed_login_count ≡ n
    → u.locked_until ≡ none
    → (set_failed c threshold duration u).failed_login_count ≡ n + 1
unfolding set_failed next_failure
failed_row c threshold duration n u e open_ = rw open_ (ap (λ x. x + 1) e)

unlocked_row :
    (c : Clock) (threshold duration : ℕ) (u : User)
    → next_failure c u < threshold
    → (set_failed c threshold duration u).locked_until ≡ none
unfolding set_failed
unlocked_row c threshold duration u few = ground arith

next_failure-open :
    (c : Clock) (u : User) → u.locked_until ≡ none → next_failure c u ≡ u.failed_login_count + 1
unfolding next_failure
next_failure-open c u open_ = rw open_ refl

counted :
    (lower : String → String) (identity : String) (c : Clock) (threshold duration n : ℕ) (db : Db)
    → n + 1 < threshold
    → HasFailed lower identity n db
    → HasFailed lower identity
        (n + 1)
        (committed db (record_login_failure lower c identity threshold duration db))
counted lower identity c threshold duration n db few h = record {
  user = set_failed c threshold duration h.user;
  stored = failure_stored lower identity c threshold duration db h.user h.stored;
  failures = failed_row c threshold duration n h.user h.failures h.unlocked;
  unlocked =
      unlocked_row c threshold duration h.user
        (ground (arith, next_failure-open c h.user h.unlocked, h.failures));
}

locked_row :
    (c : Clock) (threshold duration : ℕ) (u : User)
    → threshold ≤ next_failure c u
    → 0 < duration
    → is_locked (set_failed c threshold duration u) c.now ≡ true
unfolding set_failed is_locked
locked_row c threshold duration u enough lasting = ground arith

locked_at_last :
    (lower : String → String) (identity : String) (threshold duration n : ℕ) (db : Db)
    (clocks : List Clock) (last : Clock)
    → length clocks + n + 1 ≡ threshold
    → 0 < duration
    → HasFailed lower identity n db
    → (u : User) × (find
          (answers_to lower identity)
          (fail_logins lower identity threshold duration db (clocks ++ (last ∷ []))).users
        ≡ some u)
      × (is_locked u last.now ≡ true)
unfolding fail_logins
locked_at_last lower identity threshold duration n db [] last enough lasting h = (
  set_failed last threshold duration h.user,
  failure_stored lower identity last threshold duration db h.user h.stored,
  locked_row last threshold duration h.user
      (ground (arith, next_failure-open last h.user h.unlocked, h.failures)) lasting,
)
locked_at_last lower identity threshold duration n db (c ∷ clocks) last enough lasting h =
    locked_at_last lower identity threshold duration (n + 1)
      (committed db (record_login_failure lower c identity threshold duration db)) clocks last
      (omega arith) lasting (counted lower identity c threshold duration n db (omega arith) h)

-- As many consecutive RecordLoginFailure calls as the threshold, on the identity of an account that
-- is not disabled, not locked and has no failures yet, leave the account locked at the time of the
-- last of them, where the lock lasts for some time.
pub failures_lock :
    (lower : String → String) (identity : String) (threshold duration : ℕ) (db : Db)
    (clocks : List Clock) (last : Clock) (user : User)
    → find (answers_to lower identity) db.users ≡ some user
    → user.failed_login_count ≡ 0
    → user.locked_until ≡ none
    → length clocks + 1 ≡ threshold
    → 0 < duration
    → (u : User) × (find
          (answers_to lower identity)
          (fail_logins lower identity threshold duration db (clocks ++ (last ∷ []))).users
        ≡ some u)
      × (is_locked u last.now ≡ true)
failures_lock lower identity threshold duration db clocks last user found none_yet open_ enough
      lasting =
    locked_at_last lower identity threshold duration 0 db clocks last (omega arith) lasting
      (record { user = user; stored = found; failures = none_yet; unlocked = open_ })

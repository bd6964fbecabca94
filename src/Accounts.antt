-- ===== src/Accounts.antt =====
-- internal/store/authentication.go: failed and successful logins of an account. PostgreSQL's LOWER
-- is a parameter.
pub mod Invites
pub mod Uses
pub mod Spending
pub mod Registered
pub mod Rights
pub mod Locking
use personal_cloud_ai_servic.Domain.User.{User}
use personal_cloud_ai_servic.Db.{Clock, Tx, ok, ◌>>=◌, row_or, second, no_rows}
use personal_cloud_ai_servic.Prelude.{
  String, Option, find, ℕ, update, Bool, if◌then◌else◌, some, none, count, false, str_eq, ◌+◌, leb,
  ◌==◌, ◌&&◌, ◌||◌, ◌*◌, not, ltb, is_some,
}

-- WHERE username=$1 OR LOWER(email)=LOWER($1), of an account that is not disabled.
abbrev email_is : (String → String) → String → Option String → Bool
email_is lower identity none = false
email_is lower identity (some email) = str_eq (lower email) (lower identity)

unfoldable pub answers_to : (String → String) → String → User → Bool
answers_to lower identity u =
    (str_eq u.username identity || email_is lower identity u.email) && not u.disabled

-- A failure after a lock has passed is the first again.
abbrev pub lock_passed : Option ℕ → ℕ → Bool
lock_passed none now = false
lock_passed (some until) now = leb until now

unfoldable pub next_failure : Clock → User → ℕ
next_failure c u = if lock_passed u.locked_until c.now then 1 else u.failed_login_count + 1

unfoldable pub set_failed : Clock → ℕ → ℕ → User → User
unfolding next_failure
set_failed c threshold duration u =
    let failures = next_failure c u in
    record u {
      failed_login_count = failures;
      locked_until = if leb threshold failures then some (c.now + duration * second) else none;
    }

-- The answer is the time until which the account is locked.
unfoldable pub record_login_failure : (String → String) → Clock → String → ℕ → ℕ → Tx (Option ℕ)
unfolding find update answers_to set_failed
record_login_failure lower c identity threshold duration = do
  u ← λ db. row_or no_rows (find (answers_to lower identity) db.users) db
  λ db. ok (
    (set_failed c threshold duration u).locked_until,
    record db {
      users = update (answers_to lower identity) (set_failed c threshold duration) db.users;
    },
  )

unfoldable pub has_user_id : ℕ → User → Bool
has_user_id id u = u.id == id

unfoldable pub set_logged_in : Clock → User → User
set_logged_in c u = record u {
  last_login_at = some c.now;
  failed_login_count = 0;
  locked_until = none;
}

unfoldable pub record_login_success : Clock → ℕ → Tx (Unit {0})
unfolding update has_user_id set_logged_in
record_login_success c id db =
    ok (tt, record db { users = update (has_user_id id) (set_logged_in c) db.users })

unfoldable pub unlockable : ℕ → User → Bool
unfolding has_user_id
unlockable id u = has_user_id id u && (not (u.failed_login_count == 0) || is_some u.locked_until)

unfoldable pub set_unlocked : User → User
set_unlocked u = record u { failed_login_count = 0; locked_until = none }

unfoldable pub unlock_user : ℕ → Tx Bool
unfolding update count unlockable set_unlocked
unlock_user id db = ok (
  ltb 0 (count (unlockable id) db.users),
  record db { users = update (unlockable id) set_unlocked db.users },
)

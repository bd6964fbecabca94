-- ===== src/Jobs/Notify.antt =====
-- createGenerationJobNotification and truncateNotificationText of internal/store/notification.go.
-- The href column, which carries the escaped public id, is left out.
use personal_cloud_ai_servic.Db.{Tx, pure, ok}
use personal_cloud_ai_servic.Domain.Rows.{
  Notification, NotificationPreferences, generation_failed, generation_completed,
}
use personal_cloud_ai_servic.Domain.Job.{JobState, Job, completed, failed}
use personal_cloud_ai_servic.Prelude.{
  ℕ, trim_space, Option, String, rune_count, Bool, if◌then◌else◌, ◌==◌, true, str_eq, any, not, suc,
  leb, false, append_text, ◌||◌, ◌&&◌, some, zero, ◌-◌, ◌∷◌, find, none,
}

-- string(runes[:n]).
unfoldable pub take_runes : ℕ → String → String
take_runes zero s = ""
take_runes (suc n) String.[] = String.[]
take_runes (suc n) (String.◌∷◌ c s) = String.◌∷◌ c (take_runes n s)

-- truncateNotificationText.
unfoldable pub truncate_text : String → ℕ → String
unfolding take_runes trim_space rune_count
truncate_text text limit =
    let value = trim_space text in
    if limit == 0
    then ""
    else if leb (rune_count value) limit
    then value
    else if limit == 1
    then "…"
    else append_text (trim_space (take_runes (limit - 1) value)) "…"

unfoldable pub is_of_user : ℕ → NotificationPreferences → Bool
is_of_user user p = p.user_id == user

abbrev pub in_app : Option NotificationPreferences → Bool
in_app none = true
in_app (some p) = p.in_app_enabled

abbrev pub on_success : Option NotificationPreferences → Bool
on_success none = true
on_success (some p) = p.success_enabled

abbrev pub is_completed : JobState → Bool
is_completed completed = true
is_completed _ = false

abbrev pub is_failed : JobState → Bool
is_failed failed = true
is_failed _ = false

unfoldable pub completed_text : Job → String
unfolding trim_space
completed_text j =
    let model = trim_space j.model_name in
    if str_eq model ""
    then "Результат сохранён и готов к просмотру."
    else append_text "Результат " (append_text model " сохранён и готов к просмотру.")

unfoldable pub failed_text : Job → String
unfolding trim_space
failed_text j =
    let message = trim_space j.status_message in
    if str_eq message ""
    then "Откройте задачу, чтобы посмотреть причину и повторить запуск."
    else message

unfoldable pub notification_of : Job → ℕ → Notification
unfolding completed_text failed_text truncate_text
notification_of j user =
    if is_failed j.state
    then record {
      user_id = user;
      generation_job_id = j.id;
      kind = generation_failed;
      title = "Генерация завершилась с ошибкой";
      message = truncate_text (failed_text j) 500;
    }
    else record {
      user_id = user;
      generation_job_id = j.id;
      kind = generation_completed;
      title = "Генерация готова";
      message = truncate_text (completed_text j) 500;
    }

-- INSERT … ON CONFLICT(generation_job_id) DO NOTHING.
unfoldable pub insert_notification : Notification → Tx (Unit {0})
insert_notification n db =
    if any (λ m. m.generation_job_id == n.generation_job_id) db.notifications
    then ok (tt, db)
    else ok (tt, record db { notifications = n ∷ db.notifications })

abbrev pub notify_user : Job → ℕ → Option NotificationPreferences → Tx (Unit {0})
notify_user j user prefs =
    if not (in_app prefs) || (is_completed j.state && not (on_success prefs))
    then pure tt
    else insert_notification (notification_of j user)

abbrev pub notify_owner : Job → Option ℕ → Tx (Unit {0})
notify_owner j none db = ok (tt, db)
notify_owner j (some user) db =
    notify_user j user (find (is_of_user user) db.notification_preferences) db

unfoldable pub create_notification : Job → Tx (Unit {0})
unfolding insert_notification notification_of is_of_user
create_notification j =
    if not (is_completed j.state) && not (is_failed j.state)
    then pure tt
    else notify_owner j j.user_id

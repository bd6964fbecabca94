-- ===== src/Examples/OfAccounts.antt =====
-- The theorems on invite.go and authentication.go at concrete calls.
use personal_cloud_ai_servic.Accounts.Rights.{IsRegistered, register_grants}
use personal_cloud_ai_servic.Accounts.Locking.{fail_logins, failures_lock}
use personal_cloud_ai_servic.Domain.User.{User, is_locked}
use personal_cloud_ai_servic.Accounts.{answers_to}
use personal_cloud_ai_servic.Examples.{noon, owner, later}
use personal_cloud_ai_servic.Accounts.Registered.{
  creates, run_invites, registers, run_invites-HasInviteTable,
}
use personal_cloud_ai_servic.Accounts.Uses.{HasInviteTable}
use personal_cloud_ai_servic.Db.{Db, empty_db, committed}
use personal_cloud_ai_servic.Accounts.Invites.{
  RegisterParams, new_invite, register_from_invite, use_invite, is_available, set_used, new_user,
  insert_user, insert_use,
}
use personal_cloud_ai_servic.Domain.Invite.{Invite}
use personal_cloud_ai_servic.Prelude.{
  String, count, find, some, arith, false, ◌∷◌, true, [], ◌++◌, ◌≡◌, update, any, refl,
}

abbrev lower : String → String
lower s = s

abbrev two_uses : Invite
two_uses = record {
  id = 0;
  token_hash = "token";
  created_by_user_id = some 7;
  max_uses = 2;
  used_count = 0;
  expires_at = 8000000;
  revoked = false;
  grant_comfyui = false;
  grant_openwebui = true;
  grant_quick_generation = true;
  grant_text_to_image = false;
  grant_image_to_image = false;
  grant_video = false;
  grant_advanced_generation_settings = false;
  grant_train_image_lora = false;
  pause_mining_for_quick_generation = false;
  queue_priority = false;
  generation_daily_limit = 5;
  generation_total_limit = 0;
  video_generation_daily_limit = 0;
  video_generation_total_limit = 0;
  max_video_generation_quality = 0;
  account_lifetime_seconds = 60;
  created_at = 0;
}

abbrev guest : RegisterParams
guest = record {
  token_hash = "token";
  username = "bob";
  email = "b@x";
  password_hash = "p";
  ip = "::1";
}

abbrev first_db : Db
first_db = record empty_db { users = owner ∷ []; next_user_id = 8 }

empty_invites : HasInviteTable first_db
unfolding count
empty_invites = record {
  unique_id = λ i. omega arith;
  unique_token = λ t. omega arith;
  issued = omega arith;
  spent = omega arith;
  tallied = tt;
}

run_invites-HasInviteTable_example :
    HasInviteTable
      (run_invites lower first_db ((noon, creates two_uses) ∷ (noon, registers guest) ∷ []))
run_invites-HasInviteTable_example =
    run_invites-HasInviteTable lower first_db
      ((noon, creates two_uses) ∷ (noon, registers guest) ∷ []) empty_invites

abbrev invite_db : Db
unfolding new_invite
invite_db = record first_db { invites = new_invite noon two_uses 1 ∷ []; next_invite_id = 2 }

abbrev registered_db : Db
registered_db = committed invite_db (register_from_invite lower noon guest invite_db)

register_grants_example : IsRegistered noon guest invite_db (8, 1) registered_db
unfolding register_from_invite use_invite is_available set_used new_user insert_user insert_use
    new_invite find update any
register_grants_example = register_grants lower noon guest invite_db registered_db refl

failures_lock_example :
    (u : User) × (find
        (answers_to lower "ann")
        (fail_logins lower "ann" 2 60 first_db ((noon ∷ []) ++ (later ∷ []))).users
      ≡ some u)
    × (is_locked u later.now ≡ true)
unfolding find answers_to
failures_lock_example =
    failures_lock lower "ann" 2 60 first_db (noon ∷ []) later owner refl refl refl refl
      (omega arith)

-- ===== src/Accounts/Invites.antt =====
-- internal/store/invite.go: invites and the accounts that are registered with them. PostgreSQL's
-- LOWER, of the unique index on e-mails, is a parameter.
use personal_cloud_ai_servic.Jobs.{owned_by}
use personal_cloud_ai_servic.Domain.User.{User}
use personal_cloud_ai_servic.Domain.Invite.{Invite, InviteUse}
use personal_cloud_ai_servic.Db.{
  Clock, Tx, row_or, ok, ◌>>=◌, invite_unavailable, err, ◌>>◌, username_exists, pure, email_exists,
  constraint, second,
}
use personal_cloud_ai_servic.Prelude.{
  ℕ, find, String, any, update, keep, Bool, ◌+◌, Option, false, if◌then◌else◌, ◌==◌, str_eq, ltb,
  ◌&&◌, not, leb, none, ◌∷◌, ◌||◌, true, some, ◌*◌,
}

unfoldable pub has_invite_id : ℕ → Invite → Bool
has_invite_id id i = i.id == id

-- WHERE token_hash=$1 AND revoked=false AND expires_at > now() AND used_count < max_uses.
unfoldable pub is_available : Clock → String → Invite → Bool
is_available c token_hash i =
    str_eq i.token_hash token_hash
    && not i.revoked
    && ltb c.now i.expires_at
    && ltb i.used_count i.max_uses

unfoldable pub available_invite : Clock → String → Tx Invite
unfolding find is_available
available_invite c token_hash db =
    row_or invite_unavailable (find (is_available c token_hash) db.invites) db

unfoldable pub set_used : Invite → Invite
set_used i = record i { used_count = i.used_count + 1 }

unfoldable pub use_invite : Clock → String → Tx Invite
unfolding find update is_available set_used
use_invite c token_hash = do
  i ← λ db. row_or invite_unavailable (find (is_available c token_hash) db.invites) db
  λ db.
      ok
        (set_used i, record db { invites = update (is_available c token_hash) set_used db.invites })

pub record RegisterParams : Type 0 where
  pub token_hash : String
  pub username : String
  pub email : String
  pub password_hash : String
  pub ip : String

-- The account has the rights that the invite grants.
unfoldable pub new_user : Clock → RegisterParams → Invite → ℕ → User
new_user c p i id = record {
  id = id;
  username = p.username;
  email = if str_eq p.email "" then none else some p.email;
  password_hash = p.password_hash;
  role = "user";
  disabled = false;
  can_use_comfyui = i.grant_comfyui;
  can_use_openwebui = i.grant_openwebui;
  can_use_quick_generation = i.grant_quick_generation;
  can_generate_text_to_image = i.grant_text_to_image;
  can_generate_image_to_image = i.grant_image_to_image;
  can_generate_video = i.grant_video;
  can_use_advanced_generation_settings = i.grant_advanced_generation_settings;
  can_train_image_lora = i.grant_train_image_lora;
  can_manage_mining = false;
  pause_mining_for_quick_generation = i.pause_mining_for_quick_generation;
  queue_priority = i.queue_priority;
  generation_daily_limit = i.generation_daily_limit;
  generation_total_limit = i.generation_total_limit;
  generation_total_used = 0;
  video_generation_daily_limit = i.video_generation_daily_limit;
  video_generation_total_limit = i.video_generation_total_limit;
  video_generation_total_used = 0;
  max_video_generation_quality = i.max_video_generation_quality;
  failed_login_count = 0;
  locked_until = none;
  account_expires_at =
      if ltb 0 i.account_lifetime_seconds
      then some (c.now + i.account_lifetime_seconds * second)
      else none;
  created_at = c.now;
  last_login_at = none;
}

-- users_email_lower_unique_idx: not over empty e-mails.
abbrev pub same_email : (String → String) → Option String → Option String → Bool
same_email lower (some a) (some b) =
    not (str_eq a "") && not (str_eq b "") && str_eq (lower a) (lower b)
same_email lower _ _ = false

unfoldable pub insert_user : (String → String) → User → Tx ℕ
unfolding any
insert_user lower u db =
    if any (λ v. str_eq v.username u.username) db.users
    then err username_exists
    else if any (λ v. same_email lower v.email u.email) db.users
    then err email_exists
    else ok (u.id, record db { users = u ∷ db.users; next_user_id = db.next_user_id + 1 })

unfoldable pub insert_use : InviteUse → Tx (Unit {0})
insert_use spent db = ok (tt, record db { invite_uses = spent ∷ db.invite_uses })

-- The ids of the account and of the invite.
unfoldable pub register_from_invite : (String → String) → Clock → RegisterParams → Tx (ℕ × ℕ)
unfolding use_invite new_user insert_user insert_use
register_from_invite lower c p = do
  i ← use_invite c p.token_hash
  id ← λ db. insert_user lower (new_user c p i db.next_user_id) db
  insert_use (record { invite_id = i.id; user_id = id; used_at = c.now; ip = p.ip })
  pure (id, i.id)

-- The CHECKs on an invite. A negative number comes as its bit pattern, above the bound.
unfoldable pub invite_checks : Invite → Bool
invite_checks i =
    ltb 0 i.max_uses
    && ltb i.max_uses 0x80000000
    && leb i.used_count i.max_uses
    && ltb i.generation_daily_limit 0x80000000
    && ltb i.generation_total_limit 0x8000000000000000
    && ltb i.video_generation_daily_limit 0x80000000
    && ltb i.video_generation_total_limit 0x8000000000000000
    && ((i.max_video_generation_quality == 480)
        || (i.max_video_generation_quality == 720)
        || (i.max_video_generation_quality == 1080)
        || (i.max_video_generation_quality == 1440))
    && leb i.account_lifetime_seconds 31536000

-- CreateInvite has the row's columns as its parameters: of `params` the id, the uses so far, the
-- revocation and the creation time are not read.
unfoldable pub new_invite : Clock → Invite → ℕ → Invite
new_invite c params id = record params {
  id = id;
  used_count = 0;
  revoked = false;
  created_at = c.now;
  grant_text_to_image =
      if params.grant_quick_generation
        && not params.grant_text_to_image
        && not params.grant_image_to_image
        && not params.grant_video
      then true
      else params.grant_text_to_image;
  max_video_generation_quality =
      if params.max_video_generation_quality == 0
      then 1440
      else params.max_video_generation_quality;
}

unfoldable pub insert_invite : Invite → Tx ℕ
unfolding any invite_checks
insert_invite i db =
    if not (invite_checks i)
      || any (λ j. str_eq j.token_hash i.token_hash) db.invites
      || not (any (λ u. owned_by i.created_by_user_id u.id) db.users)
    then err constraint
    else ok (i.id, record db { invites = i ∷ db.invites; next_invite_id = db.next_invite_id + 1 })

unfoldable pub create_invite : Clock → Invite → Tx ℕ
unfolding new_invite insert_invite
create_invite c params db = insert_invite (new_invite c params db.next_invite_id) db

unfoldable pub set_invite_revoked : ℕ → Bool → Tx Bool
unfolding update any has_invite_id
set_invite_revoked id revoked db = ok (
  any (has_invite_id id) db.invites,
  record db {
    invites = update (has_invite_id id) (λ i. record i { revoked = revoked }) db.invites;
  },
)

-- The uses go with their invite (ON DELETE CASCADE).
unfoldable pub delete_invite : ℕ → Tx Bool
unfolding keep any has_invite_id
delete_invite id db = ok (
  any (has_invite_id id) db.invites,
  record db {
    invites = keep (λ i. not (has_invite_id id i)) db.invites;
    invite_uses = keep (λ u. not (u.invite_id == id)) db.invite_uses;
  },
)

pub data InviteStatus : Type 0 where
  revoked expired used active : InviteStatus

-- The status that ListInvites shows.
unfoldable pub invite_status : Clock → Invite → InviteStatus
invite_status c i =
    if i.revoked
    then revoked
    else if leb i.expires_at c.now
    then expired
    else if leb i.max_uses i.used_count
    then used
    else active

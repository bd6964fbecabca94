-- ===== src/Accounts/Rights.antt =====
-- The account that RegisterFromInvite (internal/store/invite.go) makes.
use personal_cloud_ai_servic.Db.Keeps.{Ends, Ends-read, Ends-ok, Ends-bind}
use personal_cloud_ai_servic.Accounts.{has_user_id}
use personal_cloud_ai_servic.Domain.Invite.{Invite}
use personal_cloud_ai_servic.Prelude.{
  String, ℕ, find, ◌≡◌, false, some, refl, Bool-cases, any, str_eq, inl, inr, arith, List, sym,
  update, ap, ◌∙◌, none, ◌<◌, ◌+◌, ◌*◌,
}
use personal_cloud_ai_servic.Accounts.Invites.{
  new_user, insert_user, available_invite, RegisterParams, set_used, register_from_invite,
  is_available, same_email, use_invite, insert_use,
}
use personal_cloud_ai_servic.Domain.User.{is_admin, User, can_access_mining}
use personal_cloud_ai_servic.Db.{Clock, Db, ok, invite_unavailable, ◌>>=◌, ◌>>◌, pure, second}

-- The account has each right and each limit of the invite, its own name, no use and no failure on
-- record, and an end where the invite's accounts have a lifetime.
pub record IsGranted (c : Clock) (p : RegisterParams) (i : Invite) (u : User) : Type 0 where
  pub username : u.username ≡ p.username
  pub password : u.password_hash ≡ p.password_hash
  pub enabled : u.disabled ≡ false
  pub comfyui : u.can_use_comfyui ≡ i.grant_comfyui
  pub openwebui : u.can_use_openwebui ≡ i.grant_openwebui
  pub quick_generation : u.can_use_quick_generation ≡ i.grant_quick_generation
  pub text_to_image : u.can_generate_text_to_image ≡ i.grant_text_to_image
  pub image_to_image : u.can_generate_image_to_image ≡ i.grant_image_to_image
  pub video : u.can_generate_video ≡ i.grant_video
  pub advanced : u.can_use_advanced_generation_settings ≡ i.grant_advanced_generation_settings
  pub train : u.can_train_image_lora ≡ i.grant_train_image_lora
  pub pause : u.pause_mining_for_quick_generation ≡ i.pause_mining_for_quick_generation
  pub priority : u.queue_priority ≡ i.queue_priority
  pub daily : u.generation_daily_limit ≡ i.generation_daily_limit
  pub total : u.generation_total_limit ≡ i.generation_total_limit
  pub video_daily : u.video_generation_daily_limit ≡ i.video_generation_daily_limit
  pub video_total : u.video_generation_total_limit ≡ i.video_generation_total_limit
  pub quality : u.max_video_generation_quality ≡ i.max_video_generation_quality
  pub unused : (u.generation_total_used ≡ 0) × (u.video_generation_total_used ≡ 0)
  pub unlocked : (u.failed_login_count ≡ 0) × (u.locked_until ≡ none)
  pub lasting : i.account_lifetime_seconds ≡ 0 → u.account_expires_at ≡ none
  pub expiring :
      0 < i.account_lifetime_seconds
      → u.account_expires_at ≡ some (c.now + i.account_lifetime_seconds * second)
  pub no_admin : is_admin u ≡ false
  pub no_mining : (u.can_manage_mining ≡ false) × (can_access_mining u ≡ false)

new_user-IsGranted :
    (c : Clock) (p : RegisterParams) (i : Invite) (id : ℕ) → IsGranted c p i (new_user c p i id)
unfolding is_admin can_access_mining new_user
new_user-IsGranted c p i id = record {
  username = refl;
  password = refl;
  enabled = refl;
  comfyui = refl;
  openwebui = refl;
  quick_generation = refl;
  text_to_image = refl;
  image_to_image = refl;
  video = refl;
  advanced = refl;
  train = refl;
  pause = refl;
  priority = refl;
  daily = refl;
  total = refl;
  video_daily = refl;
  video_total = refl;
  quality = refl;
  unused = (refl, refl);
  unlocked = (refl, refl);
  lasting = λ h. ground arith;
  expiring = λ h. ground arith;
  no_admin = refl;
  no_mining = (refl, refl);
}

-- What a registration leaves: the account with the invite's rights, under the ids that it answers.
abbrev pub IsRegistered : Clock → RegisterParams → Db → ℕ × ℕ → Db → Type 0
IsRegistered c p db (id, invite) db' =
    (i : Invite) × (available_invite c p.token_hash db ≡ ok (i, db))
    × (i.id ≡ invite)
    × (u : User) × (find (has_user_id id) db'.users ≡ some u)
    × IsGranted c p i u

used_rights :
    (c : Clock) (p : RegisterParams) (i : Invite) (id : ℕ)
    → new_user c p (set_used i) id ≡ new_user c p i id
unfolding new_user set_used
used_rights c p i id = refl

new_user-id : (c : Clock) (p : RegisterParams) (i : Invite) (id : ℕ) → (new_user c p i id).id ≡ id
unfolding new_user
new_user-id c p i id = refl

-- The account stands first.
abbrev StandsFirst : User → ℕ → Db → Type 0
StandsFirst u id db = (u.id ≡ id) × (find (has_user_id id) db.users ≡ some u)

insert_user-first :
    (lower : String → String) (u : User) (db : Db) → Ends (StandsFirst u) (insert_user lower u db)
unfolding insert_user find has_user_id
insert_user-first lower u db =
    elim (Bool-cases (any (λ v. str_eq v.username u.username) db.users)) [
      | inl e ↦ rw e tt
      | inr e ↦ elim (Bool-cases (any (λ v. same_email lower v.email u.email) db.users)) [
        | inl t ↦ rw (e, t) tt
        | inr t ↦ rw (e, t) (refl, ground arith)
      ]
    ]

available :
    (c : Clock) (token : String) (db : Db) (w : Invite)
    → find (is_available c token) db.invites ≡ some w
    → available_invite c token db ≡ ok (w, db)
unfolding available_invite
available c token db w found = rw found refl

abbrev UsedFrom : Clock → String → Db → Invite → Type 0
UsedFrom c token db i =
    (w : Invite) × (find (is_available c token) db.invites ≡ some w) × (i ≡ set_used w)

use_invite-UsedFrom :
    (c : Clock) (token : String) (db : Db)
    → Ends (λ i _. UsedFrom c token db i) (use_invite c token db)
unfolding use_invite
use_invite-UsedFrom c token db =
    Ends-read (λ i _. UsedFrom c token db i)
      (λ i db.
        ok (set_used i, record db { invites = update (is_available c token) set_used db.invites }))
      invite_unavailable (λ db. find (is_available c token) db.invites) db
      (λ w found. (w, found, refl))

set_used-id : (i : Invite) → (set_used i).id ≡ i.id
unfolding set_used
set_used-id i = refl

granted :
    (c : Clock) (p : RegisterParams) (db : Db) (i : Invite) (id n : ℕ) (users : List User)
    → UsedFrom c p.token_hash db i
    → (new_user c p i n).id ≡ id
    → find (has_user_id id) users ≡ some (new_user c p i n)
    → (v : Invite) × (available_invite c p.token_hash db ≡ ok (v, db))
      × (v.id ≡ i.id)
      × (u : User) × (find (has_user_id id) users ≡ some u)
      × IsGranted c p v u
granted c p db i id n users (w, found, same) own first = (
  w,
  available c p.token_hash db w found,
  sym (ap (λ v. v.id) same ∙ set_used-id w),
  new_user c p w id,
  first
      ∙ ap some (
          ap (λ v. new_user c p v n) same
          ∙ used_rights c p w n
          ∙ ap (λ m. new_user c p w m) (sym (new_user-id c p i n) ∙ own)),
  new_user-IsGranted c p w id,
)

-- Where RegisterFromInvite succeeds, AvailableInvite would have answered with the invite that it
-- names, and the account that it names is stored with each grant and limit of that invite, no use and
-- no failed login on record, and an end exactly where the invite has a lifetime for accounts; it is no
-- administrator and has no access to mining.
pub register_grants :
    (lower : String → String) (c : Clock) (p : RegisterParams) (db db' : Db) {ids : ℕ × ℕ}
    → register_from_invite lower c p db ≡ ok (ids, db')
    → IsRegistered c p db ids db'
unfolding register_from_invite insert_use
register_grants lower c p db db' {ids} success =
    Ends-ok (IsRegistered c p db) (register_from_invite lower c p db)
      (Ends-bind (IsRegistered c p db)
        (λ i. (λ db. insert_user lower (new_user c p i db.next_user_id) db) >>= λ id.
          insert_use (record { invite_id = i.id; user_id = id; used_at = c.now; ip = p.ip })
          >> pure (id, i.id))
        (use_invite c p.token_hash) db
        (λ i db1 e.
          Ends-bind (IsRegistered c p db)
            (λ id.
              insert_use (record { invite_id = i.id; user_id = id; used_at = c.now; ip = p.ip })
              >> pure (id, i.id))
            (λ db. insert_user lower (new_user c p i db.next_user_id) db) db1
            (λ id db2 e'.
              let used_from =
                Ends-ok (λ i _. UsedFrom c p.token_hash db i) (use_invite c p.token_hash db)
                  (use_invite-UsedFrom c p.token_hash db) e in
              let first =
                Ends-ok (StandsFirst (new_user c p i db1.next_user_id))
                  (insert_user lower (new_user c p i db1.next_user_id) db1)
                  (insert_user-first lower (new_user c p i db1.next_user_id) db1) e' in
              granted c p db i id db1.next_user_id db2.users used_from first.0 first.1)))
      success

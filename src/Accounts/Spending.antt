-- ===== src/Accounts/Spending.antt =====
-- RegisterFromInvite of internal/store/invite.go puts one use on record.
use personal_cloud_ai_servic.Db.Keeps.{
  After, Ends, Ends-bind, Ends-read, After-bind, Ends-ok, Keeps-pure,
}
use personal_cloud_ai_servic.Domain.User.{User}
use personal_cloud_ai_servic.Accounts.Uses.{HasInviteTable, IsTallied, used_tally, has_token}
use personal_cloud_ai_servic.Db.{Db, Clock, ok, ◌>>=◌, invite_unavailable, ◌>>◌, pure}
use personal_cloud_ai_servic.Domain.Invite.{Invite, InviteUse}
use personal_cloud_ai_servic.Accounts.Invites.{
  set_used, insert_user, register_from_invite, use_invite, has_invite_id, RegisterParams,
  is_available, insert_use, new_user, same_email,
}
use personal_cloud_ai_servic.Prelude.{
  ℕ, count, ◌≡◌, Bool, String, refl, ◌∷◌, List, find, leb, ◌≤◌, some, All, update, arith,
  find_fails, Bool-cases, count-update_same, any, ap, str_eq, ◌==◌, inl, inr, ◌+◌,
}

-- The database with one use more on record keeps the table.
abbrev Pending : ℕ → Db → Type 0
Pending id db =
    (u : InviteUse)
    → u.invite_id ≡ id
    → HasInviteTable (record db { invite_uses = u ∷ db.invite_uses })

set_used-id : (i : Invite) → (set_used i).id ≡ i.id
unfolding set_used
set_used-id i = refl

set_used-token : (i : Invite) → (set_used i).token_hash ≡ i.token_hash
unfolding set_used
set_used-token i = refl

-- A rewriting of invites that keeps their ids and tokens.
module _ (q : Invite → Bool) (f : Invite → Invite) (same_id : (i : Invite) → (f i).id ≡ i.id)
    (same_token : (i : Invite) → (f i).token_hash ≡ i.token_hash) where
  pub rewritten-HasInviteTable :
      (db : Db) (uses : List InviteUse)
      → HasInviteTable db
      → count (λ u. leb db.next_invite_id u.invite_id) uses ≤ 0
      → All (IsTallied uses) (update q f db.invites)
      → HasInviteTable (record db { invites = update q f db.invites; invite_uses = uses })
  unfolding has_invite_id
  rewritten-HasInviteTable db uses h spent tallied = record {
    unique_id = λ t. omega (
      arith,
      count-update_same (has_invite_id t) q f db.invites (λ i _. ap (λ x. x == t) (same_id i)),
      h.unique_id t,
    );
    unique_token = λ t. omega (
      arith,
      count-update_same (has_token t) q f db.invites (λ i _. ap (λ x. str_eq x t) (same_token i)),
      h.unique_token t,
    );
    issued = omega (
      arith,
      count-update_same (λ i. leb db.next_invite_id i.id) q f db.invites
          (λ i _. ap (λ x. leb db.next_invite_id x) (same_id i)),
      h.issued,
    );
    spent = spent;
    tallied = tallied;
  }

used-Pending :
    (c : Clock) (token : String) (db : Db) (w : Invite)
    → HasInviteTable db
    → find (is_available c token) db.invites ≡ some w
    → Pending w.id (record db { invites = update (is_available c token) set_used db.invites })
unfolding count
used-Pending c token db w h found u mine =
    rewritten-HasInviteTable (is_available c token) set_used set_used-id set_used-token db
      (u ∷ db.invite_uses) h
      (ground (
        arith,
        mine,
        h.spent,
        find_fails (λ i. leb db.next_invite_id i.id) db.invites (is_available c token) found
            h.issued,
      ))
      (used_tally c token db w u h found mine)

-- The invites do not see the accounts.
aside-HasInviteTable :
    (db : Db) (users : List User) (n : ℕ)
    → HasInviteTable db
    → HasInviteTable (record db { users = users; next_user_id = n })
aside-HasInviteTable db users n h = record {
  unique_id = h.unique_id;
  unique_token = h.unique_token;
  issued = h.issued;
  spent = h.spent;
  tallied = h.tallied;
}

insert_user-Pending :
    (lower : String → String) (u : User) (id : ℕ) (db : Db)
    → Pending id db
    → After (Pending id) (insert_user lower u db)
unfolding insert_user
insert_user-Pending lower u id db h =
    elim (Bool-cases (any (λ v. str_eq v.username u.username) db.users)) [
      | inl e ↦ rw e tt
      | inr e ↦ elim (Bool-cases (any (λ v. same_email lower v.email u.email) db.users)) [
        | inl t ↦ rw (e, t) tt
        | inr t ↦
            rw (e, t)
              (λ v mine.
                aside-HasInviteTable (record db { invite_uses = v ∷ db.invite_uses }) (u ∷ db.users)
                  (db.next_user_id + 1) (h v mine))
      ]
    ]

use_invite-Pending :
    (c : Clock) (token : String) (db : Db)
    → HasInviteTable db
    → Ends (λ i db'. Pending i.id db') (use_invite c token db)
unfolding use_invite set_used
use_invite-Pending c token db h =
    Ends-read (λ i db'. Pending i.id db')
      (λ i db.
        ok (set_used i, record db { invites = update (is_available c token) set_used db.invites }))
      invite_unavailable (λ db. find (is_available c token) db.invites) db
      (λ w found. used-Pending c token db w h found)

insert_use-After :
    (u : InviteUse) (db : Db) → Pending u.invite_id db → After HasInviteTable (insert_use u db)
unfolding insert_use
insert_use-After u db h = h u refl

pub register-After :
    (lower : String → String) (c : Clock) (p : RegisterParams) (db : Db)
    → HasInviteTable db
    → After HasInviteTable (register_from_invite lower c p db)
unfolding register_from_invite
register-After lower c p db h =
    Ends-bind (λ _ db'. HasInviteTable db')
      (λ i. (λ db. insert_user lower (new_user c p i db.next_user_id) db) >>= λ id.
        insert_use (record { invite_id = i.id; user_id = id; used_at = c.now; ip = p.ip })
        >> pure (id, i.id))
      (use_invite c p.token_hash) db
      (λ i db' e.
        Ends-bind (λ _ db'. HasInviteTable db')
          (λ id.
            insert_use (record { invite_id = i.id; user_id = id; used_at = c.now; ip = p.ip })
            >> pure (id, i.id))
          (λ db. insert_user lower (new_user c p i db.next_user_id) db) db'
          (λ id db'' e'.
            After-bind {B = ℕ × ℕ} {P = HasInviteTable}
              (insert_use (record { invite_id = i.id; user_id = id; used_at = c.now; ip = p.ip })
                db'')
              (λ _. pure (id, i.id))
              (insert_use-After
                (record { invite_id = i.id; user_id = id; used_at = c.now; ip = p.ip }) db''
                (Ends-ok (λ _ db''. Pending i.id db'')
                  (insert_user lower (new_user c p i db'.next_user_id) db')
                  (insert_user-Pending lower (new_user c p i db'.next_user_id) i.id db' (
                    Ends-ok (λ i db'. Pending i.id db') (use_invite c p.token_hash db)
                      (use_invite-Pending c p.token_hash db h) e))
                  e'))
              (λ _. Keeps-pure (id, i.id))))

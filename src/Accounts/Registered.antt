-- ===== src/Accounts/Registered.antt =====
-- Every call of internal/store/invite.go keeps the invites in step with their uses.
use personal_cloud_ai_servic.Accounts.Spending.{rewritten-HasInviteTable, register-After}
use personal_cloud_ai_servic.Db.Keeps.{After, after-committed}
use personal_cloud_ai_servic.Accounts.Uses.{HasInviteTable, IsTallied, uses_of, has_token}
use personal_cloud_ai_servic.Db.{Db, Clock, committed}
use personal_cloud_ai_servic.Domain.Invite.{Invite, InviteUse}
use personal_cloud_ai_servic.Accounts.Invites.{
  register_from_invite, has_invite_id, RegisterParams, insert_invite, new_invite, create_invite,
  set_invite_revoked, delete_invite,
}
use personal_cloud_ai_servic.Prelude.{
  ℕ, count, ◌≡◌, Bool, String, refl, ◌∷◌, List, leb, ◌≤◌, arith, Bool-cases, any, count-le, str_eq,
  ◌==◌, inl, inr, ◌+◌, false, not, [], true, All-update, count-keep_le, subst, All-imply, keep,
  eq_iff, count-keep_same, All-both, find-none, ◌∙◌, keep-All, any-find, All-keep,
}

fresh_tally :
    (i : Invite) (next : ℕ) (uses : List InviteUse)
    → i.id ≡ next
    → i.used_count ≡ 0
    → count (λ u. leb next u.invite_id) uses ≤ 0
    → IsTallied uses i
fresh_tally i next uses own unused h = (
  ground (
    arith,
    own,
    unused,
    h,
    count-le (uses_of i.id) (λ u. leb next u.invite_id) (λ u e. ground arith) uses,
  ),
  ground arith,
)

other_token :
    (i : Invite) (t : String) (rows : List Invite)
    → any (λ j. str_eq j.token_hash i.token_hash) rows ≡ false
    → str_eq i.token_hash t ≡ true
    → count (has_token t) rows ≡ 0
other_token i t rows new e =
    subst (λ s. count (has_token s) rows ≡ 0) ((eq_iff i.token_hash t).0 e)
      (find-none (has_token i.token_hash) rows (any-find (has_token i.token_hash) rows new))

inserted-HasInviteTable :
    (i : Invite) (db : Db)
    → i.id ≡ db.next_invite_id
    → i.used_count ≡ 0
    → any (λ j. str_eq j.token_hash i.token_hash) db.invites ≡ false
    → HasInviteTable db
    → HasInviteTable
        (record db { invites = i ∷ db.invites; next_invite_id = db.next_invite_id + 1 })
unfolding count has_invite_id
inserted-HasInviteTable i db own unused new h = record {
  unique_id = λ t. elim (Bool-cases (i.id == t)) [
    | inl e ↦ ground (
      arith,
      own,
      h.issued,
      count-le (has_invite_id t) (λ j. leb db.next_invite_id j.id) (λ x k. ground arith) db.invites,
    )
    | inr e ↦ ground (arith, h.unique_id t)
  ];
  unique_token = λ t. elim (Bool-cases (str_eq i.token_hash t)) [
    | inl e ↦ ground (arith, other_token i t db.invites new e)
    | inr e ↦ ground (arith, h.unique_token t)
  ];
  issued = ground (
    arith,
    own,
    h.issued,
    count-le (λ j. leb (db.next_invite_id + 1) j.id) (λ j. leb db.next_invite_id j.id)
        (λ x k. ground arith) db.invites,
  );
  spent = ground (
    arith,
    h.spent,
    count-le (λ u. leb (db.next_invite_id + 1) u.invite_id) (λ u. leb db.next_invite_id u.invite_id)
        (λ x k. ground arith) db.invite_uses,
  );
  tallied = (fresh_tally i db.next_invite_id db.invite_uses own unused h.spent, h.tallied);
}

insert_invite-After :
    (i : Invite) (db : Db)
    → i.id ≡ db.next_invite_id
    → i.used_count ≡ 0
    → HasInviteTable db
    → After HasInviteTable (insert_invite i db)
unfolding insert_invite
insert_invite-After i db own unused h =
    elim (Bool-cases (any (λ j. str_eq j.token_hash i.token_hash) db.invites)) [
      | inl taken ↦ rw taken (ground arith)
      | inr new ↦ ground (arith, inserted-HasInviteTable i db own unused new h)
    ]

new_invite-id : (c : Clock) (params : Invite) (n : ℕ) → (new_invite c params n).id ≡ n
unfolding new_invite
new_invite-id c params n = refl

new_invite-unused : (c : Clock) (params : Invite) (n : ℕ) → (new_invite c params n).used_count ≡ 0
unfolding new_invite
new_invite-unused c params n = refl

create-After :
    (c : Clock) (params : Invite) (db : Db)
    → HasInviteTable db
    → After HasInviteTable (create_invite c params db)
unfolding create_invite
create-After c params db h =
    insert_invite-After (new_invite c params db.next_invite_id) db
      (new_invite-id c params db.next_invite_id) (new_invite-unused c params db.next_invite_id) h

revoke-After :
    (id : ℕ) (revoked : Bool) (db : Db)
    → HasInviteTable db
    → After HasInviteTable (set_invite_revoked id revoked db)
unfolding set_invite_revoked
revoke-After id revoked db h =
    rewritten-HasInviteTable (has_invite_id id) (λ i. record i { revoked = revoked }) (λ i. refl)
      (λ i. refl) db db.invite_uses h h.spent
      (All-update (IsTallied db.invite_uses) (has_invite_id id)
        (λ i. record i { revoked = revoked }) db.invites
        (All-imply db.invites (λ i t. ((λ _. t), (λ _. t))) h.tallied))

kept_tally :
    (id : ℕ) (uses : List InviteUse) (i : Invite)
    → not (has_invite_id id i) ≡ true
    → IsTallied uses i
    → IsTallied (keep (λ u. not (u.invite_id == id)) uses) i
unfolding has_invite_id
kept_tally id uses i other h = (
  count-keep_same (uses_of i.id) (λ u. not (u.invite_id == id)) uses (λ u e. ground arith) ∙ h.0,
  h.1,
)

delete-After : (id : ℕ) (db : Db) → HasInviteTable db → After HasInviteTable (delete_invite id db)
unfolding delete_invite
delete-After id db h =
    let others : Invite → Bool = λ i. not (has_invite_id id i) in
    let left : InviteUse → Bool = λ u. not (u.invite_id == id) in
    record {
      unique_id =
          λ t. omega (arith, count-keep_le (has_invite_id t) others db.invites, h.unique_id t);
      unique_token =
          λ t. omega (arith, count-keep_le (has_token t) others db.invites, h.unique_token t);
      issued =
          omega
            (arith, count-keep_le (λ i. leb db.next_invite_id i.id) others db.invites, h.issued);
      spent = omega (
        arith,
        count-keep_le (λ u. leb db.next_invite_id u.invite_id) left db.invite_uses,
        h.spent,
      );
      tallied =
          All-imply (keep others db.invites) (λ i t. kept_tally id db.invite_uses i t.0 t.1)
            (All-both (λ i. others i ≡ true) (IsTallied db.invite_uses) (keep others db.invites)
              (keep-All others db.invites)
              (All-keep (IsTallied db.invite_uses) others db.invites h.tallied));
    }

pub data InviteCall : Type 0 where
  creates : Invite → InviteCall
  registers : RegisterParams → InviteCall
  revokes : ℕ → Bool → InviteCall
  deletes : ℕ → InviteCall

unfoldable pub invite_step : (String → String) → Db → Clock × InviteCall → Db
invite_step lower db (c, creates params) = committed db (create_invite c params db)
invite_step lower db (c, registers p) = committed db (register_from_invite lower c p db)
invite_step lower db (c, revokes id revoked) = committed db (set_invite_revoked id revoked db)
invite_step lower db (c, deletes id) = committed db (delete_invite id db)

unfoldable pub run_invites : (String → String) → Db → List (Clock × InviteCall) → Db
run_invites lower db [] = db
run_invites lower db (call ∷ calls) = run_invites lower (invite_step lower db call) calls

invite_step-HasInviteTable :
    (lower : String → String) (db : Db) (call : Clock × InviteCall)
    → HasInviteTable db
    → HasInviteTable (invite_step lower db call)
unfolding invite_step
invite_step-HasInviteTable lower db (c, creates params) h =
    after-committed HasInviteTable db (create_invite c params db) h (create-After c params db h)
invite_step-HasInviteTable lower db (c, registers p) h =
    after-committed HasInviteTable db (register_from_invite lower c p db) h
      (register-After lower c p db h)
invite_step-HasInviteTable lower db (c, revokes id revoked) h =
    after-committed HasInviteTable db (set_invite_revoked id revoked db) h
      (revoke-After id revoked db h)
invite_step-HasInviteTable lower db (c, deletes id) h =
    after-committed HasInviteTable db (delete_invite id db) h (delete-After id db h)

-- Over any sequence of calls on invites, from a table with unique ids and tokens in which every
-- invite is tallied, every invite stays tallied: as many uses are on record as its count says, and
-- no more than its limit.
pub run_invites-HasInviteTable :
    (lower : String → String) (db : Db) (calls : List (Clock × InviteCall))
    → HasInviteTable db
    → HasInviteTable (run_invites lower db calls)
unfolding run_invites
run_invites-HasInviteTable lower db [] h = h
run_invites-HasInviteTable lower db (call ∷ calls) h =
    run_invites-HasInviteTable lower (invite_step lower db call) calls
      (invite_step-HasInviteTable lower db call h)

-- ===== src/Accounts/Uses.antt =====
-- How often an invite is used (internal/store/invite.go).
use personal_cloud_ai_servic.Domain.Invite.{Invite, InviteUse}
use personal_cloud_ai_servic.Accounts.Invites.{is_available, has_invite_id, set_used}
use personal_cloud_ai_servic.Db.{Db, Clock}
use personal_cloud_ai_servic.Prelude.{
  String, ℕ, List, count, Bool, ◌≡◌, ◌≤◌, str_eq, ◌==◌, leb, find, All, some, ◌∷◌, update, true,
  false, unique-All, arith, ◌∙◌, ap, count-le, sym, find_only, Bool-cases, All-update, All-imply,
  inl, find_sound, inr, All-both,
}

abbrev pub has_token : String → Invite → Bool
has_token token i = str_eq i.token_hash token

abbrev pub uses_of : ℕ → InviteUse → Bool
uses_of id u = u.invite_id == id

-- The uses on record are the uses counted, within the invite's limit.
abbrev pub IsTallied : List InviteUse → Invite → Type 0
IsTallied uses i = (count (uses_of i.id) uses ≡ i.used_count) × (i.used_count ≤ i.max_uses)

pub record HasInviteTable (db : Db) : Type 0 where
  pub unique_id : (i : ℕ) → count (has_invite_id i) db.invites ≤ 1
  pub unique_token : (t : String) → count (has_token t) db.invites ≤ 1
  pub issued : count (λ i. leb db.next_invite_id i.id) db.invites ≤ 0
  pub spent : count (λ u. leb db.next_invite_id u.invite_id) db.invite_uses ≤ 0
  pub tallied : All (IsTallied db.invite_uses) db.invites

tally_used :
    (c : Clock) (token : String) (uses : List InviteUse) (x : Invite) (u : InviteUse)
    → u.invite_id ≡ x.id
    → is_available c token x ≡ true
    → IsTallied uses x
    → IsTallied (u ∷ uses) (set_used x)
unfolding is_available set_used count
tally_used c token uses x u mine open_ h = (ground (arith, h.0), ground (arith, h.1))

tally_other :
    (uses : List InviteUse) (w x : Invite) (u : InviteUse)
    → u.invite_id ≡ w.id
    → has_invite_id w.id x ≡ false
    → IsTallied uses x
    → IsTallied (u ∷ uses) x
unfolding count has_invite_id
tally_other uses w x u mine other h = (ground (arith, h.0), h.1)

own_invite : (w : Invite) → has_invite_id w.id w ≡ true
unfolding has_invite_id
own_invite w = ground arith

-- What is known of a row beside the one that is used.
abbrev Beside : Clock → String → List InviteUse → Invite → Invite → Type 0
Beside c token uses w x =
    ((is_available c token x ≡ true → x ≡ w) × (has_invite_id w.id x ≡ true → x ≡ w))
    × IsTallied uses x

tally_row :
    (c : Clock) (token : String) (uses : List InviteUse) (w : Invite) (u : InviteUse)
    → u.invite_id ≡ w.id
    → is_available c token w ≡ true
    → (x : Invite) → Beside c token uses w x
    → (is_available c token x ≡ true → IsTallied (u ∷ uses) (set_used x))
      × (is_available c token x ≡ false → IsTallied (u ∷ uses) x)
tally_row c token uses w u mine available x h = (
  λ e. tally_used c token uses x u (mine ∙ ap (λ v. v.id) (sym (h.0.0 e))) e h.1,
  λ e. elim (Bool-cases (has_invite_id w.id x)) [
    | inl t ↦ let same = h.0.1 t in absurd (ground (arith, ap (λ v. is_available c token v) same))
    | inr t ↦ tally_other uses w x u mine t h.1
  ],
)

available-token :
    (c : Clock) (token : String) (i : Invite)
    → is_available c token i ≡ true
    → has_token token i ≡ true
unfolding is_available
available-token c token i e = ground arith

-- One use more is on record for the invite that is used.
pub used_tally :
    (c : Clock) (token : String) (db : Db) (w : Invite) (u : InviteUse)
    → HasInviteTable db
    → find (is_available c token) db.invites ≡ some w
    → u.invite_id ≡ w.id
    → All (IsTallied (u ∷ db.invite_uses)) (update (is_available c token) set_used db.invites)
used_tally c token db w u h found mine =
    let rows = db.invites in
    let q = is_available c token in
    let one_q = unique-All q rows found (
      omega (
        arith,
        count-le q (has_token token) (available-token c token) rows,
        h.unique_token token,
      )) in
    let one_id =
      unique-All (has_invite_id w.id) rows
        (find_only (has_invite_id w.id) rows q found (own_invite w) (h.unique_id w.id))
        (h.unique_id w.id) in
    All-update (IsTallied (u ∷ db.invite_uses)) q set_used rows (
      All-imply rows (tally_row c token db.invite_uses w u mine (find_sound q rows found)) (
        All-both (λ x. (q x ≡ true → x ≡ w) × (has_invite_id w.id x ≡ true → x ≡ w))
          (IsTallied db.invite_uses) rows
          (All-both (λ x. q x ≡ true → x ≡ w) (λ x. has_invite_id w.id x ≡ true → x ≡ w) rows one_q
            one_id)
          h.tallied))

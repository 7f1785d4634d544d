-- ===== src/Identity/Service/Invitations.antt =====
-- What an invitation of backend/poi_admin/identity/service.py gives, and how often.
use poi_hub.Base.{
  ℕ, String, ◌≡◌, refl, ap, ◌∙◌, true, false, none, some, List, [], ◌∷◌, ◌++◌, ◌||◌, ◌==◌, arith,
  eq_refl, Option-cases, inl, inr, leb,
}
use poi_hub.Base.Result.{ok, err, after_ok}
use poi_hub.Base.Rows.{find, write}
use poi_hub.Base.Rows.Laws.{find-write, find-test, find-append}
use poi_hub.Core.Permissions.{Role, role_value}
use poi_hub.Identity.Model.{User, Membership, Invitation, IdentityDb, service}
use poi_hub.Identity.Service.{
  Context, Draw, require, check, normalize_email, hash_password, is_member, manages,
  is_active_tenant, tenant_of, create_invitation, invited_user, granted, grant, has_token, accepted,
  open_invitation, accept_invitation,
}

grant-invitations :
    (draw : Draw) (i : Invitation) (u : User) (db : IdentityDb)
    → (grant draw i u db).1.invitations ≡ db.invitations
unfolding grant
grant-invitations draw i u db =
    elim (Option-cases (find (is_member i.tenant_id u.id) db.memberships)) [
      | inl new ↦ rw (new, grant) refl
      | inr (m, e) ↦ rw (e, grant) refl
    ]

invited_user-invitations :
    (c : Context) (draw : Draw) (email password display_name : String) (db : IdentityDb) (u : User)
    (db' : IdentityDb)
    → invited_user c draw email password display_name db ≡ ok (u, db')
    → (db'.invitations ≡ db.invitations) × (db'.memberships ≡ db.memberships)
unfolding invited_user hash_password
invited_user-invitations c draw email password display_name db u db' e =
    (ground arith, ground arith)

-- the row that a membership lookup finds after the grant
pub record Granted (i : Invitation) (u : User) (m : Membership) (db : IdentityDb) : Type 0 where
  pub row : find (is_member i.tenant_id u.id) db.memberships ≡ some m
  pub role : m.role ≡ i.role
  pub status : m.status ≡ "active"

grant-Granted :
    (draw : Draw) (i : Invitation) (u : User) (db : IdentityDb)
    → Granted i u (grant draw i u db).0 (grant draw i u db).1
unfolding grant is_member
grant-Granted draw i u db = elim (Option-cases (find (is_member i.tenant_id u.id) db.memberships)) [
  | inl new ↦
      rw (new, grant)
        (record {
          row =
              rw
                (
                  find-append (is_member i.tenant_id u.id) db.memberships _,
                  new,
                  eq_refl i.tenant_id,
                  eq_refl u.id,
                )
                refl;
          role = refl;
          status = refl;
        })
  | inr (m, e) ↦
      rw (e, grant)
        (record {
          row =
              rw
                (
                  find-write (is_member i.tenant_id u.id) (is_member i.tenant_id u.id) (granted i)
                      (λ x. refl) (λ x h. h) db.memberships,
                  e,
                )
                (rw (find-test (is_member i.tenant_id u.id) db.memberships m e) refl);
          role = refl;
          status = refl;
        })
]

-- what an accepted invitation was, and what it has become
pub record Opened (c : Context) (draw : Draw) (token : String) (db : IdentityDb) (u : User)
    (m : Membership) (db' : IdentityDb) : Type 0 where
  pub invitation : Invitation
  pub was : find (has_token (c.sha256 token)) db.invitations ≡ some invitation
  pub unused : invitation.accepted_at ≡ none
  pub timely : leb invitation.expires_at draw.now ≡ false
  pub granted : Granted invitation u m db'
  pub marked :
      find (has_token (c.sha256 token)) db'.invitations ≡ some (accepted u draw.now invitation)

open_invitation-was :
    (hash : String) (now : ℕ) (db : IdentityDb) (i : Invitation)
    → open_invitation hash now db ≡ ok i
    → (find (has_token hash) db.invitations ≡ some i)
      × (i.accepted_at ≡ none)
      × (leb i.expires_at now ≡ false)
unfolding open_invitation require check
open_invitation-was hash now db i e = elim (Option-cases (find (has_token hash) db.invitations)) [
  | inl missing ↦ absurd (ground arith)
  | inr (j, there) ↦
      let same : j ≡ i = ground arith in (there ∙ ap some same, ground arith, ground arith)
]

marked-found :
    (hash : String) (now : ℕ) (u : User) (i : Invitation) (t : List Invitation)
    → find (has_token hash) t ≡ some i
    → find (has_token hash) (write (has_token hash) (accepted u now) t) ≡ some (accepted u now i)
unfolding accepted has_token
marked-found hash now u i t e =
    rw (find-write (has_token hash) (has_token hash) (accepted u now) (λ x. refl) (λ x h. h) t, e)
      (rw (find-test (has_token hash) t i e) refl)

-- An accepted invitation was found under the token's hash, unused and not expired. The answered user
-- has in its tenant the answered membership, active and with the invitation's role, and the invitation
-- is marked as accepted by that user.
pub accept_invitation-Opened :
    (c : Context) (draw : Draw) (token password display_name : String) (db : IdentityDb) (u : User)
    (m : Membership) (db' : IdentityDb)
    → accept_invitation c draw token password display_name db ≡ ok ((u, m), db')
    → Opened c draw token db u m db'
unfolding accept_invitation
accept_invitation-Opened c draw token password display_name db u m db' e =
    after_ok (open_invitation (c.sha256 token) draw.now db) _ _ _
      (λ i opened e1.
        after_ok (normalize_email c i.email) _ _ _
          (λ email valid e2.
            after_ok (invited_user c draw email password display_name db) _ _ _
              (λ r invited e3.
                finish i opened r.0 r.1 email invited (ground arith) (ground arith) (ground arith))
              e2)
          e1)
      e
  where
    finish :
        (i : Invitation)
        → open_invitation (c.sha256 token) draw.now db ≡ ok i
        → (v : User) (db1 : IdentityDb) (email : String)
        → invited_user c draw email password display_name db ≡ ok (v, db1)
        → u ≡ v
        → m ≡ (grant draw i v db1).0
        → db' ≡ record (grant draw i v db1).1 {
          invitations =
              write
                (has_token (c.sha256 token))
                (accepted v draw.now)
                (grant draw i v db1).1.invitations;
        }
        → Opened c draw token db u m db'
    finish i opened v db1 email invited a b d =
        let facts = open_invitation-was (c.sha256 token) draw.now db i opened in
        let kept : (grant draw i v db1).1.invitations ≡ db.invitations =
          grant-invitations draw i v db1
          ∙ (invited_user-invitations c draw email password display_name db v db1 invited).0 in
        let g = grant-Granted draw i v db1 in
        rw (a, b, d)
          (record {
            invitation = i;
            was = facts.0;
            unused = facts.1;
            timely = facts.2;
            granted = record { row = g.row; role = g.role; status = g.status };
            marked = rw kept (marked-found (c.sha256 token) draw.now v i db.invitations facts.0);
          })

-- An invitation is accepted once: after it has been accepted, the same token, at any time and with any
-- password and name, is refused as used.
pub accept_invitation_once :
    (c : Context) (draw draw' : Draw) (token password display_name password' display_name' : String)
    (db : IdentityDb) (u : User) (m : Membership) (db' : IdentityDb)
    → accept_invitation c draw token password display_name db ≡ ok ((u, m), db')
    → accept_invitation c draw' token password' display_name' db'
      ≡ err (service "invitation_used" 409)
unfolding accept_invitation open_invitation require check accepted
accept_invitation_once c draw draw' token password display_name password' display_name' db u m db'
      e =
    let o = accept_invitation-Opened c draw token password display_name db u m db' e in
    rw (o.marked) refl

-- An invitation that has been made carries the role that was asked for, which is not the platform
-- administrator's; the tenant is active, the actor is a platform administrator or an active tenant
-- administrator of it, and the row keeps the hash of the answered token only.
pub create_invitation_guards :
    (c : Context) (draw : Draw) (actor : User) (tenant email : String) (role : Role) (days : ℕ)
    (db : IdentityDb) (i : Invitation) (token : String) (db' : IdentityDb)
    → create_invitation c draw actor tenant email role days db ≡ ok ((i, token), db')
    → (i.role ≡ role_value role)
      × (role_value role == "platform_admin" ≡ false)
      × (is_active_tenant (tenant_of tenant db) ≡ true)
      × (actor.is_platform_admin || manages actor tenant db ≡ true)
      × (i.token_hash ≡ c.sha256 token)
      × (db'.invitations ≡ db.invitations ++ i ∷ [])
unfolding create_invitation check normalize_email
create_invitation_guards c draw actor tenant email role days db i token db' e =
    (ground arith, ground arith, ground arith, ground arith, ground arith, ground arith)

-- ===== src/Core/Dependencies/Login.antt =====
-- A login of backend/poi_admin/identity/service.py and the requests after it, as
-- backend/poi_admin/core/dependencies.py checks them.
use poi_hub.Base.{
  ℕ, ◌+◌, ◌≤◌, ◌<◌, String, ◌≡◌, refl, true, false, Option, none, some, [], ◌∷◌, ◌++◌, ◌==◌, ◌∙◌,
  arith, eq_refl, leb,
}
use poi_hub.Base.Rows.{find, any, write}
use poi_hub.Base.Rows.Laws.{find-append, find-none, find-write_self, find-any, any-find}
use poi_hub.Base.Result.{ok, after_ok}
use poi_hub.Identity.Model.{User, UserSession, IdentityDb}
use poi_hub.Identity.Service.{
  Context, Draw, LoginResult, new_session, session_ttl, authenticate, normalize_email, accepts,
}
use poi_hub.Identity.Service
use poi_hub.Core.Dependencies.{
  Request, AuthContext, require, check, given, either_given, has_token, is_active_user, user_of,
  open_session, only_tenant, choose, touched, get_auth_context, require_csrf,
}

-- the request of a client that has kept what the login gave it
abbrev pub with_tokens : LoginResult → Request
with_tokens l = record {
  session_cookie = some l.session_token;
  tenant_header = none;
  tenant_cookie = none;
  csrf_header = some l.csrf_token;
}

required :
    (o : Option User) (code : String) (status : ℕ) (u : User)
    → Service.require o code status ≡ ok u
    → o ≡ some u
unfolding Service.require
required none code status u e = absurd (ground arith)
required (some v) code status u e = ground arith

in_time_test : (a b : ℕ) → b < a → leb a b ≡ false
in_time_test a b h = ground arith

accepted_user :
    (c : Context) (password : String) (u : User) (x : Unit)
    → Service.check (accepts c password u) "invalid_credentials" 401 ≡ ok x
    → (u.status == "active") ≡ true
unfolding Service.check accepts
accepted_user c password u x e = ground arith

open_session-of :
    (hash : String → String) (now : ℕ) (token : String) (db : IdentityDb) (s : UserSession)
    (u : User)
    → (token == "") ≡ false
    → find (has_token (hash token)) db.sessions ≡ some s
    → s.revoked_at ≡ none
    → now < s.expires_at
    → user_of s db ≡ some u
    → (u.status == "active") ≡ true
    → open_session hash now (some token) db ≡ ok (s, u)
unfolding open_session require check given is_active_user
open_session-of hash now token db s u full row unrevoked in_time owner active =
    rw
      (
        open_session,
        given,
        full,
        row,
        unrevoked,
        in_time_test s.expires_at now in_time,
        owner,
        active,
      )
      refl

-- the context of a session without a tenant in the request
abbrev context_of : ℕ → UserSession → User → IdentityDb → AuthContext
unfolding touched only_tenant
context_of now s u db = record {
  user = u;
  session = touched now s;
  tenant = (only_tenant u db).tenant;
  membership = (only_tenant u db).membership;
  role = (only_tenant u db).role;
}

context-of :
    (hash : String → String) (now : ℕ) (r : Request) (db : IdentityDb) (s : UserSession) (u : User)
    → open_session hash now r.session_cookie db ≡ ok (s, u)
    → either_given r.tenant_header r.tenant_cookie ≡ none
    → get_auth_context hash now r db
      ≡ ok (
        context_of now s u db,
        record db {
          sessions = write (λ (x : UserSession). x.id == s.id) (touched now) db.sessions;
        },
      )
unfolding get_auth_context choose context_of
context-of hash now r db s u opened unnamed = rw (get_auth_context, opened, unnamed) refl

touched_kept :
    (now : ℕ) (s : UserSession)
    → ((touched now s).csrf_token_hash ≡ s.csrf_token_hash) × ((touched now s).id ≡ s.id)
unfolding touched
touched_kept now s = (ground arith, ground arith)

csrf-passes :
    (hash : String → String) (r : Request) (d : AuthContext) (token : String)
    → r.csrf_header ≡ some token
    → (token == "") ≡ false
    → d.session.csrf_token_hash ≡ hash token
    → require_csrf hash r d ≡ ok d
unfolding require_csrf require check given
csrf-passes hash r d token header full same =
    rw (header, require_csrf, given, full, same, eq_refl (hash token)) refl

module _ (c : Context) (draw : Draw) (email password : String)
    (user_agent ip_address : Option String) (db : IdentityDb) (l : LoginResult) (db' : IdentityDb)
    (logged_in : authenticate c draw email password user_agent ip_address db ≡ ok (l, db')) where
  -- what a login leaves
  record Left : Type 0 where
    user : User
    found : (name : String) × (find (λ (u : User). u.email == name) db.users ≡ some user)
    active : (user.status == "active") ≡ true
    login : l ≡ record {
      user = record user { last_login_at = some draw.now };
      session = new_session c draw user user_agent ip_address;
      session_token = draw.token;
      csrf_token = draw.csrf_token;
    }
    sessions : db'.sessions ≡ db.sessions ++ new_session c draw user user_agent ip_address ∷ []
    users :
        db'.users
        ≡ write
            (λ (u : User). u.id == user.id)
            (λ _. record user { last_login_at = some draw.now })
            db.users

  left : Left
  unfolding authenticate
  left =
      after_ok (normalize_email c email) _ (l, db') Left
        (λ name _ r1.
          after_ok
            (Service.require (find (λ (u : User). u.email == name) db.users) "invalid_credentials"
              401)
            _ (l, db') Left
            (λ u a r2.
              after_ok (Service.check (accepts c password u) "invalid_credentials" 401) _ (l, db')
                Left
                (λ _ b last. record {
                  user = u;
                  found = (name, required (find (λ (u : User). u.email == name) db.users) _ _ u a);
                  active = accepted_user c password u _ b;
                  login = ground arith;
                  sessions = ground arith;
                  users = ground arith;
                })
                r2)
            r1)
        logged_in

  module _ (now : ℕ) (after : draw.now ≤ now) (in_time : now < draw.now + session_ttl)
      (new_token : any (has_token (c.sha256 draw.token)) db.sessions ≡ false)
      (full : (draw.token == "") ≡ false) (full_csrf : (draw.csrf_token == "") ≡ false) where
    session_there : find (has_token (c.sha256 draw.token)) db'.sessions ≡ some l.session
    unfolding new_session
    session_there =
        rw
          (
            left.sessions,
            left.login,
            find-append (has_token (c.sha256 draw.token)) db.sessions
                (new_session c draw left.user user_agent ip_address),
            find-none (has_token (c.sha256 draw.token)) db.sessions new_token,
            eq_refl (c.sha256 draw.token),
          )
          refl

    user_there : user_of l.session db' ≡ some l.user
    unfolding new_session
    user_there =
        let (x, row) =
          any-find (λ (u : User). u.id == left.user.id) db.users
            (find-any (λ (u : User). u.email == left.found.0) (λ (u : User). u.id == left.user.id)
              db.users left.user left.found.1 (eq_refl left.user.id)) in
        rw (left.users, left.login)
          (find-write_self (λ (u : User). u.id == left.user.id)
            (record left.user { last_login_at = some draw.now }) db.users x row
            (eq_refl left.user.id))

    login_token : l.session_token ≡ draw.token
    login_token = rw left.login refl

    opened : open_session c.sha256 now (some l.session_token) db' ≡ ok (l.session, l.user)
    unfolding new_session
    opened =
        open_session-of c.sha256 now l.session_token db' l.session l.user (rw left.login full)
          (rw (login_token) session_there) (rw left.login refl) (rw left.login in_time) user_there
          (rw left.login left.active)

    -- A client that has logged in gets through with the two tokens that the login gave it, before twelve
    -- hours are over: its requests have the session and the user of the login, and they pass the check
    -- against forgery. The tokens are not empty, and no session has had this one before.
    pub get_auth_context-authenticate :
        (d : AuthContext) × (db'' : IdentityDb) × (get_auth_context c.sha256 now (with_tokens l) db'
          ≡ ok (d, db''))
        × (d.user ≡ l.user)
        × (d.session.id ≡ l.session.id)
        × (require_csrf c.sha256 (with_tokens l) d ≡ ok d)
    unfolding context_of either_given given new_session
    get_auth_context-authenticate = (
      context_of now l.session l.user db',
      record db' {
        sessions = write (λ (x : UserSession). x.id == l.session.id) (touched now) db'.sessions;
      },
      context-of c.sha256 now (with_tokens l) db' l.session l.user opened refl,
      refl,
      (touched_kept now l.session).1,
      csrf-passes c.sha256 (with_tokens l) (context_of now l.session l.user db') l.csrf_token refl
          (rw left.login full_csrf) ((touched_kept now l.session).0 ∙ rw left.login refl),
    )

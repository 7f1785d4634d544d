-- ===== src/Core/Dependencies/Sessions.antt =====
-- When a request has a session, of backend/poi_admin/core/dependencies.py.
use poi_hub.Base.{
  ℕ, ◌<◌, String, ◌≡◌, refl, Bool, true, false, not, Option, none, some, arith, eq_iff, is_some,
  leb,
}
use poi_hub.Base.Rows.{find}
use poi_hub.Base.Result.{ok, after_ok}
use poi_hub.Identity.Model.{User, UserSession, IdentityDb}
use poi_hub.Core.Dependencies.{
  require, check, given, has_token, is_active_user, user_of, open_session,
}

-- The session of a request is one that has neither been revoked nor run out, of an active user.
pub record IsOpen (hash : String → String) (now : ℕ) (cookie : Option String) (db : IdentityDb)
    (u : User) : Type 0 where
  pub token : String
  pub session : UserSession
  pub supplied : cookie ≡ some token
  pub row : find (has_token (hash token)) db.sessions ≡ some session
  pub unrevoked : session.revoked_at ≡ none
  pub in_time : now < session.expires_at
  pub owner : user_of session db ≡ some u
  pub active : u.status ≡ "active"

pub required :
    {A : Type 0} (o : Option A) (code : String) (status : ℕ) (a : A)
    → require o code status ≡ ok a
    → o ≡ some a
unfolding require
required none code status a e = absurd (ground arith)
required (some x) code status a e = ground arith

pub checked :
    (b : Bool) (code : String) (status : ℕ) (u : Unit) → check b code status ≡ ok u → b ≡ true
unfolding check
checked true code status u e = refl
checked false code status u e = absurd (ground arith)

given-some : (o : Option String) (s : String) → given o ≡ some s → o ≡ some s
unfolding given
given-some none s e = absurd (ground arith)
given-some (some t) s e = ground arith

active_user :
    (o : Option User) (u : User) → o ≡ some u → is_active_user o ≡ true → u.status ≡ "active"
unfolding is_active_user
active_user none u e h = absurd (ground arith)
active_user (some v) u e h = ground (arith, eq_iff v.status "active")

none_there : {A : Type 0} (o : Option A) → not (is_some o) ≡ true → o ≡ none
none_there none h = refl
none_there (some a) h = absurd (ground arith)

later : (a b : ℕ) → not (leb a b) ≡ true → b < a
later a b h = ground arith

pub open_session-IsOpen :
    (hash : String → String) (now : ℕ) (cookie : Option String) (db : IdentityDb) (s : UserSession)
    (u : User)
    → open_session hash now cookie db ≡ ok (s, u)
    → IsOpen hash now cookie db u
unfolding open_session
open_session-IsOpen hash now cookie db s u e =
    after_ok (require (given cookie) "authentication_required" 401) _ (s, u) _
      (λ token a r1.
        after_ok (require (find (has_token (hash token)) db.sessions) "authentication_required" 401)
          _ (s, u) _
          (λ x b r2.
            after_ok (check (not (is_some x.revoked_at)) "authentication_required" 401) _ (s, u) _
              (λ _ c r3.
                after_ok (check (not (leb x.expires_at now)) "session_expired" 401) _ (s, u) _
                  (λ _ d r4.
                    after_ok (check (is_active_user (user_of x db)) "authentication_required" 401) _
                      (s, u) _
                      (λ _ f r5.
                        after_ok (require (user_of x db) "authentication_required" 401) _ (s, u) _
                          (λ v g last.
                            let same : v ≡ u = ground arith in
                            rw (← same) (record {
                              token = token;
                              session = x;
                              supplied =
                                  given-some cookie token (required (given cookie) _ _ token a);
                              row = required _ _ _ x b;
                              unrevoked = none_there x.revoked_at (checked _ _ _ _ c);
                              in_time = later x.expires_at now (checked _ _ _ _ d);
                              owner = required _ _ _ v g;
                              active =
                                  active_user (user_of x db) v (required _ _ _ v g)
                                    (checked _ _ _ _ f);
                            }))
                          r5)
                      r4)
                  r3)
              r2)
          r1)
      e

-- ===== src/Connections/Tokens/Lasting.antt =====
-- How long the tokens last that backend/poi_admin/connections/tokens.py hands out.
use poi_hub.Base.{
  ℕ, ◌+◌, ◌*◌, ◌≤◌, ◌<◌, String, ◌≡◌, refl, Bool, true, false, not, Option, none, some, ◌⊎◌, inl,
  inr, arith, Option-cases, ltb, ◌&&◌, ◌||◌, ◌==◌, leb,
}
use poi_hub.Base.Int.{ℤ, pos, eqb_ℤ}
use poi_hub.Base.Json.{Json, get}
use poi_hub.Base.Result.{Result, ok, err, after_ok}
use poi_hub.Operations.Errors.{Failure}
use poi_hub.Connections.Tokens.{
  second, TokenState, Reply, unreachable, reply, app_token, authorizer_token, token_of, ttl,
  get_token, fresh_token, stored, mapping_of, error_code, unless, is_unavailable, raise_transient,
  filled,
}

-- the token that is held lives for a minute after this time
abbrev pub Lasts : String → ℕ → TokenState → Type 0
Lasts t now s = (s.token ≡ some t) × (now + 60 * second ≤ s.expires_at)

-- an answer of the token service gives a token a minute at least
abbrev IsLong : Result Failure (String × ℕ) → Type 0
IsLong (ok (t, life)) = 60 * second ≤ life
IsLong (err e) = Unit

IsLong-of :
    (a : Result Failure (String × ℕ))
    → ((t : String) (life : ℕ) → a ≡ ok (t, life) → 60 * second ≤ life)
    → IsLong a
IsLong-of (ok (t, life)) h = h t life refl
IsLong-of (err e) h = tt

IsLong-token_of :
    (a : Result Failure ((String × ℕ) × Option String))
    → ((t : String) (life : ℕ) (r : Option String) → a ≡ ok ((t, life), r) → 60 * second ≤ life)
    → IsLong (token_of a)
unfolding token_of
IsLong-token_of (ok ((t, life), r)) h = h t life r refl
IsLong-token_of (err e) h = tt

module _ (show : Json → String) (float_text : String → Option ℤ) where
  ttl_min : (v : Option Json) → 60 * second ≤ ttl show float_text v
  unfolding ttl
  ttl_min v = ground arith

  app_token_min :
      (r : Reply) (t : String) (life : ℕ)
      → app_token show float_text r ≡ ok (t, life)
      → 60 * second ≤ life
  unfolding app_token
  app_token_min unreachable t life e = absurd (ground arith)
  app_token_min (reply status body) t life e =
      after_ok
        (unless (is_unavailable status)
          (raise_transient "WeChat token service unavailable" "token_unavailable"))
        _ _ _
        (λ _ _ r1.
          after_ok (mapping_of "WeChat token service returned invalid JSON" body) _ _ _
            (λ d _ r2.
              after_ok (error_code d) _ _ _
                (λ n _ r3.
                  after_ok (unless (not (eqb_ℤ n (pos 0))) _) _ _ _
                    (λ _ _ last. elim (Option-cases (filled (get "access_token" d))) [
                      | inl none' ↦ absurd (ground arith)
                      | inr (u, held) ↦
                          let same : life ≡ ttl show float_text (get "expires_in" d) =
                            ground arith in
                          rw same (ttl_min (get "expires_in" d))
                    ])
                    r3)
                r2)
            r1)
        e

  authorizer_token_min :
      (r : Reply) (t : String) (life : ℕ) (again : Option String)
      → authorizer_token show float_text r ≡ ok ((t, life), again)
      → 60 * second ≤ life
  unfolding authorizer_token
  authorizer_token_min unreachable t life again e = absurd (ground arith)
  authorizer_token_min (reply status body) t life again e =
      after_ok (mapping_of "WeChat authorizer token response is invalid" body) _ _ _
        (λ d _ r1.
          after_ok (error_code d) _ _ _
            (λ n _ r2.
              after_ok
                (unless (is_unavailable status) (
                  raise_transient "WeChat authorizer token service unavailable"
                    "token_unavailable"))
                _ _ _
                (λ _ _ r3.
                  after_ok (unless (leb 400 status || not (eqb_ℤ n (pos 0))) _) _ _ _
                    (λ _ _ last. elim (Option-cases (filled (get "authorizer_access_token" d))) [
                      | inl none' ↦ absurd (ground arith)
                      | inr (u, held) ↦
                          let same : life ≡ ttl show float_text (get "expires_in" d) =
                            ground arith in
                          rw same (ttl_min (get "expires_in" d))
                    ])
                    r3)
                r2)
            r1)
        e

fresh-Lasts :
    (force : Bool) (now : ℕ) (s : TokenState) (t : String)
    → fresh_token force now s ≡ some t
    → Lasts t now s
unfolding fresh_token
fresh-Lasts force now s t e = elim (Option-cases s.token) [
  | inl none' ↦ absurd (ground arith)
  | inr (u, held) ↦
      let test : not force && not (u == "") && ltb (now + 60 * second) s.expires_at ≡ true =
        ground arith in
      (ground arith, ground arith)
]

stored-Lasts :
    (done : ℕ) (answer : Result Failure (String × ℕ)) (s s' : TokenState) (t : String)
    → IsLong answer
    → stored done answer s ≡ (ok t, s')
    → Lasts t done s'
unfolding stored
stored-Lasts done (ok (u, life)) s s' t long e = (ground arith, ground arith)
stored-Lasts done (err f) s s' t long e = absurd (ground arith)

lasting :
    (force : Bool) (now : ℕ) (before : TokenState) (now' : ℕ) (waited : TokenState) (done : ℕ)
    (answer : Result Failure (String × ℕ)) (t : String) (s : TokenState)
    → now ≤ now'
    → now' ≤ done
    → IsLong answer
    → get_token force now before now' waited done answer ≡ (ok t, s)
    → Lasts t now s
unfolding get_token
lasting force now before now' waited done answer t s early late long e =
    elim (Option-cases (fresh_token force now before)) [
      | inr (u, hit) ↦
          let same : s ≡ before = ground arith in
          let named : u ≡ t = ground arith in
          rw (same, ← named) (fresh-Lasts force now before u hit)
      | inl miss ↦ elim (Option-cases (fresh_token force now' waited)) [
        | inr (u, hit) ↦
            let same : s ≡ waited = ground arith in
            let named : u ≡ t = ground arith in
            let l = fresh-Lasts force now' waited u hit in
            rw (same, ← named) (l.0, omega (arith, l.1, early))
        | inl miss' ↦
            let r : stored done answer waited ≡ (ok t, s) = ground arith in
            let l = stored-Lasts done answer waited s t long r in
            (l.0, omega (arith, l.1, early, late))
      ]
    ]

-- what a refresh of one of the two providers brings, whatever the token service answers
abbrev IsAnswer : (Json → String) → (String → Option ℤ) → Result Failure (String × ℕ) → Type 0
IsAnswer show float_text a =
    ((r : Reply) × (a ≡ app_token show float_text r))
    ⊎ ((r : Reply) × (a ≡ token_of (authorizer_token show float_text r)))

-- A token that `get_token` answers, from the cache, from the refresh of another task while this one
-- waited for the lock, or from its own, is the one held then, and its time is not over for a minute
-- after the call began.
pub get_token-Lasts :
    (show : Json → String) (float_text : String → Option ℤ) (force : Bool) (now : ℕ)
    (before : TokenState) (now' : ℕ) (waited : TokenState) (done : ℕ)
    (answer : Result Failure (String × ℕ)) (t : String) (s : TokenState)
    → IsAnswer show float_text answer
    → now ≤ now'
    → now' ≤ done
    → get_token force now before now' waited done answer ≡ (ok t, s)
    → Lasts t now s
get_token-Lasts show float_text force now before now' waited done answer t s (inl (r, from)) early
      late e =
    lasting force now before now' waited done answer t s early late
      (rw from (IsLong-of (app_token show float_text r) (app_token_min show float_text r))) e
get_token-Lasts show float_text force now before now' waited done answer t s (inr (r, from)) early
      late e =
    lasting force now before now' waited done answer t s early late
      (rw from (
        IsLong-token_of (authorizer_token show float_text r)
          (authorizer_token_min show float_text r)))
      e

fresh_held :
    (now : ℕ) (s : TokenState) (t : String)
    → s.token ≡ some t
    → (t == "") ≡ false
    → now + 60 * second < s.expires_at
    → fresh_token false now s ≡ some t
unfolding fresh_token
fresh_held now s t held full late = rw held (ground arith)

-- A caller that found no token which lasts and then waits for the lock asks for none, if the caller
-- before it was answered one: it is answered the same token, as long as that lasts for more than a
-- minute, and nothing is stored again.
get_token_once :
    (show : Json → String) (float_text : String → Option ℤ) (force : Bool) (now : ℕ)
    (before : TokenState) (now' : ℕ) (waited : TokenState) (done : ℕ)
    (answer : Result Failure (String × ℕ)) (t : String) (s : TokenState) (next : ℕ)
    (found : TokenState) (next' done' : ℕ) (answer' : Result Failure (String × ℕ))
    → IsAnswer show float_text answer
    → now ≤ now'
    → now' ≤ done
    → get_token force now before now' waited done answer ≡ (ok t, s)
    → (t == "") ≡ false
    → fresh_token false next found ≡ none
    → next' + 60 * second < s.expires_at
    → get_token false next found next' s done' answer' ≡ (ok t, s)
unfolding get_token
get_token_once show float_text force now before now' waited done answer t s next found next' done'
      answer' from early late e full miss lasts =
    let held =
      get_token-Lasts show float_text force now before now' waited done answer t s from early late
        e in
    rw (get_token, miss, fresh_held next' s t held.0 full lasts) refl

-- ===== src/Auth/Oidc/Laws.antt =====
-- The login round trip and the session check.
use automated_actions.Prelude.{
  ℕ, String, ◌+◌, ◌/◌, ◌≤◌, ◌≡◌, ◌⊎◌, inl, inr, Bool, Option, none, some, [], ◌∷◌, eq_iff, eq_refl,
  arith, get_or, Bool-cases, Option-cases,
}
use automated_actions.Dict.{lookup}
use automated_actions.Errors.{Exc}
use automated_actions.Exec.{
  ok, err, raise, and_then, and_then-ok, ok-injective, catch-ok, catch-raise,
}
use automated_actions.Exec.Keeps.{IsAtomic, atomic_rules}
use automated_actions.Db.World.{Database, World}
use automated_actions.Db.Actions.{second}
use automated_actions.Db.Users
use automated_actions.Db.Users.Laws.{load-Writes, load-IsAtomic}
use automated_actions.Auth.Request.{Request, Response, CookieChange, set_cookie, truthy}
use automated_actions.Auth.NextUrl.{is_safe_next_url, IsLocalPath, is_safe_next_url-IsLocalPath}
use automated_actions.Auth.Oidc.{
  OidcLibs, IsSigner, Oidc, StateData, AccessToken, oidc_state_max_age_secs, safe_or_root, login,
  check_state, exchange, session_response, callback, enforce_login, get_user_info, session_user,
  with_session, authenticate,
}

module _ (L : OidcLibs) (oidc : Oidc) where
  pub safe_or_root-IsLocalPath :
      (url : String)
      → (safe_or_root L oidc url ≡ "/") ⊎ IsLocalPath L.urlsplit (safe_or_root L oidc url)
  unfolding safe_or_root
  safe_or_root-IsLocalPath url = elim (Bool-cases (is_safe_next_url L.urlsplit url)) [
    | inl e ↦ inr (rw e (is_safe_next_url-IsLocalPath L.urlsplit url e))
    | inr e ↦ inl (rw e)
  ]

  pub safe_or_root_idem :
      (url : String) → safe_or_root L oidc (safe_or_root L oidc url) ≡ safe_or_root L oidc url
  unfolding safe_or_root
  safe_or_root_idem url = elim (Bool-cases (is_safe_next_url L.urlsplit url)) [
    | inl e ↦ rw e (rw e)
    | inr e ↦ rw e (ground arith)
  ]

  -- What holds of a callback that is answered with a session.
  pub record IsAccepted (now : ℕ) (request : Request) (code state : String) (r : Response)
      : Type 0 where
    pub cookie : lookup "oidc_state" request.cookies ≡ some state
    pub signed : (d : StateData) × (L.load_state now oidc_state_max_age_secs state ≡ some d)
    pub token : (t : String) × (exchange L oidc request code ≡ ok t)
    pub local : (r.location ≡ "/") ⊎ IsLocalPath L.urlsplit r.location

  check_state-ok :
      (now : ℕ) (request : Request) (state : String) (d : StateData)
      → check_state L oidc now request state ≡ ok d
      → (lookup "oidc_state" request.cookies ≡ some state)
        × (L.load_state now oidc_state_max_age_secs state ≡ some d)
  unfolding check_state
  check_state-ok now request state d h = elim (Option-cases (lookup "oidc_state" request.cookies)) [
    | inl e ↦ ground arith
    | inr (c, e) ↦ ground (arith, eq_iff c state)
  ]

  -- A callback is answered with a session only if the browser's state cookie is the state of the
  -- URL, that state was signed and is not older than ten minutes, and the provider gave a token
  -- for the code. The browser is then sent to "/" or to a path on the own server.
  pub callback-IsAccepted :
      (now : ℕ) (request : Request) (code state : String) (r : Response)
      → callback L oidc now request code state ≡ ok r
      → IsAccepted now request code state r
  unfolding callback
  callback-IsAccepted now request code state r h =
      let (d, checked, h') = and_then-ok (check_state L oidc now request state) _ h in
      let (t, token, h'') = and_then-ok (exchange L oidc request code) _ h' in
      let (cookie, signed) = check_state-ok now request state d checked in
      record {
        cookie = cookie;
        signed = (d, signed);
        token = (t, token);
        local =
            rw (← ok-injective h'')
              (unfold session_response in safe_or_root-IsLocalPath (get_or d.next_url "/"));
      }

  -- A login and the callback with the state that it put into the browser's cookie, within ten
  -- minutes, if the provider gives a token for the code of the callback: the session is set, and the
  -- browser goes where the login was asked to go, if that is safe, and to "/" if it is not.
  pub callback-login :
      (signer : IsSigner L) (now later : ℕ) (nonce : String) (request back : Request)
      (next_url code state token : String) (secure : Bool) (age : ℕ)
      → (login L oidc now nonce request next_url).cookies
        ≡ set_cookie "oidc_state" state secure age ∷ []
      → lookup "oidc_state" back.cookies ≡ some state
      → now ≤ later
      → later ≤ now + 600
      → exchange L oidc back code ≡ ok token
      → callback L oidc later back code state
        ≡ ok (session_response L oidc later (safe_or_root L oidc next_url) token)
  unfolding callback login check_state
  callback-login signer now later nonce request back next_url code state token secure age set cookie
        h k exchanged =
      let d : StateData = record {
        nonce = some nonce;
        next_url = some (safe_or_root L oidc next_url);
      } in
      let same : L.sign_state now d ≡ state = cc in
      let loaded = signer.load_state-sign_state now later 600 d h k in
      let full = signer.sign_state-nonempty now d in
      rw cookie (
        rw (← same) (
          rw (full, truthy)
            (rw eq_refl (rw loaded (rw exchanged (rw (safe_or_root_idem next_url)))))))

  session_set :
      (now : ℕ) (back : Request) (code token session : String) (r : Response)
      (dropped : CookieChange) (secure : Bool) (age : ℕ) (url : String)
      → and_then (exchange L oidc back code) (λ t. ok (session_response L oidc now url t)) ≡ ok r
      → r.cookies ≡ dropped ∷ set_cookie "session" session secure age ∷ []
      → exchange L oidc back code ≡ ok token
      → L.sign_session now token ≡ session
  unfolding session_response
  session_set now back code token session r dropped secure age url h cookies exchanged =
      ground arith

  module _ (D : Database) (w : World D) where
    -- With the session cookie that a callback set, not before that and until the session times out,
    -- if the provider still accepts the token of the session when the request asks it for the user's
    -- information: the user that the token names is loaded.
    pub authenticate-callback :
        (signer : IsSigner L) (now : ℕ) (back request : Request) (code state token session : String)
        (r : Response) (dropped : CookieChange) (secure : Bool) (age : ℕ) (claims : AccessToken)
        → callback L oidc now back code state ≡ ok r
        → r.cookies ≡ dropped ∷ set_cookie "session" session secure age ∷ []
        → exchange L oidc back code ≡ ok token
        → lookup "session" request.cookies ≡ some session
        → now ≤ w.clock / second
        → w.clock / second ≤ now + oidc.session_timeout_secs
        → L.get_userinfo token ≡ ok tt
        → L.decode_unverified token ≡ ok claims
        → authenticate L oidc D request w
          ≡ Users.load D claims.preferred_username claims.name claims.email w
    unfolding callback session_response authenticate
    authenticate-callback signer now back request code state token session r dropped secure age
          claims accepted cookies exchanged cookie h k info decoded =
        let (d, checked, rest) = and_then-ok (check_state L oidc now back state) _ accepted in
        let same : L.sign_session now token ≡ session =
          session_set now back code token session r dropped secure age
            (safe_or_root L oidc (get_or d.next_url "/")) rest cookies exchanged in
        let loaded =
          signer.load_session-sign_session now (w.clock / second) oidc.session_timeout_secs token h
            k in
        let full = signer.sign_session-nonempty now token in
        rw cookie (
          rw (← same) (
            rw (full, truthy)
              (rw loaded (
                rw info (
                  rw decoded (
                    catch-ok (Users.load D claims.preferred_username claims.name claims.email) _ w _
                      (load-Writes D w claims.preferred_username claims.name
                        claims.email).returns))))))

  module _ (D : Database) where
    get_user_info-IsAtomic : (token : String) → IsAtomic (get_user_info L oidc D token)
    unfolding get_user_info
    get_user_info-IsAtomic token = search (atomic_rules, load-IsAtomic D)

    session_user-IsAtomic : (token : String) → IsAtomic (session_user L oidc D token)
    unfolding session_user
    session_user-IsAtomic token = search (atomic_rules, get_user_info-IsAtomic)

    with_session_fails :
        (request : Request) (o : Option String) (w : World D) (e : Exc)
        → (with_session L oidc D request o w).0 ≡ err e
        → e ≡ enforce_login L oidc request
    unfolding with_session
    with_session_fails request none w e h = cc
    with_session_fails request (some t) w e h =
        catch-raise (session_user L oidc D t) (λ _. raise (enforce_login L oidc request)) w
          (enforce_login L oidc request) e h

    with_session-IsAtomic :
        (request : Request) (o : Option String) → IsAtomic (with_session L oidc D request o)
    unfolding with_session
    with_session-IsAtomic request none = search atomic_rules
    with_session-IsAtomic request (some t) = search (atomic_rules, session_user-IsAtomic)

    -- Whenever the session check raises, it raises the 307 to the login, and nothing is written.
    pub authenticate_fails :
        (w : World D) (request : Request) (e : Exc)
        → (authenticate L oidc D request w).0 ≡ err e
        → (e ≡ enforce_login L oidc request) × ((authenticate L oidc D request w).1 ≡ w)
    unfolding authenticate
    authenticate_fails w request e h =
        let o = truthy (lookup "session" request.cookies) in
        (with_session_fails request o w e h, (with_session-IsAtomic request o).at w e h)

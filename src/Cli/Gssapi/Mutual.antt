-- ===== src/Cli/Gssapi/Mutual.antt =====
-- Which responses the handshake lets through.
use automated_actions.Prelude.{
  ℕ, String, ◌≡◌, ◌≢◌, ◌≤◌, refl, sym, ap, ◌∙◌, Bool, true, false, Option, none, some, eqb, leb,
  leb_iff, if◌then◌else◌, eqb_iff, arith, ◌||◌,
}
use automated_actions.Errors.{Exc}
use automated_actions.Exec.{Result, ok, err, and_then, and_then-ok, ok-injective, ok-ne-err}
use automated_actions.Cli.Gssapi.{
  Gss, HttpSpnegoAuth, Request, Response, Flow, sends, returns, finish, handle_response,
  set_auth_header, negotiate_value, authenticate_server, auth_flow, sanitize_response,
  handle_mutual_auth, required, disabled, optional, unable, sanitized, checked, Failure, gss_error,
  other, handle_gsserror, started,
}
use automated_actions.Cli.Gssapi.Laws.{Ends, handle_response-Ends, finish-Ends, started-Ends}

if-ok :
    {A : Type 0} (b : Bool) (a : A) (e : Exc) (r : A)
    → (if b then ok a else err e) ≡ ok r
    → (b ≡ true) × (a ≡ r)
if-ok true a e r h = (refl, ok-injective h)
if-ok false a e r h = absurd (ok-ne-err (sym h))

or_false : (b : Bool) → (b || false) ≡ b
or_false true = refl
or_false false = refl

later : (f : Flow) {g : Flow} (b : Bool) → b ≡ false → (if b then f else g) ≡ g
later f true h = cc
later f false h = refl

at_once : {f : Flow} (g : Flow) (b : Bool) → b ≡ true → (if b then f else g) ≡ f
at_once g true h = refl
at_once g false h = cc

module _ (gss : Gss) (auth : HttpSpnegoAuth gss) where
  -- What may be returned where mutual authentication is required: a 401, a response whose token the
  -- GSSAPI accepted, and an error without a token, which is stripped if that is asked for.
  pub data IsTrusted : Response → Type 0 where
    unauthorized : {response : Response} → response.status_code ≡ 401 → IsTrusted response
    authentic :
        {response : Response} (token : String) (ctx : gss.Context)
        (stepped : Option String × gss.Context)
        → negotiate_value gss response ≡ ok (some token)
        → gss.step ctx (some token) ≡ ok stepped
        → IsTrusted response
    stripped :
        (response : Response)
        → 400 ≤ response.status_code
        → auth.sanitize_mutual_error_response ≡ true
        → IsTrusted (sanitize_response response)
    kept :
        {response : Response}
        → 400 ≤ response.status_code
        → auth.sanitize_mutual_error_response ≡ false
        → IsTrusted response

  gsserror-true :
      (r : Result Failure Bool)
      → handle_gsserror "stepping" (λ _. ok false) r ≡ ok true
      → r ≡ ok true
  unfolding handle_gsserror
  gsserror-true (ok a) h = ap ok (ok-injective h)
  gsserror-true (err (gss_error text)) h = cc
  gsserror-true (err (other e)) h = cc

  step-of_map :
      (r : Result Failure (Option String × gss.Context))
      → and_then r (λ _. ok true) ≡ ok true
      → (stepped : Option String × gss.Context) × (r ≡ ok stepped)
  step-of_map (ok stepped) h = (stepped, refl)
  step-of_map (err e) h = cc

  authenticate_server-true :
      (response : Response) (ctx : gss.Context) (token : String)
      → negotiate_value gss response ≡ ok (some token)
      → authenticate_server gss auth response ctx ≡ ok true
      → (stepped : Option String × gss.Context) × (gss.step ctx (some token) ≡ ok stepped)
  unfolding authenticate_server
  authenticate_server-true response ctx token h e = step-of_map _ (gsserror-true _ (rw h at e))

  auth_flow-early :
      (request : Request)
      → auth.opportunistic_auth ≡ true
      → auth_flow gss auth request ≡ started gss auth (set_auth_header gss auth request none)
  unfolding auth_flow
  auth_flow-early request early = at_once _ auth.opportunistic_auth early

  module _ (is_required : auth.mutual_auth ≡ required) where
    requires : eqb auth.mutual_auth required ≡ true
    requires = (eqb_iff _ _).1 is_required

    not-disabled : eqb auth.mutual_auth disabled ≡ false
    not-disabled = ground arith

    not-optional : eqb auth.mutual_auth optional ≡ false
    not-optional = ground arith

    stripped-or_kept :
        (response : Response) (b : Bool)
        → 400 ≤ response.status_code
        → auth.sanitize_mutual_error_response ≡ b
        → IsTrusted (if b then sanitize_response response else response)
    stripped-or_kept response true h e = stripped response h e
    stripped-or_kept response false h e = kept h e

    sanitized-IsTrusted :
        (response : Response) → 400 ≤ response.status_code → IsTrusted (sanitized gss auth response)
    unfolding sanitized
    sanitized-IsTrusted response h = rw requires (stripped-or_kept response _ h refl)

    answered :
        (response : Response) (ctx : gss.Context) (r : Response) (token : Option String)
        → negotiate_value gss response ≡ ok token
        → checked gss auth response ctx token ≡ ok r
        → IsTrusted r
    unfolding checked unable
    answered response ctx r (some token) e h =
        let (is_authentic, answer, h') =
          and_then-ok (authenticate_server gss auth response ctx) _ h in
        let (accepted, same) = if-ok is_authentic _ _ r h' in
        let (stepped, s) =
          authenticate_server-true response ctx token e (answer ∙ ap ok accepted) in
        rw (← same) (authentic token ctx stepped e s)
    answered response ctx r none e h =
        let (failed, same) =
          if-ok (leb 400 response.status_code) _ _ r (rw (not-optional, or_false) at h) in
        rw (← same) (sanitized-IsTrusted response ((leb_iff _ _).0 failed))

    pub handle_mutual_auth-IsTrusted :
        (response : Response) (ctx : gss.Context) (r : Response)
        → handle_mutual_auth gss auth response ctx ≡ ok r
        → IsTrusted r
    unfolding handle_mutual_auth
    handle_mutual_auth-IsTrusted response ctx r h =
        let (token, e, h') = and_then-ok (negotiate_value gss response) _ (rw not-disabled at h) in
        answered response ctx r token e h'

    trusted :
        (n : ℕ) (response : Response) (c : Option gss.Context)
        → ((x : gss.Context) × (c ≡ some x))
        → Ends IsTrusted n (finish gss auth response c)
    trusted n response c (ctx, e) = rw e (
        finish-Ends gss auth IsTrusted n response ctx unauthorized
          (handle_mutual_auth-IsTrusted response ctx))

    -- Where mutual authentication is required and the token is sent with the first request already,
    -- a response is returned only if it is a 401, or the GSSAPI has accepted its token, or it is an
    -- error, which is stripped if that is asked for.
    pub auth_flow-IsTrusted :
        (request : Request)
        → auth.opportunistic_auth ≡ true
        → Ends IsTrusted 3 (auth_flow gss auth request)
    auth_flow-IsTrusted request early = rw (auth_flow-early request early) (
        started-Ends gss auth IsTrusted _ λ ctx response.
          handle_response-Ends gss auth IsTrusted (λ c. (x : gss.Context) × (c ≡ some x))
            (λ x. (x, refl)) trusted 2 response (some ctx) (ctx, refl))

  -- A first response that is no 401 is returned as it is where no token was sent with the request,
  -- also where mutual authentication is required and nothing of the response was authenticated.
  pub auth_flow_unchallenged :
      (request : Request) (response : Response)
      → auth.opportunistic_auth ≡ false
      → response.status_code ≢ 401
      → (go : Response → Flow) × (auth_flow gss auth request ≡ sends request go)
        × (go response ≡ returns response)
  unfolding auth_flow handle_response finish
  auth_flow_unchallenged request response late not_401 = (
    (λ r. handle_response gss auth 2 r none),
    later _ auth.opportunistic_auth late,
    later _ (eqb response.status_code 401) (ground (arith, not_401)),
  )

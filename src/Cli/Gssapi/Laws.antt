-- ===== src/Cli/Gssapi/Laws.antt =====
-- How many requests the handshake sends, and what it leaves of the headers of a response.
use automated_actions.Prelude.{
  ℕ, zero, suc, String, ◌≡◌, inl, inr, refl, sym, Option, none, some, [], eqb, if◌then◌else◌,
  Bool-cases, eqb_iff, eq_iff, arith, ◌==◌, ◌||◌, Option-cases, or_else,
}
use automated_actions.Dict.{Dict, lookup, lookup-insert}
use automated_actions.Errors.{Exc}
use automated_actions.Exec.{Result, ok, err}
use automated_actions.Cli.Gssapi.{
  Gss, HttpSpnegoAuth, Request, Response, Flow, sends, returns, raises, finish, handle_response,
  negotiate_value, is_spnego, sanitize_response, handle_mutual_auth, keep_header, flow_of, started,
  resend, retry,
}

-- At most so many requests are sent whatever the responses are, and P holds of each response that
-- is returned.
pub data Ends (P : Response → Type 0) : ℕ → Flow → Type 0 where
  by_return : {n : ℕ} {response : Response} → P response → Ends P n (returns response)
  by_raise : {n : ℕ} {e : Exc} → Ends P n (raises e)
  by_send :
      {n : ℕ} {request : Request} {go : Response → Flow}
      → ((response : Response) → Ends P n (go response))
      → Ends P (suc n) (sends request go)

-- The loop keeps what holds after it and of each context.
module _ (gss : Gss) (auth : HttpSpnegoAuth gss) (P : Response → Type 0)
    (Q : Option gss.Context → Type 0) (of_new : (ctx : gss.Context) → Q (some ctx))
    (finish-Ends : (n : ℕ) (response : Response) (ctx : Option gss.Context)
      → Q ctx
      → Ends P n (finish gss auth response ctx)) where
  module _ (n : ℕ) (go : Response → Option gss.Context → Flow)
      (go-Ends : (response : Response) (ctx : Option gss.Context)
        → Q ctx
        → Ends P n (go response ctx)) where
    resend-Ends :
        (sent : Request) (ctx : Option gss.Context) (r : Result Exc (gss.Context × Request))
        → Q ctx
        → Ends P (suc n) (resend gss auth go sent ctx r)
    unfolding resend
    resend-Ends sent ctx (ok (new_ctx, request)) q =
        by_send (λ next. go-Ends next (some new_ctx) (of_new new_ctx))
    resend-Ends sent ctx (err e) q = elim (Bool-cases (is_spnego e)) [
      | inl h ↦ rw h (by_send (λ next. go-Ends next ctx q))
      | inr h ↦ rw h by_raise
    ]

    retry-Ends :
        (response : Response) (ctx : Option gss.Context) (r : Result Exc (Option String))
        → Q ctx
        → Ends P (suc n) (retry gss auth go response ctx r)
    unfolding retry
    retry-Ends response ctx (err e) q = by_raise
    retry-Ends response ctx (ok none) q = finish-Ends (suc n) response ctx q
    retry-Ends response ctx (ok (some token)) q = resend-Ends response.request ctx _ q

  pub handle_response-Ends :
      (retries : ℕ) (response : Response) (ctx : Option gss.Context)
      → Q ctx
      → Ends P retries (handle_response gss auth retries response ctx)
  unfolding handle_response
  handle_response-Ends zero response ctx q = finish-Ends zero response ctx q
  handle_response-Ends (suc retries) response ctx q =
      elim (Bool-cases (eqb response.status_code 401)) [
        | inl e ↦ rw e (
            retry-Ends retries (λ next new_ctx. handle_response gss auth retries next new_ctx)
              (λ next new_ctx q. handle_response-Ends retries next new_ctx q) response ctx
              (negotiate_value gss response) q)
        | inr e ↦ rw e (finish-Ends (suc retries) response ctx q)
      ]

module _ (gss : Gss) (auth : HttpSpnegoAuth gss) where
  flow_of-Ends :
      (P : Response → Type 0) (n : ℕ) (r : Result Exc Response)
      → ((response : Response) → r ≡ ok response → P response)
      → Ends P n (flow_of gss auth r)
  unfolding flow_of
  flow_of-Ends P n (ok response) h = by_return (h response refl)
  flow_of-Ends P n (err e) h = by_raise

  -- A context is there, so the response is a 401 or went through the mutual authentication.
  pub finish-Ends :
      (P : Response → Type 0) (n : ℕ) (response : Response) (ctx : gss.Context)
      → (response.status_code ≡ 401 → P response)
      → ((r : Response) → handle_mutual_auth gss auth response ctx ≡ ok r → P r)
      → Ends P n (finish gss auth response (some ctx))
  unfolding finish
  finish-Ends P n response ctx unauthorized h = elim (Bool-cases (eqb response.status_code 401)) [
    | inl e ↦ rw e (by_return (unauthorized ((eqb_iff _ _).0 e)))
    | inr e ↦ rw e (flow_of-Ends P n (handle_mutual_auth gss auth response ctx) h)
  ]

  pub started-Ends :
      (P : Response → Type 0) (r : Result Exc (gss.Context × Request))
      → ((ctx : gss.Context) (response : Response)
          → Ends P 2 (handle_response gss auth 2 response (some ctx)))
      → Ends P 3 (started gss auth r)
  unfolding started
  started-Ends P (ok (ctx, request)) h = by_send (h ctx)
  started-Ends P (err e) h = by_raise

lookup-keep_header :
    (response : Response) (header key : String) (headers : Dict String)
    → lookup key (keep_header response header headers) ≡ (
        if header == key
        then or_else (lookup header response.headers) (lookup key headers)
        else lookup key headers)
unfolding keep_header
lookup-keep_header response header key headers =
    elim (Option-cases (lookup header response.headers)) [
      | inl e ↦ rw (keep_header, e) (ground arith)
      | inr (v, e) ↦ rw (keep_header, e) (rw (lookup-insert header key v headers) refl)
    ]

or_else-none : (o : Option String) → or_else o none ≡ o
or_else-none none = refl
or_else-none (some v) = refl

-- A stripped response has no content and no cookies, and of its headers those for the date and the
-- server are what is left, beside a length of 0.
pub sanitize_response_lem :
    (response : Response) (key : String)
    → ((sanitize_response response).content ≡ "")
      × ((sanitize_response response).cookies ≡ [])
      × ((sanitize_response response).status_code ≡ response.status_code)
      × (lookup key (sanitize_response response).headers ≡ (
          if "content-length" == key
          then some "0"
          else if ("date" == key) || ("server" == key)
          then lookup key response.headers
          else none))
unfolding sanitize_response lookup
sanitize_response_lem response key = (
  refl,
  refl,
  refl,
  rw (lookup-keep_header, lookup-keep_header)
      (elim (Bool-cases ("server" == key)) [
        | inl e ↦ rw (sym ((eq_iff _ _).0 e)) (or_else-none _)
        | inr e ↦ elim (Bool-cases ("date" == key)) [
          | inl h ↦ rw (sym ((eq_iff _ _).0 h)) (or_else-none _)
          | inr h ↦ rw (e, h) refl
        ]
      ]),
)

-- ===== src/Cli/Gssapi/Resends.antt =====
-- Which responses the handshake answers with another request.
use automated_actions.Prelude.{ℕ, suc, String, ◌≡◌, some}
use automated_actions.Errors.{Exc}
use automated_actions.Exec.{ok}
use automated_actions.Cli.Gssapi.{
  Gss, Request, Response, Flow, sends, returns, raises, negotiate_value,
}

module _ (gss : Gss) where
  -- What follows a response, with at most so many requests: the flow returns, raises, or, only if the
  -- response has the status 401 and a value for the negotiation, sends a request.
  pub data Resends : ℕ → Response → Flow → Type 0 where
    is_returned : {n : ℕ} {response result : Response} → Resends n response (returns result)
    is_raised : {n : ℕ} {response : Response} {e : Exc} → Resends n response (raises e)
    is_resent :
        {n : ℕ} {response : Response} {request : Request} {go : Response → Flow} (token : String)
        → response.status_code ≡ 401
        → negotiate_value gss response ≡ ok (some token)
        → ((next : Response) → Resends n next (go next))
        → Resends (suc n) response (sends request go)

  -- A flow that raises, or sends a request and then at most two more.
  pub data Starts : Flow → Type 0 where
    fails : {e : Exc} → Starts (raises e)
    starts :
        {request : Request} {go : Response → Flow}
        → ((response : Response) → Resends 2 response (go response))
        → Starts (sends request go)

-- ===== src/Utils/JobWait.antt =====
-- openshift_client.py: waiting for a Kubernetes job. The API server and the clock are parameters:
-- the answer to the read and the time at the start of each round of the loop.
pub mod Laws
pub mod Success
use automated_actions.Prelude.{
  ℕ, zero, suc, ◌+◌, ◌-◌, ◌*◌, String, Bool, true, false, ◌&&◌, Option, none, some, ltb, leb, eqb,
  List, [], if◌then◌else◌,
}
use automated_actions.Text.{◌+++◌}
use automated_actions.Errors.{
  Exc, api_exception, http, vault_error, raised, timeout_error, pod_error,
}
use automated_actions.Exec.{Result, ok, err}

pub record JobStatus : Type 0 where
  pub succeeded : Option ℕ
  pub failed : Option ℕ

pub record Job : Type 0 where
  pub status : Option JobStatus
  -- `none` where there is no spec, or the spec has no limit
  pub backoff_limit : Option ℕ

-- `status.succeeded is not None and status.succeeded >= 1`
unfoldable pub has_succeeded : JobStatus → Bool
has_succeeded status = elim status.succeeded [ none ↦ false | some n ↦ leb 1 n ]

-- `status.failed is not None and … and status.failed > spec.backoff_limit`
unfoldable pub has_failed : Option ℕ → JobStatus → Bool
has_failed none status = false
has_failed (some limit) status = elim status.failed [ none ↦ false | some n ↦ ltb limit n ]

-- `err.status == NOT_FOUND` of an ApiException
unfoldable pub is_not_found : Exc → Bool
is_not_found (api_exception status text) = eqb status 404
is_not_found (http status detail headers) = false
is_not_found (vault_error class text) = false
is_not_found (raised class text) = false
is_not_found (Exc.library text) = false

-- What a round of the loop comes to: it ends, or sleeps and goes on.
pub data Round : Type 0 where
  ends : Result Exc (Unit {0}) → Round
  sleeps : Round

module _ (show : Option ℕ → String) (job_name : String) where
  pub round_of_status : Option ℕ → JobStatus → Round
  unfolding has_succeeded has_failed
  round_of_status limit status =
      if has_succeeded status
      then ends (ok tt)
      else if has_failed limit status
      then ends (
          err (
            raised pod_error (
              "Job '"
              +++ job_name
              +++ "' failed with "
              +++ show status.failed
              +++ " failures. Check logs for details.")))
      else sleeps

  -- The round after the check of the time.
  unfoldable pub round_of : Result Exc Job → Round
  unfolding round_of_status is_not_found
  round_of (err e) = if is_not_found e then sleeps else ends (err e)
  round_of (ok job) = elim job.status [
    | none ↦ sleeps
    | some status ↦ round_of_status job.backoff_limit status
  ]

  module _ (read : ℕ → Result Exc Job) (time : ℕ → ℕ) (start_time timeout : ℕ) where
    -- One round: the time is checked first.
    unfoldable pub round : ℕ → Round
    unfolding round_of
    round n =
        if ltb timeout (time n - start_time)
        then ends (
            err (
              raised timeout_error ("Timeout waiting for Job '" +++ job_name +++ "' to complete.")))
        else round_of (read n)

    -- `OpenshiftClient.job_wait` from a round on; `none` means that the fuel ran out.
    unfoldable pub job_wait : ℕ → ℕ → Option (Result Exc (Unit {0}))
    job_wait zero n = none
    job_wait (suc fuel) n = elim (round n) [ ends r ↦ some r | sleeps ↦ job_wait fuel (suc n) ]

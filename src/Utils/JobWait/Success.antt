-- ===== src/Utils/JobWait/Success.antt =====
-- What the wait for a job has met when it returns.
use automated_actions.Prelude.{
  ℕ, zero, suc, ◌-◌, ◌≡◌, refl, sym, Bool-cases, String, false, Option, some, Bool, true,
  if◌then◌else◌, Option-cases, ltb, inl, inr, ◌∙◌, ap,
}
use automated_actions.Errors.{Exc}
use automated_actions.Exec.{Result, ok, err}
use automated_actions.Utils.JobWait.{
  Job, JobStatus, has_succeeded, round_of, round_of_status, ends, sleeps, round, job_wait,
}
use automated_actions.Utils.JobWait.Laws.{
  Round-cases, ends-ne-sleeps, job_wait-round, job_wait-sleeps,
}

some-injective :
    {a b : Result Exc (Unit {0})}
    → ◌≡◌ {A = Option (Result Exc (Unit {0}))} (some a) (some b)
    → a ≡ b
some-injective h = cc

module _ (show : Option ℕ → String) (job_name : String) where
  -- An answer to the read, of a job that has succeeded.
  pub HasSucceeded : Result Exc Job → Type 0
  HasSucceeded r =
      (job : Job) × (status : JobStatus) × (r ≡ ok job)
      × (job.status ≡ some status)
      × (has_succeeded status ≡ true)

  failed_or_sleeps : (b : Bool) (e : Exc) → (if b then ends (err e) else sleeps) ≡ ends (ok tt) → ⊥
  failed_or_sleeps true e h = cc
  failed_or_sleeps false e h = cc

  missing_or_err : (b : Bool) (e : Exc) → (if b then sleeps else ends (err e)) ≡ ends (ok tt) → ⊥
  missing_or_err true e h = cc
  missing_or_err false e h = cc

  status-ok :
      (limit : Option ℕ) (status : JobStatus)
      → round_of_status show job_name limit status ≡ ends (ok tt)
      → has_succeeded status ≡ true
  unfolding round_of_status
  status-ok limit status h = elim (Bool-cases (has_succeeded status)) [
    | inl e ↦ e
    | inr e ↦ absurd (failed_or_sleeps _ _ (rw e at h))
  ]

  round_of-ok : (r : Result Exc Job) → round_of show job_name r ≡ ends (ok tt) → HasSucceeded r
  unfolding round_of HasSucceeded
  round_of-ok (err e) h = absurd (missing_or_err _ e h)
  round_of-ok (ok job) h = elim (Option-cases job.status) [
    | inl e ↦ absurd (ends-ne-sleeps (sym (rw e at h)))
    | inr (status, e) ↦ (job, status, refl, e, status-ok job.backoff_limit status (rw e at h))
  ]

  module _ (read : ℕ → Result Exc Job) (time : ℕ → ℕ) (start_time timeout : ℕ) where
    round-ok :
        (n : ℕ)
        → round show job_name read time start_time timeout n ≡ ends (ok tt)
        → HasSucceeded (read n)
    unfolding round
    round-ok n h = elim (Bool-cases (ltb timeout (time n - start_time))) [
      | inl e ↦ absurd (failed_or_sleeps true _ (rw e at h))
      | inr e ↦ round_of-ok (read n) (rw e at h)
    ]

    -- A wait that returned met a job that had succeeded.
    pub job_wait-ok :
        (fuel n : ℕ)
        → job_wait show job_name read time start_time timeout fuel n ≡ some (ok tt)
        → (k : ℕ) × HasSucceeded (read k)
    unfolding job_wait
    job_wait-ok zero n h = cc
    job_wait-ok (suc fuel) n h =
        elim (Round-cases (round show job_name read time start_time timeout n)) [
          | inl (r, e) ↦ (
            n,
            round-ok n (
                e
                ∙ ap ends (
                    some-injective (
                      sym (job_wait-round show job_name read time start_time timeout fuel n r e)
                      ∙ h))),
          )
          | inr e ↦
              job_wait-ok fuel (suc n)
                (sym (job_wait-sleeps show job_name read time start_time timeout fuel n e) ∙ h)
        ]

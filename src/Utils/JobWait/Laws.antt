-- ===== src/Utils/JobWait/Laws.antt =====
-- When the wait for a job ends, and with what.
use automated_actions.Prelude.{
  ℕ, zero, suc, ◌+◌, ◌-◌, ◌≤◌, ◌<◌, ◌≡◌, refl, sym, Bool-cases, le_cases, String, false, Option,
  some, ltb, arith, ◌⊎◌, inl, inr, ◌∙◌, ap,
}
use automated_actions.Errors.{Exc}
use automated_actions.Exec.{Result}
use automated_actions.Utils.JobWait.{Job, Round, ends, sleeps, round, job_wait}

pub Round-cases : (r : Round) → ((x : Result Exc (Unit {0})) × (r ≡ ends x)) ⊎ (r ≡ sleeps)
Round-cases (ends x) = inl (x, refl)
Round-cases sleeps = inr refl

pub ends-ne-sleeps : {x : Result Exc (Unit {0})} → ends x ≡ sleeps → ⊥
ends-ne-sleeps h = cc

module _ (show : Option ℕ → String) (job_name : String) (read : ℕ → Result Exc Job) (time : ℕ → ℕ)
    (start_time timeout : ℕ) where
  -- The waiting ended in a later round with a result; all rounds before it slept.
  pub record EndsAt (n : ℕ) (result : Result Exc (Unit {0})) : Type 0 where
    pub last : ℕ
    pub later : n ≤ last
    pub slept :
        (k : ℕ) → n ≤ k → k < last → round show job_name read time start_time timeout k ≡ sleeps
    pub ended : round show job_name read time start_time timeout last ≡ ends result

  in_limit : (n : ℕ) → ltb timeout (time n - start_time) ≡ false → time n ≤ start_time + timeout
  in_limit n e = ground arith

  pub job_wait-round :
      (fuel n : ℕ) (r : Result Exc (Unit {0}))
      → round show job_name read time start_time timeout n ≡ ends r
      → job_wait show job_name read time start_time timeout (suc fuel) n ≡ some r
  unfolding job_wait
  job_wait-round fuel n r e = rw (job_wait, e)

  pub job_wait-sleeps :
      (fuel n : ℕ)
      → round show job_name read time start_time timeout n ≡ sleeps
      → job_wait show job_name read time start_time timeout (suc fuel) n
        ≡ job_wait show job_name read time start_time timeout fuel (suc n)
  unfolding job_wait
  job_wait-sleeps fuel n e = rw (job_wait, e)

  in_time :
      (n : ℕ)
      → round show job_name read time start_time timeout n ≡ sleeps
      → time n ≤ start_time + timeout
  unfolding round
  in_time n h = elim (Bool-cases (ltb timeout (time n - start_time))) [
    | inl e ↦ absurd (ends-ne-sleeps (rw e at h))
    | inr e ↦ in_limit n e
  ]

  at_once :
      (n : ℕ) (r : Result Exc (Unit {0}))
      → round show job_name read time start_time timeout n ≡ ends r
      → EndsAt n r
  at_once n r e = record {
    last = n;
    later = ground arith;
    slept = λ k h h'. absurd (ground arith);
    ended = e;
  }

  a_round_later :
      (n : ℕ) (r : Result Exc (Unit {0}))
      → round show job_name read time start_time timeout n ≡ sleeps
      → EndsAt (suc n) r
      → EndsAt n r
  a_round_later n r e rest = record {
    last = rest.last;
    later = let h = rest.later in omega arith;
    slept = λ k h h'. elim (le_cases h) [
      | inl same ↦ ap (round show job_name read time start_time timeout) (sym same) ∙ e
      | inr after ↦ rest.slept k after h'
    ];
    ended = rest.ended;
  }

  -- If each round starts later than the one before, fuel for the ticks that are left to the time
  -- limit is enough: the wait returns the result of the first round that does not sleep.
  pub job_wait-EndsAt :
      (fuel n : ℕ)
      → ((k : ℕ) → time k < time (suc k))
      → start_time + timeout < time n + fuel
      → (result : Result Exc (Unit {0})) × (job_wait show job_name read time start_time timeout
            (suc fuel)
            n
          ≡ some result)
        × EndsAt n result
  job_wait-EndsAt zero n grows h =
      elim (Round-cases (round show job_name read time start_time timeout n)) [
        | inl (r, e) ↦ (r, job_wait-round zero n r e, at_once n r e)
        | inr e ↦ absurd (let k = in_time n e in omega arith)
      ]
  job_wait-EndsAt (suc fuel) n grows h =
      elim (Round-cases (round show job_name read time start_time timeout n)) [
        | inl (r, e) ↦ (r, job_wait-round (suc fuel) n r e, at_once n r e)
        | inr e ↦
            let rest = job_wait-EndsAt fuel (suc n) grows (let later = grows n in omega arith) in
            (rest.0, job_wait-sleeps (suc fuel) n e ∙ rest.1, a_round_later n rest.0 e rest.2)
      ]

-- ===== src/Worker/Rds/Polling.antt =====
-- A task that polls until its instance is ready, and the status of its action.
use mathlib.Core.Path.{subst}
use automated_actions.Prelude.{
  le_cases, ℕ, suc, ◌≤◌, ◌<◌, String, ◌≡◌, refl, sym, ◌∙◌, ap, some, arith, inl, inr,
}
use automated_actions.Dict.{Dict}
use automated_actions.Errors.{Exc}
use automated_actions.Db.Schema.{Action, ActionStatus, success, Arg}
use automated_actions.Db.World.{Database, World}
use automated_actions.Db.Actions
use automated_actions.Worker.Task.{Exit, returned, asked_retry, done, failed, again, outcome}
use automated_actions.Worker.Delivery.{Celery, deliver}
use automated_actions.Worker.Delivery.Laws.{
  Ends, succeeds, fails, is_spent, is_retried, StaysStored, IsFinal, deliver-Finishes,
}

done-ne-failed : {e : Exc} → done ≡ failed e → ⊥
done-ne-failed h = cc

done-ne-again : {e : Exc} → done ≡ again e → ⊥
done-ne-again h = cc

again-ne-failed : {e f : Exc} → again e ≡ failed f → ⊥
again-ne-failed h = cc

-- The attempts from a number of retries on ask to be retried up to one that returns.
pub record Polls (exceeded : Exc) (exits : ℕ → Exit) (n k : ℕ) : Type 0 where
  pub waits : (i : ℕ) → n ≤ i → i < k → outcome (exits i) ≡ outcome (asked_retry exceeded)
  pub ready : outcome (exits k) ≡ outcome returned

module _ (exceeded : Exc) (max : ℕ) (exits : ℕ → Exit) (k : ℕ) where
  Ends-ready :
      (n : ℕ) (s : ActionStatus) (result : String)
      → Ends max exits n s result
      → k ≤ max
      → n ≤ k
      → Polls exceeded exits n k
      → (s ≡ success) × (result ≡ "ok")
  unfolding outcome
  Ends-ready n s result (succeeds e) h before p = (refl, refl)
  Ends-ready n s result (fails e o) h before p = elim (le_cases before) [
    | inl same ↦
        absurd (done-ne-failed (sym p.ready ∙ (ap (λ i. outcome (exits i)) (sym same) ∙ o)))
    | inr after ↦ absurd (again-ne-failed (sym (p.waits n (omega arith) after) ∙ o))
  ]
  Ends-ready n s result (is_spent e o spent) h before p = elim (le_cases before) [
    | inl same ↦ absurd (done-ne-again (sym p.ready ∙ (ap (λ i. outcome (exits i)) (sym same) ∙ o)))
    | inr after ↦ absurd (omega arith)
  ]
  Ends-ready n s result (is_retried e o more rest) h before p = elim (le_cases before) [
    | inl same ↦ absurd (done-ne-again (sym p.ready ∙ (ap (λ i. outcome (exits i)) (sym same) ∙ o)))
    | inr after ↦
        Ends-ready (suc n) s result rest h after
          (record { waits = λ i l. p.waits i (omega arith); ready = p.ready })
  ]

module _ (exceeded : Exc) (D : Database) (celery : Celery) (max : ℕ) (exits : ℕ → Exit)
    (between : ℕ → World D → World D) (action : Action) (kwargs : Dict Arg) where
  -- A task that asks to be retried in each attempt before one that returns, with no more attempts
  -- than its retries allow, ends with the status SUCCESS and the result "ok", whatever happens to
  -- the tables between the attempts, as long as the action stays stored.
  pub deliver_polled :
      (fuel k : ℕ) (w : World D) (b : Action)
      → StaysStored D celery max exits between action kwargs
      → Actions.stored D w action.action_id ≡ some b
      → max < fuel
      → k ≤ max
      → Polls exceeded exits 0 k
      → (w' : World D) × (deliver D celery max exits between action kwargs fuel 0 w ≡ some w')
        × IsFinal D celery max exits between action kwargs w' success "ok"
  deliver_polled fuel k w b stays found enough h polls =
      let run =
        deliver-Finishes D celery max exits between action kwargs fuel 0 w b stays found
          (omega arith) in
      let ready = Ends-ready exceeded max exits k 0 run.0 run.1 run.4 h (omega arith) polls in
      (
        run.2,
        run.3,
        subst (λ r. IsFinal D celery max exits between action kwargs run.2 success r) ready.1
            (subst (λ s. IsFinal D celery max exits between action kwargs run.2 s run.1) ready.0
              run.5),
      )

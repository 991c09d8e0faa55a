-- ===== src/Worker/Delivery/Laws.antt =====
-- How a delivered task ends, and what its action holds then.
use automated_actions.Prelude.{
  ℕ, zero, suc, ◌-◌, ◌≤◌, ◌<◌, ◌≡◌, refl, ◌∙◌, String, some, arith, eq_refl, ltb, ltb_iff,
  Bool-cases, inl, inr, ◌⊎◌,
}
use automated_actions.Dict.{Dict}
use automated_actions.Errors.{Exc, message}
use automated_actions.Exec.{Result}
use automated_actions.Db.Schema.{Action, ActionStatus, running, success, failure, Arg}
use automated_actions.Db.World.{Database, World}
use automated_actions.Db.Actions
use automated_actions.Db.Actions.Laws.{Writes}
use automated_actions.Worker.Task.{
  Exit, Outcome, done, failed, again, outcome, on_success, on_failure, on_retry,
  task_kwargs_to_store,
}
use automated_actions.Worker.Task.Laws.{
  ended, before_start-Writes, on_success-Writes, on_failure-Writes,
}
use automated_actions.Worker.Delivery.{
  success_hook, retry_hook, failure_hook, Celery, started, deliver,
}

-- How the attempts from a number of retries on end: the status and the result.
pub data Ends (max : ℕ) (exits : ℕ → Exit) : ℕ → ActionStatus → String → Type 0 where
  succeeds : {n : ℕ} → outcome (exits n) ≡ done → Ends max exits n success "ok"
  fails : {n : ℕ} (e : Exc) → outcome (exits n) ≡ failed e → Ends max exits n failure (message e)
  is_spent :
      {n : ℕ} (e : Exc)
      → outcome (exits n) ≡ again e
      → max ≤ n
      → Ends max exits n failure (message e)
  is_retried :
      {n : ℕ} {s : ActionStatus} {result : String} (e : Exc)
      → outcome (exits n) ≡ again e
      → n < max
      → Ends max exits (suc n) s result
      → Ends max exits n s result

Outcome-cases :
    (o : Outcome) → (o ≡ done) ⊎ (((e : Exc) × (o ≡ failed e)) ⊎ ((e : Exc) × (o ≡ again e)))
Outcome-cases done = inl refl
Outcome-cases (failed e) = inr (inl (e, refl))
Outcome-cases (again e) = inr (inr (e, refl))

module _ (D : Database) (celery : Celery) (max : ℕ) (exits : ℕ → Exit)
    (between : ℕ → World D → World D) (action : Action) (kwargs : Dict Arg) where
  -- What is known of the world before and during each attempt, and at the end; while an attempt
  -- runs, the action is in the table.
  pub record IsKept (Before During : ℕ → World D → Type 0) (After : World D → Type 0) : Type 0 where
    pub stored :
        (n : ℕ) (w : World D)
        → During n w
        → (b : Action) × (Actions.stored D w action.action_id ≡ some b)
    pub runs :
        (n : ℕ) (w : World D)
        → Before n w
        → During n (started D celery max exits between action kwargs n w)
    pub retries : (n : ℕ) (w : World D) → During n w → Before (suc n) w
    pub succeeds : (n : ℕ) (w : World D) → During n w → After (on_success D action kwargs w).1
    pub fails :
        (n : ℕ) (e : Exc) (w : World D) → During n w → After (on_failure D e action kwargs w).1

  -- The final row has the status, the result and the arguments of the task.
  pub record IsFinal (w : World D) (s : ActionStatus) (result : String) : Type 0 where
    pub row : Action
    pub stored : Actions.stored D w action.action_id ≡ some row
    pub status : row.status ≡ s
    pub text : row.result ≡ some result
    pub args : row.task_args ≡ some (task_kwargs_to_store kwargs)

  is_final :
      (w w' : World D) (b : Action) (s : ActionStatus) (result : String)
      (run : Result Exc Action × World D)
      → b.action_id ≡ action.action_id
      → Writes D w' (ended w'.clock b s result kwargs) run
      → IsFinal run.1 s result
  is_final w w' b s result run key writes = record {
    row = ended w'.clock b s result kwargs;
    stored = writes.row action.action_id ∙ rw key (simp eq_refl);
    status = refl;
    text = refl;
    args = refl;
  }

  -- What is shown of the attempts from a number of retries on.
  abbrev pub Finishes : ℕ → ℕ → World D → Type 0
  Finishes fuel n w =
      (s : ActionStatus) × (result : String) × (w' : World D) × (deliver D celery max exits between
          action kwargs fuel n w
        ≡ some w')
      × Ends max exits n s result
      × IsFinal w' s result

  module _ {Before During : ℕ → World D → Type 0} {After : World D → Type 0}
      (keeps : IsKept Before During After) where
    -- The same, and what is known at the end.
    abbrev pub FinishesKept : ℕ → ℕ → World D → Type 0
    FinishesKept fuel n w =
        (s : ActionStatus) × (result : String) × (w' : World D) × (deliver D celery max exits
            between action kwargs fuel n w
          ≡ some w')
        × Ends max exits n s result
        × IsFinal w' s result
        × After w'

    finishes-done :
        (fuel n : ℕ) (w : World D)
        → During n (started D celery max exits between action kwargs n w)
        → outcome (exits n) ≡ done
        → FinishesKept (suc fuel) n w
    unfolding deliver
    finishes-done fuel n w kept o =
        let v = started D celery max exits between action kwargs n w in
        let (b, found) = keeps.stored n v kept in
        let key = D.action_table.hash_key-get v.actions action.action_id b found in
        let hook : celery.hook max n (outcome (exits n)) ≡ success_hook =
          rw o (celery.hook-done max n) in
        (
          success,
          "ok",
          (on_success D action kwargs v).1,
          rw (hook, deliver),
          succeeds o,
          is_final w v b success "ok" _ key (on_success-Writes D v action b found kwargs),
          keeps.succeeds n v kept,
        )

    finishes-failed :
        (fuel n : ℕ) (w : World D) (e : Exc)
        → During n (started D celery max exits between action kwargs n w)
        → celery.hook max n (outcome (exits n)) ≡ failure_hook e
        → Ends max exits n failure (message e)
        → FinishesKept (suc fuel) n w
    unfolding deliver
    finishes-failed fuel n w e kept hook ends =
        let v = started D celery max exits between action kwargs n w in
        let (b, found) = keeps.stored n v kept in
        let key = D.action_table.hash_key-get v.actions action.action_id b found in
        (
          failure,
          message e,
          (on_failure D e action kwargs v).1,
          rw (hook, deliver),
          ends,
          is_final w v b failure (message e) _ key (on_failure-Writes D v action b found e kwargs),
          keeps.fails n e v kept,
        )

    finishes-again :
        (fuel n : ℕ) (w : World D) (e : Exc)
        → outcome (exits n) ≡ again e
        → n < max
        → FinishesKept fuel (suc n) (started D celery max exits between action kwargs n w)
        → FinishesKept (suc fuel) n w
    unfolding deliver on_retry
    finishes-again fuel n w e o left (s, result, w', run, ends, final, kept) =
        let hook : celery.hook max n (outcome (exits n)) ≡ retry_hook =
          rw o (celery.hook-again max n e left) in
        (s, result, w', rw (hook, deliver, on_retry) run, is_retried e o left ends, final, kept)

    -- The attempts end.
    pub deliver-Kept :
        (fuel n : ℕ) (w : World D) → Before n w → max - n < fuel → FinishesKept fuel n w
    deliver-Kept zero n w k enough = elim enough [ ]
    deliver-Kept (suc fuel) n w k enough =
        let v = started D celery max exits between action kwargs n w in
        let kept = keeps.runs n w k in
        elim (Outcome-cases (outcome (exits n))) [
          | inl o ↦ finishes-done fuel n w kept o
          | inr (inl (e, o)) ↦
              finishes-failed fuel n w e kept (rw o (celery.hook-failed max n e)) (fails e o)
          | inr (inr (e, o)) ↦ elim (Bool-cases (ltb n max)) [
            | inl left ↦
                let below = (ltb_iff n max).0 left in
                finishes-again fuel n w e o below
                  (deliver-Kept fuel (suc n) v (keeps.retries n v kept) (omega arith))
            | inr spent ↦
                let none_left : max ≤ n = ground arith in
                finishes-failed fuel n w e kept (rw o (celery.hook-spent max n e none_left))
                  (is_spent e o none_left)
          ]
        ]

  -- Whatever happens between the attempts, the action stays in the table.
  abbrev pub StaysStored : Type 0
  StaysStored =
      (n : ℕ) (w : World D) (b : Action)
      → Actions.stored D w action.action_id ≡ some b
      → (c : Action) × (Actions.stored D (between n w) action.action_id ≡ some c)

  -- A row that was written is there.
  stored_written :
      (w : World D) (b c : Action) (run : Result Exc Action × World D)
      → Actions.stored D w action.action_id ≡ some b
      → c.action_id ≡ b.action_id
      → Writes D w c run
      → Actions.stored D run.1 action.action_id ≡ some c
  stored_written w b c run found same writes =
      let key = same ∙ D.action_table.hash_key-get w.actions action.action_id b found in
      writes.row action.action_id ∙ rw key (simp eq_refl)

  abbrev HasRow : World D → Type 0
  HasRow w = (b : Action) × (Actions.stored D w action.action_id ≡ some b)

  StaysStored-IsKept : StaysStored → IsKept (λ _. HasRow) (λ _. HasRow) HasRow
  unfolding started
  StaysStored-IsKept stays = record {
    stored = λ n w k. k;
    runs = λ n w (b, found).
        let (c, there) = stays n w b found in
        (
          _,
          stored_written (between n w) c
              (record c { status = running; updated_at = (between n w).clock }) _ there refl
              (before_start-Writes D (between n w) action c there),
        );
    retries = λ n w k. k;
    succeeds = λ n w (c, there). (
      _,
      stored_written w c (ended w.clock c success "ok" kwargs) _ there refl
          (on_success-Writes D w action c there kwargs),
    );
    fails = λ n e w (c, there). (
      _,
      stored_written w c (ended w.clock c failure (message e) kwargs) _ there refl
          (on_failure-Writes D w action c there e kwargs),
    );
  }

  -- A task ends after at most `max` retries, whatever its body does and whatever happens to the
  -- tables between the attempts, as long as the action stays stored: its row then has the status
  -- SUCCESS and the result "ok" if the last attempt returned, and FAILURE and the text of the
  -- exception if it failed or no retries were left.
  pub deliver-Finishes :
      (fuel n : ℕ) (w : World D) (b : Action)
      → StaysStored
      → Actions.stored D w action.action_id ≡ some b
      → max - n < fuel
      → Finishes fuel n w
  deliver-Finishes fuel n w b stays found enough =
      let (s, result, w', run, ends, final, kept) =
        deliver-Kept (StaysStored-IsKept stays) fuel n w (b, found) enough in
      (s, result, w', run, ends, final)

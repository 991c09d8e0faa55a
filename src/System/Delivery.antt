-- ===== src/System/Delivery.antt =====
-- A task that a worker has taken, among the requests and the other tasks: what happens between its
-- attempts is steps of the system, and so are its hooks.
use automated_actions.Prelude.{ℕ, zero, suc, ◌<◌, ◌≡◌, refl, sym, ap, ◌∙◌, String, some, arith}
use automated_actions.Db.Schema.{Action, ActionStatus}
use automated_actions.Db.World.{Database, World, Message}
use automated_actions.Db.Actions
use automated_actions.Api.{Server}
use automated_actions.Worker.Task.{Exit, before_start, on_success, on_failure}
use automated_actions.Worker.Delivery.{Celery, started, deliver}
use automated_actions.Worker.Delivery.Laws.{Ends, IsFinal, IsKept, deliver-Kept}
use automated_actions.System.{
  State, Among, there, Hooked, starts, succeeds, fails, Step, posts, reads, cancels, takes, works,
  waits, Steps, no_steps, one_step,
}
use automated_actions.System.Effects.{IsHeld}
use automated_actions.System.Invariant.{IsInvariant, Every-at, Steps-kept}

module _ (D : Database) (server : Server D) where
  Steps-trans : {s t u : State D} → Steps D server s t → Steps D server t u → Steps D server s u
  Steps-trans no_steps more = more
  Steps-trans (one_step step steps) more = one_step step (Steps-trans steps more)

  -- A message that is at hand stays at hand.
  Among-Step :
      {m : Message} {s t : State D} → Step D server s t → Among m s.in_flight → Among m t.in_flight
  Among-Step (posts p request) a = a
  Among-Step (reads r) a = a
  Among-Step (cancels action_id request) a = a
  Among-Step (takes m front rest e) a = there a
  Among-Step (works b hook) a = a
  Among-Step (waits later order) a = a

  Among-Steps :
      {m : Message} {s t : State D} → Steps D server s t → Among m s.in_flight → Among m t.in_flight
  Among-Steps no_steps a = a
  Among-Steps (one_step step steps) a = Among-Steps steps (Among-Step step a)

  -- A world that the system gets to, with the message still at hand.
  pub record IsReached (m : Message) (s : State D) (w : World D) : Type 0 where
    pub state : State D
    pub steps : Steps D server s state
    pub world : state.world ≡ w
    pub invariant : IsInvariant D state
    pub at_hand : Among m state.in_flight

  module _ (m : Message) (s : State D) where
    -- The state in which the body of an attempt runs, from the one in which the attempt starts.
    abbrev pub begun : State D → State D
    begun t = record t { world = (before_start D m.action t.world).1 }

    -- The states in which the attempts start. Between a state in which the message is at hand and the
    -- first attempt, and between an attempt and the next, there are steps of the system, the hooks of
    -- any message among them, and they do what `between` does.
    pub record IsSchedule (between : ℕ → World D → World D) (starts_in : ℕ → State D) : Type 0 where
      pub first : Steps D server s (starts_in 0)
      pub first_world : (starts_in 0).world ≡ between 0 s.world
      pub next : (n : ℕ) → Steps D server (begun (starts_in n)) (starts_in (suc n))
      pub next_world :
          (n : ℕ) → (starts_in (suc n)).world ≡ between (suc n) (begun (starts_in n)).world

    -- A state that the system gets to, with the message still at hand.
    record IsAt (t : State D) : Type 0 where
      steps : Steps D server s t
      invariant : IsInvariant D t
      at_hand : Among m t.in_flight

    module _ (distinct : (i j : ℕ) → D.uuid4 i ≡ D.uuid4 j → i ≡ j) where
      IsAt-Steps : {t u : State D} → IsAt t → Steps D server t u → IsAt u
      IsAt-Steps r steps = record {
        steps = Steps-trans r.steps steps;
        invariant = (Steps-kept D server distinct steps r.invariant).0;
        at_hand = Among-Steps steps r.at_hand;
      }

      -- A hook of the message is a step.
      IsAt-hook :
          {hook : World D → World D} (t : State D)
          → Hooked D m hook
          → IsAt t
          → IsAt (record t { world = hook t.world })
      IsAt-hook t hooked r = IsAt-Steps r (one_step (works r.at_hand hooked) no_steps)

      IsReached-IsAt : (t : State D) (w : World D) → w ≡ t.world → IsAt t → IsReached m s w
      IsReached-IsAt t w e r = record {
        state = t;
        steps = r.steps;
        world = sym e;
        invariant = r.invariant;
        at_hand = r.at_hand;
      }

      module _ (celery : Celery) (max : ℕ) (exits : ℕ → Exit) (between : ℕ → World D → World D)
          (starts_in : ℕ → State D) (schedule : IsSchedule between starts_in)
          (at_first : IsAt s) where
        begun-IsAt : (n : ℕ) → IsAt (begun (starts_in n))
        begun-IsAt zero = IsAt-hook (starts_in 0) starts (IsAt-Steps at_first schedule.first)
        begun-IsAt (suc n) =
            IsAt-hook (starts_in (suc n)) starts (IsAt-Steps (begun-IsAt n) (schedule.next n))

        -- The worlds of the schedule, during an attempt and before it.
        abbrev Runs : ℕ → World D → Type 0
        Runs n w = w ≡ (begun (starts_in n)).world

        abbrev Waits : ℕ → World D → Type 0
        Waits zero w = w ≡ s.world
        Waits (suc n) w = Runs n w

        scheduled :
            (n : ℕ) (w : World D)
            → Waits n w
            → Runs n (started D celery max exits between m.action m.kwargs n w)
        unfolding started
        scheduled zero w e =
            ap (λ v. (before_start D m.action v).1) (ap (between 0) e ∙ sym schedule.first_world)
        scheduled (suc n) w e =
            ap (λ v. (before_start D m.action v).1)
              (ap (between (suc n)) e ∙ sym (schedule.next_world n))

        row_of :
            (n : ℕ) (w : World D)
            → Runs n w
            → (b : Action) × (Actions.stored D w m.action.action_id ≡ some b)
        row_of n w e =
            let at = begun-IsAt n in
            let held : IsHeld D (begun (starts_in n)).world.actions m =
              Every-at _ at.at_hand at.invariant.held in
            (held.row, rw e held.stored)

        schedule-IsKept :
            IsKept D celery max exits between m.action m.kwargs Waits Runs (IsReached m s)
        schedule-IsKept = record {
          stored = row_of;
          runs = scheduled;
          retries = λ n w e. e;
          succeeds = λ n w e.
              IsReached-IsAt _ _ (ap (λ v. (on_success D m.action m.kwargs v).1) e)
                (IsAt-hook _ succeeds (begun-IsAt n));
          fails = λ n x w e.
              IsReached-IsAt _ _ (ap (λ v. (on_failure D x m.action m.kwargs v).1) e)
                (IsAt-hook _ (fails x) (begun-IsAt n));
        }

      -- Where no identifier is drawn twice, from a consistent state in which a worker has the
      -- message of a task at hand, and whatever requests and hooks run before its first attempt and
      -- between its attempts, those of any messages among them: the task ends after at most `max`
      -- retries, with the status SUCCESS and the result "ok" if its last attempt returned, and with
      -- FAILURE and the text of the exception if that failed or no retries were left; if it had
      -- asked for another one, that is the exception that Celery raises then. The row of its action
      -- then holds that status and result, and the state is one that the steps of the system lead to.
      pub deliver-IsReached :
          (celery : Celery) (max : ℕ) (exits : ℕ → Exit) (between : ℕ → World D → World D)
          (starts_in : ℕ → State D) (fuel : ℕ)
          → IsSchedule between starts_in
          → IsInvariant D s
          → Among m s.in_flight
          → max < fuel
          → (status : ActionStatus) × (result : String) × (w' : World D) × (deliver D celery max
                exits between m.action m.kwargs fuel 0 s.world
              ≡ some w')
            × Ends max exits 0 status result
            × IsFinal D celery max exits between m.action m.kwargs w' status result
            × IsReached m s w'
      deliver-IsReached celery max exits between starts_in fuel schedule h a enough =
          deliver-Kept D celery max exits between m.action m.kwargs
            (schedule-IsKept celery max exits between starts_in schedule
              (record { steps = no_steps; invariant = h; at_hand = a }))
            fuel 0 s.world refl (omega arith)

-- ===== src/System/Hooks.antt =====
-- What the hooks of a task do to the state.
use automated_actions.Prelude.{ℕ, String, refl, arith}
use automated_actions.Dict.{Dict}
use automated_actions.Errors.{message}
use automated_actions.Db.Schema.{Action, cancelled, running, success, failure, Arg}
use automated_actions.Db.World.{Database, World, Message}
use automated_actions.Db.Actions
use automated_actions.Auth.Untouched.{work}
use automated_actions.Worker.Task.{before_start, on_success, on_failure, on_retry}
use automated_actions.Worker.Task.Laws.{
  ended, before_start-Writes, on_success-Writes, on_failure-Writes,
}
use automated_actions.System.Effects.{IsSound, IsHeld, IsConsistent, Keeping, unchanged}
use automated_actions.System.Runs.{written}
use automated_actions.System.{Hooked, starts, succeeds, fails, retries}

module _ (D : Database) where
  -- A status that is neither pending nor final can be written to any row.
  running-IsSound :
      (now : ℕ) (b : Action)
      → IsSound now b
      → IsSound now (record b { status = running; updated_at = now })
  running-IsSound now b h = record {
    final = λ e. cc;
    fresh = λ e. cc;
    created = let c = h.created in let u = h.updated in omega arith;
    updated = omega arith;
  }

  pub cancelled-IsSound :
      (now : ℕ) (b : Action)
      → IsSound now b
      → IsSound now (record b { status = cancelled; updated_at = now })
  cancelled-IsSound now b h = record {
    final = λ e. cc;
    fresh = λ e. cc;
    created = let c = h.created in let u = h.updated in omega arith;
    updated = omega arith;
  }

  success-IsSound :
      (now : ℕ) (b : Action) (result : String) (kwargs : Dict Arg)
      → IsSound now b
      → IsSound now (ended now b success result kwargs)
  success-IsSound now b result kwargs h = record {
    final = λ e. refl;
    fresh = λ e. cc;
    created = let c = h.created in let u = h.updated in omega arith;
    updated = omega arith;
  }

  failure-IsSound :
      (now : ℕ) (b : Action) (result : String) (kwargs : Dict Arg)
      → IsSound now b
      → IsSound now (ended now b failure result kwargs)
  failure-IsSound now b result kwargs h = record {
    final = λ e. refl;
    fresh = λ e. cc;
    created = let c = h.created in let u = h.updated in omega arith;
    updated = omega arith;
  }

  -- A hook for a message of a stored action.
  pub hooked :
      (m : Message) (hook : World D → World D) (w : World D)
      → Hooked D m hook
      → IsHeld D w.actions m
      → IsConsistent D (work D w)
      → Keeping D (work D w) (work D (hook w))
  unfolding before_start on_success on_failure on_retry Actions.set_status Actions.set_final_state
  hooked m _ w starts held c =
      let b = held.row in
      written D w m.action b (record b { status = running; updated_at = w.clock })
        (before_start D m.action w) held.stored
        (record { id = refl; owner = refl; name = refl; created = refl })
        (running-IsSound w.clock b) (before_start-Writes D w m.action b held.stored) refl c
  hooked m _ w succeeds held c =
      let b = held.row in
      written D w m.action b (ended w.clock b success "ok" m.kwargs)
        (on_success D m.action m.kwargs w) held.stored
        (record { id = refl; owner = refl; name = refl; created = refl })
        (success-IsSound w.clock b "ok" m.kwargs)
        (on_success-Writes D w m.action b held.stored m.kwargs) refl c
  hooked m _ w (fails e) held c =
      let b = held.row in
      written D w m.action b (ended w.clock b failure (message e) m.kwargs)
        (on_failure D e m.action m.kwargs w) held.stored
        (record { id = refl; owner = refl; name = refl; created = refl })
        (failure-IsSound w.clock b (message e) m.kwargs)
        (on_failure-Writes D w m.action b held.stored e m.kwargs) refl c
  hooked m _ w retries held c = unchanged D (work D w) (work D w) refl c

-- ===== src/System/Lifecycle/Refines.antt =====
-- Each step of the system is a change of the lives of the actions.
use automated_actions.Prelude.{ℕ, String, ◌≡◌, refl, sym, ap, inl, inr, some}
use automated_actions.Dict.{Dict}
use automated_actions.Errors.{Exc, message}
use automated_actions.Exec.{Exec, Result, lift, ◌>>=◌, Result-cases}
use automated_actions.Exec.Keeps.{Preserves}
use automated_actions.Db.Schema.{
  Action, ActionSchemaOut, cancelled, running, success, failure, Arg, TaskName,
}
use automated_actions.Db.World.{Database, World, Message}
use automated_actions.Db.Actions
use automated_actions.Db.Actions.Laws.{create_action-Writes, set_status-Writes}
use automated_actions.Auth.Untouched.{work}
use automated_actions.Auth.Request.{Request}
use automated_actions.Api.{Server, submit, authorized_user, post_action}
use automated_actions.Api.Submit.{fresh_action, authorized_user-Preserves, post_action_refused}
use automated_actions.Api.General.{get_authorized_action, action_cancel, post_action_cancel}
use automated_actions.Worker.Task.{before_start, on_success, on_failure, on_retry}
use automated_actions.Worker.Task.Laws.{
  ended, before_start-Writes, on_success-Writes, on_failure-Writes,
}
use automated_actions.System.Effects.{IsHeld, IsConsistent}
use automated_actions.System.Posts.{IsPost-elim, IsRead-work}
use automated_actions.System.Requests.{found_action, found_id, found_stored}
use automated_actions.System.Invariant.{IsInvariant, Every-at}
use automated_actions.System.Lifecycle.{
  Event, submission, quiet, cancellation, progress, Change, unchanged, lives, Change-then,
  Change-from, Change-work, Change-Writes, Change-created,
}
use automated_actions.System.{
  State, IsPost, IsRead, Hooked, starts, succeeds, fails, retries, Step, posts, reads, cancels,
  takes, works, waits,
}

module _ (D : Database) where
  -- What a hook of a message does.
  abbrev pub hook_event : {m : Message} {hook : World D → World D} → Hooked D m hook → Event
  hook_event {m} starts = progress m.action.action_id running
  hook_event {m} succeeds = progress m.action.action_id success
  hook_event {m} (fails e) = progress m.action.action_id failure
  hook_event retries = quiet

  hook-Change :
      (m : Message) (hook : World D → World D) (w : World D) (h : Hooked D m hook)
      → IsHeld D w.actions m
      → Change (hook_event h) (lives D w) (lives D (hook w))
  unfolding on_retry
  hook-Change m _ w starts held =
      let b = held.row in
      Change-Writes D (progress m.action.action_id running) w m.action b
        (record b { status = running; updated_at = w.clock }) (before_start D m.action w) refl
        held.stored (record { id = refl; owner = refl; name = refl; created = refl })
        (before_start-Writes D w m.action b held.stored)
  hook-Change m _ w succeeds held =
      let b = held.row in
      Change-Writes D (progress m.action.action_id success) w m.action b
        (ended w.clock b success "ok" m.kwargs) (on_success D m.action m.kwargs w) refl held.stored
        (record { id = refl; owner = refl; name = refl; created = refl })
        (on_success-Writes D w m.action b held.stored m.kwargs)
  hook-Change m _ w (fails e) held =
      let b = held.row in
      Change-Writes D (progress m.action.action_id failure) w m.action b
        (ended w.clock b failure (message e) m.kwargs) (on_failure D e m.action m.kwargs w) refl
        held.stored (record { id = refl; owner = refl; name = refl; created = refl })
        (on_failure-Writes D w m.action b held.stored e m.kwargs)
  hook-Change m _ w retries held = unchanged refl (λ k. refl)

  -- What a step is.
  abbrev pub event_of : (server : Server D) {s t : State D} → Step D server s t → Event
  event_of server (posts p request) = submission
  event_of server (reads r) = quiet
  event_of server (cancels action_id request) = cancellation action_id
  event_of server (takes m front rest e) = quiet
  event_of server (works a hook) = hook_event hook
  event_of server (waits later order) = quiet

  run-Change :
      {A : Type 0} (m : Exec (World D) Exc A) (w : World D)
      → Preserves (work D) m
      → Change quiet (lives D w) (lives D (m w).1)
  run-Change m w p = Change-work D quiet w (m w).1 refl (p.at w)

  module _ (server : Server D) where
    cancel-Change :
        (action_id : String) (request : Request) (w : World D)
        → Change
            (cancellation action_id)
            (lives D w)
            (lives D (post_action_cancel D server action_id request w).1)
    unfolding post_action_cancel action_cancel
    cancel-Change action_id request w =
        let find = get_authorized_action D server action_id request in
        let v = (find w).1 in
        let same = (found_action D server action_id request).at w in
        elim (Result-cases (find w).0) [
          | inr (e, refused) ↦ rw refused (Change-work D (cancellation action_id) w v refl same)
          | inl (action, got) ↦
              let there = found_stored D server action_id request w action got in
              let writes = set_status-Writes D v action action cancelled there in
              let id = found_id D server action_id request w action got in
              rw (got, writes.returns)
                (Change-from D (cancellation action_id) w v
                  (Actions.set_status D action cancelled v).1 same
                  (Change-Writes D (cancellation action_id) v action action
                    (record action { status = cancelled; updated_at = v.clock })
                    (Actions.set_status D action cancelled v)
                    (ap (λ k. some (k, cancelled)) (sym id)) there
                    (record { id = refl; owner = refl; name = refl; created = refl }) writes))
        ]

    read-Change :
        {read : World D → World D} (w : World D)
        → IsRead D server read
        → Change quiet (lives D w) (lives D (read w))
    read-Change {read} w r = Change-work D quiet w (read w) refl (IsRead-work D server w r)

    module _ (distinct : (i j : ℕ) → D.uuid4 i ≡ D.uuid4 j → i ≡ j) where
      module _ {Args : Type 0} (name : String) (read_args : Request → Result Exc Args)
          (endpoint : Args → Action → Exec (World D) Exc ActionSchemaOut)
          (submits : (args : Args) (action : Action)
            → (task : TaskName) × (kwargs : Dict Arg) × (endpoint args action
                ≡ submit D task kwargs action))
          (request : Request) where
        -- What follows the creation leaves the tables.
        answer : Action → Exec (World D) Exc ActionSchemaOut
        answer action = do args ← lift (read_args request); endpoint args action

        answer-actions : (action : Action) (v : World D) → (answer action v).1.actions ≡ v.actions
        unfolding answer submit
        answer-actions action v = elim (Result-cases (read_args request)) [
          | inr (e, invalid) ↦ rw invalid refl
          | inl (args, valid) ↦ let (task, kwargs, e) = submits args action in rw valid (rw e refl)
        ]

        post-Change :
            (w : World D)
            → IsConsistent D (work D w)
            → Change submission
                (lives D w)
                (lives D (post_action D server name read_args endpoint request w).1)
        unfolding post_action answer Actions.create_action
        post-Change w h =
            let ask = authorized_user D server request in
            let v = (ask w).1 in
            let same = (authorized_user-Preserves D server request).at w in
            elim (Result-cases (ask w).0) [
              | inr (e, refused) ↦
                  Change-work D submission w
                    (post_action D server name read_args endpoint request w).1 refl
                    (post_action_refused D server name read_args endpoint request w e refused).1
              | inl (user, got) ↦
                  let writes = create_action-Writes D v name user.username in
                  let new = fresh_action D v name user in
                  let made = (Actions.create_action D name user.username v).1 in
                  rw got (
                    Change-from D submission w v (answer new made).1 same (
                      Change-then D submission v made (answer new made).1 (answer-actions new made)
                        (Change-created D distinct v new
                          (Actions.create_action D name user.username v) (rw same h) refl refl
                          writes)))
            ]

      posted-Change :
          {post : Request → Exec (World D) Exc ActionSchemaOut}
          → IsPost D server post
          → (request : Request) (w : World D) → IsConsistent D (work D w)
          → Change submission (lives D w) (lives D (post request w).1)
      posted-Change p request w h =
          IsPost-elim D server (λ post. Change submission (lives D w) (lives D (post request w).1))
            (λ Args name read_args endpoint submitted.
              post-Change name read_args endpoint submitted request w h)
            p

      -- Where no identifier is drawn twice, each step from a consistent state does to the actions
      -- no more than what it is: a request for an action may add one, with the status PENDING, under
      -- an identifier that had none; a request for a cancellation may give the status CANCELLED to
      -- the action that it names; a hook gives RUNNING, SUCCESS or FAILURE to the action of its
      -- message, and does so always; anything else changes no owner, name or status. All other
      -- actions are left alone, and the owner and name of every action stay.
      pub Step-Change :
          {s t : State D} (step : Step D server s t)
          → IsInvariant D s
          → Change (event_of server step) (lives D s.world) (lives D t.world)
      Step-Change {s = s} (posts p request) h = posted-Change p request s.world h.consistent
      Step-Change {s = s} (reads r) h = read-Change s.world r
      Step-Change {s = s} (cancels action_id request) h = cancel-Change action_id request s.world
      Step-Change {s = s} (takes m front rest e) h = unchanged refl (λ k. refl)
      Step-Change {s = s} (works a hook) h =
          hook-Change _ _ s.world hook (Every-at s.in_flight a h.held)
      Step-Change {s = s} (waits later order) h = unchanged refl (λ k. refl)

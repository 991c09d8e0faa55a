-- ===== src/System/Requests.antt =====
-- What the requests do to the state.
use automated_actions.Prelude.{ℕ, String, ◌≡◌, refl, sym, ap, ◌∙◌, some, [], ◌∷◌, arith}
use automated_actions.Dict.{Dict}
use automated_actions.Errors.{Exc}
use automated_actions.Exec.{Exec, Result, ok, lift, ◌>>=◌, bind-ok, ok-injective}
use automated_actions.Prelude.{eq_refl}
use automated_actions.Exec.Keeps.{Preserves, preserves_rules}
use automated_actions.Db.Schema.{Action, ActionSchemaOut, cancelled, User, Arg, TaskName}
use automated_actions.Db.World.{Database, World}
use automated_actions.Db.Actions
use automated_actions.Db.Actions.Laws.{create_action-Writes, set_status-Writes}
use automated_actions.Auth.Untouched.{work}
use automated_actions.Auth.Request.{Request}
use automated_actions.Auth.Bearer.Kept.{get_user-Preserves}
use automated_actions.Auth.Opa.Kept.{authorize-Preserves}
use automated_actions.Auth.Opa
use automated_actions.Api.{Server, submit, authorized_user, post_action, get_user}
use automated_actions.Api.Submit.{fresh_action, message_of, authorized_user-Preserves}
use automated_actions.Api.General.{get_authorized_action, action_cancel, post_action_cancel}
use automated_actions.System.Effects.{IsSame-refl, View, IsConsistent, Keeping, unchanged}
use automated_actions.System.Changes.{created, queued}
use automated_actions.Api.General.Laws.{get_or_404-ok, get_user_keeps}
use automated_actions.System.Hooks.{cancelled-IsSound}
use automated_actions.System.Runs.{KeepsRun, preserved, bind-Keeping, written}

module _ (D : Database) (server : Server D) where
  -- Access to one action.
  pub found_action :
      (action_id : String) (request : Request)
      → Preserves (work D) (get_authorized_action D server action_id request)
  unfolding get_authorized_action get_user Actions.get_or_404
  found_action action_id request =
      search (preserves_rules, get_user-Preserves, authorize-Preserves, get_or_404-Preserves)
    where
      get_or_404-Preserves : (k : String) → Preserves (work D) (Actions.get_or_404 D k)
      get_or_404-Preserves k = record { at = λ s. refl }

  -- An action to which access was given is stored under the identifier that was asked for.
  pub found_at :
      (action_id : String) (request : Request) (w : World D) (action : Action)
      → (get_authorized_action D server action_id request w).0 ≡ ok action
      → Actions.stored D (get_authorized_action D server action_id request w).1 action_id
        ≡ some action
  unfolding get_authorized_action
  found_at action_id request w action h =
      let (user, found, h1) = bind-ok (get_user D server request) _ w h in
      let w' = (get_user D server request w).1 in
      let (a, got, h2) = bind-ok (Actions.get_or_404 D action_id) _ w' h1 in
      let w2 = (Actions.get_or_404 D action_id w').1 in
      let (v, passed, h3) =
        bind-ok (Opa.authorize D server.opa request user (("owner", a.owner) ∷ [])) _ w2 h2 in
      let before = (get_user_keeps D server action_id request request).at w in
      let after = (found_action action_id request).at w in
      ap (λ (x : View D). D.action_table.get x.0 action_id) (after ∙ sym before)
      ∙ (get_or_404-ok D server action_id request w' a got ∙ ap (λ x. some x) (ok-injective h3))

  pub found_id :
      (action_id : String) (request : Request) (w : World D) (action : Action)
      → (get_authorized_action D server action_id request w).0 ≡ ok action
      → action.action_id ≡ action_id
  found_id action_id request w action h =
      D.action_table.hash_key-get (get_authorized_action D server action_id request w).1.actions
        action_id action (found_at action_id request w action h)

  pub found_stored :
      (action_id : String) (request : Request) (w : World D) (action : Action)
      → (get_authorized_action D server action_id request w).0 ≡ ok action
      → Actions.stored D (get_authorized_action D server action_id request w).1 action.action_id
        ≡ some action
  found_stored action_id request w action h =
      ap (λ k. D.action_table.get (get_authorized_action D server action_id request w).1.actions k)
        (found_id action_id request w action h)
      ∙ found_at action_id request w action h

  pub cancelling :
      (action_id : String) (request : Request) (w : World D)
      → IsConsistent D (work D w)
      → Keeping D (work D w) (work D (post_action_cancel D server action_id request w).1)
  unfolding post_action_cancel action_cancel Actions.set_status
  cancelling action_id request w h =
      bind-Keeping D (get_authorized_action D server action_id request) _ w
        (preserved D (get_authorized_action D server action_id request) w
          (found_action action_id request) h)
        λ action is_action at_action.
          let v = (get_authorized_action D server action_id request w).1 in
          let found = found_stored action_id request w action is_action in
          written D v action action (record action { status = cancelled; updated_at = v.clock })
            (Actions.set_status D action cancelled v) found
            (record { id = refl; owner = refl; name = refl; created = refl })
            (cancelled-IsSound D v.clock action)
            (set_status-Writes D v action action cancelled found) refl at_action

  module _ {Args : Type 0} (distinct : (i j : ℕ) → D.uuid4 i ≡ D.uuid4 j → i ≡ j) (name : String)
      (read_args : Request → Result Exc Args)
      (endpoint : Args → Action → Exec (World D) Exc ActionSchemaOut)
      (submits : (args : Args) (action : Action)
        → (task : TaskName) × (kwargs : Dict Arg) × (endpoint args action
            ≡ submit D task kwargs action))
      (request : Request) where
    answer_with : Action → Exec (World D) Exc ActionSchemaOut
    answer_with action = do args ← lift (read_args request); endpoint args action

    create_for : User → Exec (World D) Exc ActionSchemaOut
    unfolding answer_with
    create_for user = do action ← Actions.create_action D name user.username; answer_with action

    ending :
        (args : Args) (action : Action) (w : World D)
        → Actions.stored D w action.action_id ≡ some action
        → IsConsistent D (work D w)
        → KeepsRun D (endpoint args action) w
    unfolding submit
    ending args action w stored h =
        let (task, kwargs, e) = submits args action in
        rw e (
          queued D w.actions w.queue w.clock w.drawn (message_of task kwargs action)
            (record { row = action; stored = stored; same = IsSame-refl action; task = refl }) h)

    answering :
        (action : Action) (w : World D)
        → Actions.stored D w action.action_id ≡ some action
        → IsConsistent D (work D w)
        → KeepsRun D (answer_with action) w
    unfolding answer_with
    answering action w stored h =
        bind-Keeping D (lift (read_args request)) (λ args. endpoint args action) w
          (unchanged D (work D w) (work D w) refl h)
          (λ args is_args at_args. ending args action w stored h)

    creating :
        (user : User) (w : World D) → IsConsistent D (work D w) → KeepsRun D (create_for user) w
    unfolding create_for Actions.create_action
    creating user w h =
        let writes = create_action-Writes D w name user.username in
        let new = fresh_action D w name user in
        bind-Keeping D (Actions.create_action D name user.username) (λ action. answer_with action) w
          (created D distinct w.actions (Actions.create_action D name user.username w).1.actions
            w.queue w.clock w.drawn new refl (record { at = writes.row }) h
            (record {
              final = λ e. cc;
              fresh = λ e. refl;
              created = omega arith;
              updated = omega arith;
            }))
          (λ action is_action at_action.
            answering action (Actions.create_action D name user.username w).1
              (rw (← ok-injective is_action)
                (writes.row new.action_id ∙ rw (eq_refl new.action_id) refl))
              at_action)

    -- A request for an action: whether it is refused, or ends with invalid arguments, or is
    -- answered.
    pub submitting :
        (w : World D)
        → IsConsistent D (work D w)
        → KeepsRun D (post_action D server name read_args endpoint request) w
    unfolding post_action create_for answer_with
    submitting w h =
        bind-Keeping D (authorized_user D server request) (λ user. create_for user) w
          (preserved D (authorized_user D server request) w
            (authorized_user-Preserves D server request) h)
          (λ user is_user at_user. creating user (authorized_user D server request w).1 at_user)

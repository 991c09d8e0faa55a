-- ===== src/System/Taken.antt =====
-- What becomes of the message that a request for an action sends: it waits until a worker has it.
use automated_actions.Prelude.{String, ◌≡◌, refl, ap, ◌⊎◌, inl, inr, List, [], ◌∷◌, ◌++◌}
use automated_actions.Dict.{Dict}
use automated_actions.Errors.{Exc}
use automated_actions.Exec.{Exec, Result, ok, err, lift, continue, ◌>>=◌}
use automated_actions.Exec.Keeps.{Preserves, Preserves-bind}
use automated_actions.Db.Schema.{Action, ActionSchemaOut, Arg, TaskName}
use automated_actions.Db.World.{Database, World, Message}
use automated_actions.Db.Actions
use automated_actions.Auth.Untouched.{work}
use automated_actions.Auth.Request.{Request}
use automated_actions.Api.{Server, submit, authorized_user, post_action}
use automated_actions.Api.Submit.{message_of, authorized_user-Preserves}
use automated_actions.Api.General.{post_action_cancel, action_cancel, get_authorized_action}
use automated_actions.Worker.Task.{before_start, on_success, on_failure, on_retry}
use automated_actions.System.{
  State, Among, here, there, Hooked, starts, succeeds, fails, retries, IsPost, Step, posts, reads,
  cancels, takes, works, waits, Steps, no_steps, one_step,
}
use automated_actions.System.Posts.{IsPost-elim, IsRead-work}
use automated_actions.System.Requests.{found_action}

-- The same messages, or one more behind them.
abbrev pub IsExtended : List Message → List Message → Type 0
IsExtended before after = (after ≡ before) ⊎ ((m : Message) × (after ≡ before ++ m ∷ []))

Among-append : {m : Message} (ms new : List Message) → Among m ms → Among m (ms ++ new)
Among-append [] new a = elim a [ ]
Among-append (m ∷ ms) new here = here
Among-append (n ∷ ms) new (there a) = there (Among-append ms new a)

pub Among-last : (m : Message) (ms : List Message) → Among m (ms ++ m ∷ [])
Among-last m [] = here
Among-last m (n ∷ ms) = there (Among-last m ms)

not-Among-nil : {m : Message} → Among m [] → ⊥
not-Among-nil a = elim a [ ]

-- What is left of the queue when a message is taken.
Among-left :
    {m n : Message} (front rest : List Message)
    → Among m (front ++ n ∷ rest)
    → (m ≡ n) ⊎ Among m (front ++ rest)
Among-left [] rest here = inl refl
Among-left [] rest (there a) = inr a
Among-left (k ∷ front) rest here = inr here
Among-left (k ∷ front) rest (there a) = elim (Among-left front rest a) [
  | inl e ↦ inl e
  | inr b ↦ inr (there b)
]

Among-Extended :
    {m : Message} {before after : List Message}
    → IsExtended before after
    → Among m before
    → Among m after
Among-Extended (inl e) a = rw e a
Among-Extended (inr (n, e)) a = rw e (Among-append _ (n ∷ []) a)

module _ (D : Database) where
  queue_of : World D → List Message
  queue_of w = w.queue

  -- A run that sends at most one message.
  record Extends {A : Type 0} (m : Exec (World D) Exc A) : Type 0 where
    at : (w : World D) → IsExtended w.queue (m w).1.queue

  Preserves-queue :
      {A : Type 0} (m : Exec (World D) Exc A) → Preserves (work D) m → Preserves queue_of m
  unfolding queue_of
  Preserves-queue m p = record { at = λ w. ap (λ v. v.1) (p.at w) }

  continued :
      {A B : Type 0} (r : Result Exc A) (f : A → Exec (World D) Exc B) (v w : World D)
      → v.queue ≡ w.queue
      → ((a : A) → Extends (f a))
      → IsExtended w.queue (continue r f v).1.queue
  continued (ok a) f v w e h = rw (← e) ((h a).at v)
  continued (err x) f v w e h = inl e

  Extends-bind :
      {A B : Type 0} (m : Exec (World D) Exc A) (f : A → Exec (World D) Exc B)
      → Preserves queue_of m
      → ((a : A) → Extends (f a))
      → Extends (m >>= f)
  unfolding queue_of
  Extends-bind m f p h = record { at = λ w. continued (m w).0 f (m w).1 w (p.at w) h }

  create_action-queue :
      (name owner : String) → Preserves queue_of (Actions.create_action D name owner)
  unfolding queue_of Actions.create_action
  create_action-queue name owner = record { at = λ w. refl }

  set_status-queue : (a : Action) → Preserves queue_of (action_cancel D a)
  unfolding queue_of action_cancel Actions.set_status
  set_status-queue a = record { at = λ w. refl }

  module _ (server : Server D) where
    post_action-Extends :
        {Args : Type 0} (name : String) (read_args : Request → Result Exc Args)
        (endpoint : Args → Action → Exec (World D) Exc ActionSchemaOut)
        → ((args : Args) (action : Action)
            → (task : TaskName) × (kwargs : Dict Arg) × (endpoint args action
                ≡ submit D task kwargs action))
        → (request : Request) → Extends (post_action D server name read_args endpoint request)
    unfolding post_action submit
    post_action-Extends name read_args endpoint submits request =
        Extends-bind (authorized_user D server request) _
          (Preserves-queue (authorized_user D server request)
            (authorized_user-Preserves D server request))
          λ user.
            Extends-bind (Actions.create_action D name user.username) _
              (create_action-queue name user.username)
              λ action.
                Extends-bind (lift (read_args request)) _ (record { at = λ w. refl })
                  λ args.
                    let (task, kwargs, e) = submits args action in
                    rw e (record { at = λ w. inr (message_of task kwargs action, refl) })

    posted-Extends :
        {post : Request → Exec (World D) Exc ActionSchemaOut}
        → IsPost D server post
        → (request : Request) → Extends (post request)
    posted-Extends p request =
        IsPost-elim D server (λ post. Extends (post request))
          (λ Args name read_args endpoint submitted.
            post_action-Extends name read_args endpoint submitted request)
          p

    cancel_queue :
        (action_id : String) (request : Request)
        → Preserves queue_of (post_action_cancel D server action_id request)
    unfolding post_action_cancel
    cancel_queue action_id request =
        Preserves-bind (get_authorized_action D server action_id request) (λ a. action_cancel D a)
          (Preserves-queue (get_authorized_action D server action_id request)
            (found_action D server action_id request))
          (λ a. set_status-queue a)

    hook_queue :
        {m : Message} {hook : World D → World D} (w : World D)
        → Hooked D m hook
        → (hook w).queue ≡ w.queue
    unfolding before_start on_success on_failure on_retry Actions.set_status Actions.set_final_state
    hook_queue w starts = refl
    hook_queue w succeeds = refl
    hook_queue w (fails e) = refl
    hook_queue w retries = refl

    -- A message waits, or it is with a worker.
    abbrev IsSent : Message → State D → Type 0
    IsSent m s = Among m s.in_flight ⊎ Among m s.world.queue

    still-IsSent :
        {m : Message} (s t : State D)
        → t.in_flight ≡ s.in_flight
        → IsExtended s.world.queue t.world.queue
        → IsSent m s
        → IsSent m t
    still-IsSent s t same e (inl a) = inl (rw same a)
    still-IsSent s t same e (inr a) = inr (Among-Extended e a)

    IsSent-Step : {m : Message} {s t : State D} → Step D server s t → IsSent m s → IsSent m t
    unfolding queue_of
    IsSent-Step {s = s} {t = t} (posts p request) sent =
        still-IsSent s t refl ((posted-Extends p request).at s.world) sent
    IsSent-Step {s = s} {t = t} (reads r) sent =
        still-IsSent s t refl (inl (ap (λ v. v.1) (IsRead-work D server s.world r))) sent
    IsSent-Step {s = s} {t = t} (cancels action_id request) sent =
        still-IsSent s t refl (inl ((cancel_queue action_id request).at s.world)) sent
    IsSent-Step (takes m front rest e) (inl a) = inl (there a)
    IsSent-Step {t = t} (takes n front rest e) (inr a) = elim (Among-left front rest (rw e at a)) [
      | inl same ↦ inl (rw same here)
      | inr left ↦ inr left
    ]
    IsSent-Step {s = s} {t = t} (works a hook) sent =
        still-IsSent s t refl (inl (hook_queue s.world hook)) sent
    IsSent-Step {s = s} {t = t} (waits later order) sent = still-IsSent s t refl (inl refl) sent

    IsSent-Steps : {m : Message} {s t : State D} → Steps D server s t → IsSent m s → IsSent m t
    IsSent-Steps no_steps sent = sent
    IsSent-Steps (one_step step steps) sent = IsSent-Steps steps (IsSent-Step step sent)

    -- A message that was queued is with a worker as soon as no message waits.
    pub queued-IsTaken :
        (m : Message) (s t : State D)
        → Among m s.world.queue
        → Steps D server s t
        → t.world.queue ≡ []
        → Among m t.in_flight
    queued-IsTaken m s t a steps empty = elim (IsSent-Steps steps (inr a)) [
      | inl taken ↦ taken
      | inr waiting ↦ absurd (not-Among-nil (rw empty at waiting))
    ]

-- ===== src/System/Invariant.antt =====
-- What is true after any number of steps.
use automated_actions.Prelude.{ℕ, String, ◌≡◌, sym, ◌∙◌, Option, none, some, List, [], ◌∷◌, ◌++◌}
use automated_actions.Errors.{Exc}
use automated_actions.Exec.{Exec}
use automated_actions.Db.Schema.{Action, ActionSchemaOut}
use automated_actions.Db.World.{Database, World, Message}
use automated_actions.Auth.Untouched.{work}
use automated_actions.Auth.Request.{Request}
use automated_actions.Api.{Server}
use automated_actions.System.Effects.{
  IsHeld, IsConsistent, Keeps, Keeps-refl, Keeps-trans, IsHeld-Keeps, Keeping, unchanged, Every,
  every_nil, every_cons, Every-map,
}
use automated_actions.System.Changes.{ticked}
use automated_actions.System.Runs.{KeepsRun}
use automated_actions.System.Hooks.{hooked}
use automated_actions.System.Posts.{IsPost-elim, IsRead-work}
use automated_actions.System.Requests.{cancelling, submitting}
use automated_actions.System.{
  State, Among, here, there, IsPost, IsRead, Step, posts, reads, cancels, takes, works, waits,
  Steps, no_steps, one_step,
}

pub Every-at :
    {P : Message → Type 0} {m : Message} (ms : List Message) → Among m ms → Every P ms → P m
Every-at [] a h = elim a [ ]
Every-at (m ∷ ms) here (every_cons p rest) = p
Every-at (n ∷ ms) (there a) (every_cons p rest) = Every-at ms a rest

module _ (D : Database) where
  -- The tables and the queue are consistent, and each message that a worker has taken is of a
  -- stored action.
  pub record IsInvariant (s : State D) : Type 0 where
    pub consistent : IsConsistent D (work D s.world)
    pub held : Every (IsHeld D s.world.actions) s.in_flight

  -- A state before anything happened.
  pub record IsEmpty (s : State D) : Type 0 where
    pub rows : (k : String) → D.action_table.get s.world.actions k ≡ none
    pub queue : s.world.queue ≡ []
    pub in_flight : s.in_flight ≡ []

  none-ne-some : {a : Action} → ◌≡◌ {A = Option Action} none (some a) → ⊥
  none-ne-some h = cc

  IsEmpty-IsInvariant : (s : State D) → IsEmpty s → IsInvariant s
  IsEmpty-IsInvariant s h = record {
    consistent = record {
      rows = λ k a found. absurd (none-ne-some (sym (h.rows k) ∙ found));
      keys = λ k a found. absurd (none-ne-some (sym (h.rows k) ∙ found));
      queued = rw h.queue every_nil;
    };
    held = rw h.in_flight every_nil;
  }

  -- The messages at hand stay messages of stored actions.
  still_held :
      (s : State D) (w : World D)
      → IsInvariant s
      → Keeping D (work D s.world) (work D w)
      → IsInvariant (record s { world = w }) × Keeps D s.world.actions w.actions
  still_held s w h k = (
    record {
      consistent = k.consistent;
      held = Every-map (λ m. IsHeld-Keeps D m k.kept) s.in_flight h.held;
    },
    k.kept,
  )

  -- The messages that are left when one is taken.
  Every-taken :
      {P : Message → Type 0} {m : Message} (front rest : List Message)
      → Every P (front ++ m ∷ rest)
      → P m × Every P (front ++ rest)
  Every-taken [] rest (every_cons p others) = (p, others)
  Every-taken (n ∷ front) rest (every_cons q others) =
      let (p, left) = Every-taken front rest others in (p, every_cons q left)

  module _ (server : Server D) where
    read_only :
        {read : World D → World D} (w : World D)
        → IsRead D server read
        → IsConsistent D (work D w)
        → Keeping D (work D w) (work D (read w))
    read_only {read} w r h = unchanged D (work D w) (work D (read w)) (IsRead-work D server w r) h

    module _ (distinct : (i j : ℕ) → D.uuid4 i ≡ D.uuid4 j → i ≡ j) where
      posting :
          {post : Request → Exec (World D) Exc ActionSchemaOut}
          → IsPost D server post
          → (request : Request) (w : World D) → IsConsistent D (work D w)
          → KeepsRun D (post request) w
      posting p request w h =
          IsPost-elim D server (λ post. KeepsRun D (post request) w)
            (λ Args name read_args endpoint submitted.
              submitting D server distinct name read_args endpoint submitted request w h)
            p

      -- One step, from a state in which all is well.
      pub Step-kept :
          {s t : State D}
          → Step D server s t
          → IsInvariant s
          → IsInvariant t × Keeps D s.world.actions t.world.actions
      Step-kept {s = s} (posts p request) h =
          still_held s _ h (posting p request s.world h.consistent)
      Step-kept {s = s} (reads r) h = still_held s _ h (read_only s.world r h.consistent)
      Step-kept {s = s} (cancels action_id request) h =
          still_held s _ h (cancelling D server action_id request s.world h.consistent)
      Step-kept {s = s} (takes m front rest e) h =
          let (taken, left) = Every-taken front rest (rw e at h.consistent.queued) in
          (
            record {
              consistent = record {
                rows = h.consistent.rows;
                keys = h.consistent.keys;
                queued = left;
              };
              held = every_cons taken h.held;
            },
            Keeps-refl D s.world.actions,
          )
      Step-kept {s = s} (works a hook) h =
          still_held s _ h (hooked D _ _ s.world hook (Every-at s.in_flight a h.held) h.consistent)
      Step-kept {s = s} (waits later order) h = still_held s _ h (
          ticked D s.world.actions s.world.queue s.world.clock later s.world.drawn order
            h.consistent)

      pub Steps-kept :
          {s t : State D}
          → Steps D server s t
          → IsInvariant s
          → IsInvariant t × Keeps D s.world.actions t.world.actions
      Steps-kept {s = s} no_steps h = (h, Keeps-refl D s.world.actions)
      Steps-kept (one_step step steps) h =
          let (h', k) = Step-kept step h in
          let (h'', k') = Steps-kept steps h' in (h'', Keeps-trans D k k')

      -- Where no identifier is drawn twice, whatever requests and hooks have run since the tables
      -- were empty, and in whatever order: an action with the status SUCCESS or FAILURE has a
      -- result, a PENDING one has none, and no action was updated before it was created or after
      -- now; and each message in the queue or with a worker is of an action that is stored, with
      -- the same owner and name, and has that action's identifier.
      pub Steps-IsInvariant : (s t : State D) → IsEmpty s → Steps D server s t → IsInvariant t
      Steps-IsInvariant s t empty steps = (Steps-kept steps (IsEmpty-IsInvariant s empty)).0

      -- Where no identifier is drawn twice, from a consistent state, as all are that steps from empty
      -- tables lead to: an action that is stored stays stored, with its owner, its name and the time
      -- of its creation, whatever requests and hooks run.
      pub Steps-Keeps :
          (s t : State D)
          → IsInvariant s
          → Steps D server s t
          → Keeps D s.world.actions t.world.actions
      Steps-Keeps s t h steps = (Steps-kept steps h).1

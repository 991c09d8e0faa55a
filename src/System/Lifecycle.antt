-- ===== src/System/Lifecycle.antt =====
-- What an action is to its user: an owner, a name and a status under an identifier; and what may
-- happen to it. The results, arguments and times, the queue, the users and the clock are left out.
pub mod Refines
use automated_actions.Prelude.{
  ℕ, String, ◌≡◌, refl, sym, ap, ◌∙◌, inl, inr, Bool, true, false, Option, none, some, ◌==◌,
  if◌then◌else◌, Bool-cases, Option-cases, arith,
}
use automated_actions.Errors.{Exc}
use automated_actions.Exec.{Result}
use automated_actions.Db.Schema.{Action, ActionStatus, pending, cancelled}
use automated_actions.Db.World.{Database, World}
use automated_actions.Db.Actions
use automated_actions.Db.Actions.Laws.{Writes}
use automated_actions.Auth.Untouched.{work}
use automated_actions.Api.Submit.{fresh_action}
use automated_actions.System.Effects.{IsSame, View, IsConsistent}

pub record Life : Type 0 where
  pub owner : String
  pub name : String
  pub status : ActionStatus

-- The actions of the service by their identifiers.
abbrev pub Lives : Type 0
Lives = String → Option Life

-- What happens, as far as it may change an action: an action is asked for, the cancellation of one is
-- asked for, a hook writes a status, or nothing of these.
pub data Event : Type 0 where
  submission quiet : Event
  cancellation : (action_id : String) → Event
  progress : (action_id : String) → ActionStatus → Event

-- A request may be refused, and most steps change no action; a hook always writes.
abbrev pub is_optional : Event → Bool
is_optional submission = true
is_optional quiet = true
is_optional (cancellation id) = true
is_optional (progress id status) = false

-- The action that gets another status, and that status.
abbrev pub target_of : Event → Option (String × ActionStatus)
target_of submission = none
target_of quiet = none
target_of (cancellation id) = some (id, cancelled)
target_of (progress id status) = some (id, status)

-- What an event may do: nothing; a new pending action, under an identifier that had none; or another
-- status for the one action that it is about.
pub data Change (e : Event) (f g : Lives) : Type 0 where
  unchanged : is_optional e ≡ true → ((k : String) → g k ≡ f k) → Change e f g
  submitted :
      (id owner name : String)
      → e ≡ submission
      → f id ≡ none
      → ((k : String)
          → g k ≡ (
              if id == k
              then some (record { owner = owner; name = name; status = pending })
              else f k))
      → Change e f g
  moved :
      (id : String) (life : Life) (status : ActionStatus)
      → target_of e ≡ some (id, status)
      → f id ≡ some life
      → ((k : String) → g k ≡ (if id == k then some (record life { status = status }) else f k))
      → Change e f g

abbrev pub life_of : Option Action → Option Life
life_of none = none
life_of (some a) = some (record { owner = a.owner; name = a.name; status = a.status })

life_of-if :
    (b : Bool) (c : Action) (o : Option Action)
    → life_of (if b then some c else o) ≡ (if b then life_of (some c) else life_of o)
life_of-if true c o = refl
life_of-if false c o = refl

module _ (D : Database) where
  abbrev pub lives : World D → Lives
  lives w k = life_of (Actions.stored D w k)

  -- A change that leaves the tables as they are afterwards, or found them so.
  pub Change-then :
      (e : Event) (u v w : World D)
      → w.actions ≡ v.actions
      → Change e (lives u) (lives v)
      → Change e (lives u) (lives w)
  Change-then e u v w same change = rw same change

  pub Change-from :
      (e : Event) (u v w : World D)
      → work D v ≡ work D u
      → Change e (lives v) (lives w)
      → Change e (lives u) (lives w)
  Change-from e u v w same change = rw (← ap (λ (x : View D). x.0) same) change

  -- Nothing but what the requests do on their way to an endpoint.
  pub Change-work :
      (e : Event) (v w : World D)
      → is_optional e ≡ true
      → work D w ≡ work D v
      → Change e (lives v) (lives w)
  Change-work e v w optional same =
      unchanged optional (λ k. ap (λ (x : View D). life_of (D.action_table.get x.0 k)) same)

  -- The row of a stored action is written anew, with the status of the event.
  pub Change-Writes :
      (e : Event) (w : World D) (a b c : Action) (run : Result Exc Action × World D)
      → target_of e ≡ some (a.action_id, c.status)
      → Actions.stored D w a.action_id ≡ some b
      → IsSame b c
      → Writes D w c run
      → Change e (lives w) (lives run.1)
  Change-Writes e w a b c run target found same writes =
      let key : c.action_id ≡ a.action_id =
        sym same.id ∙ D.action_table.hash_key-get w.actions a.action_id b found in
      moved a.action_id (record { owner = b.owner; name = b.name; status = b.status }) c.status
        target (ap life_of found)
        (λ k.
          ap life_of (writes.row k)
          ∙ (life_of-if (c.action_id == k) c (Actions.stored D w k)
              ∙ rw (key, same.owner, same.name) refl))

  module _ (distinct : (i j : ℕ) → D.uuid4 i ≡ D.uuid4 j → i ≡ j) where
    -- The next identifier is not used.
    unused : (w : World D) → IsConsistent D (work D w) → Actions.stored D w (D.uuid4 w.drawn) ≡ none
    unused w h = elim (Option-cases (Actions.stored D w (D.uuid4 w.drawn))) [
      | inl e ↦ e
      | inr (a, found) ↦
          let (i, below, drawn_as) = h.keys (D.uuid4 w.drawn) a found in
          absurd (let same = distinct i w.drawn drawn_as in omega arith)
    ]

    -- A new action of a user is stored.
    pub Change-created :
        (w : World D) (c : Action) (run : Result Exc Action × World D)
        → IsConsistent D (work D w)
        → c.action_id ≡ D.uuid4 w.drawn
        → c.status ≡ pending
        → Writes D w c run
        → Change submission (lives w) (lives run.1)
    Change-created w c run h id new writes =
        submitted c.action_id c.owner c.name refl
          (ap life_of (ap (λ k. D.action_table.get w.actions k) id ∙ unused w h))
          (λ k.
            ap life_of (writes.row k)
            ∙ (life_of-if (c.action_id == k) c (Actions.stored D w k) ∙ rw new refl))

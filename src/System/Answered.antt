-- ===== src/System/Answered.antt =====
-- From a request for an action to the end of its task.
use automated_actions.Prelude.{
  ℕ, ◌<◌, String, ◌≡◌, refl, sym, ap, ◌∙◌, Option, some, [], ◌⊎◌, inl, inr, eq_refl,
}
use automated_actions.Dict.{Dict}
use automated_actions.Errors.{Exc}
use automated_actions.Exec.{Exec, Result, ok}
use automated_actions.Db.Schema.{Action, ActionStatus, ActionSchemaOut, User, Arg, TaskName}
use automated_actions.Db.World.{Database, World}
use automated_actions.Db.Actions
use automated_actions.Auth.Request.{Request}
use automated_actions.Api.{Server, submit, authorized_user, post_action}
use automated_actions.Api.Submit.{fresh_action, message_of, post_action-IsSubmitted}
use automated_actions.Worker.Task.{Exit}
use automated_actions.Worker.Delivery.{Celery, deliver}
use automated_actions.Worker.Delivery.Laws.{Ends, IsFinal}
use automated_actions.System.{State, Among, IsPost, Step, posts, Steps}
use automated_actions.System.Effects.{Keeps, Keeps-trans}
use automated_actions.System.Invariant.{IsInvariant, Step-kept, Steps-kept}
use automated_actions.System.Taken.{Among-last, queued-IsTaken}
use automated_actions.System.Delivery.{IsSchedule, deliver-IsReached}

some-injective : {a b : Action} → ◌≡◌ {A = Option Action} (some a) (some b) → a ≡ b
some-injective h = cc

-- The row of an action that has ended: whose it is, and how it ended.
pub record IsAnswered (D : Database) (w : World D) (id owner name : String) (status : ActionStatus)
    (result : String) : Type 0 where
  pub row : Action
  pub stored : Actions.stored D w id ≡ some row
  pub owner_of : row.owner ≡ owner
  pub name_of : row.name ≡ name
  pub status_of : row.status ≡ status
  pub result_of : row.result ≡ some result

module _ (D : Database) (server : Server D) (distinct : (i j : ℕ) → D.uuid4 i ≡ D.uuid4 j → i ≡ j)
    (celery : Celery) (max : ℕ) (exits : ℕ → Exit) (between : ℕ → World D → World D)
    (starts_in : ℕ → State D) where
  -- The final row is one that the row of before was kept as.
  answered :
      (fresh : Action) (kwargs : Dict Arg) (w w' : World D) (status : ActionStatus)
      (result : String)
      → Actions.stored D w fresh.action_id ≡ some fresh
      → Keeps D w.actions w'.actions
      → IsFinal D celery max exits between fresh kwargs w' status result
      → IsAnswered D w' fresh.action_id fresh.owner fresh.name status result
  answered fresh kwargs w w' status result there keeps final =
      let (b, found, same) = keeps.at fresh.action_id fresh there in
      let is_row : b ≡ final.row = some-injective (sym found ∙ final.stored) in
      record {
        row = final.row;
        stored = final.stored;
        owner_of = ap (λ (a : Action). a.owner) (sym is_row) ∙ sym same.owner;
        name_of = ap (λ (a : Action). a.name) (sym is_row) ∙ sym same.name;
        status_of = final.status;
        result_of = final.text;
      }

  module _ {Args : Type 0} (name : String) (read_args : Request → Result Exc Args)
      (endpoint : Args → Action → Exec (World D) Exc ActionSchemaOut)
      (is_post : IsPost D server (post_action D server name read_args endpoint)) (request : Request)
      (s t : State D) where
    -- Where no identifier is drawn twice: an authorized request with valid arguments, in a consistent
    -- state; then any requests and hooks, after which a worker has the message of the new action at
    -- hand, or no message waits; then the attempts of its task, with any requests and hooks before
    -- each of them, those of any messages among them. The task ends, and the row under the new
    -- identifier is the user's, has the name of the endpoint, and the status and result that the last
    -- attempt leads to: SUCCESS and "ok" if it returned, FAILURE and the text of the exception if that
    -- failed or no retries were left; if it had asked for another one, that is the exception that
    -- Celery raises then.
    pub post_action-IsAnswered :
        (w' : World D) (user : User) (args : Args) (task : TaskName) (kwargs : Dict Arg) (fuel : ℕ)
        → IsInvariant D s
        → authorized_user D server request s.world ≡ (ok user, w')
        → read_args request ≡ ok args
        → ((action : Action) → endpoint args action ≡ submit D task kwargs action)
        → Steps D server
            (record s { world = (post_action D server name read_args endpoint request s.world).1 })
            t
        → Among (message_of task kwargs (fresh_action D w' name user)) t.in_flight
          ⊎ (t.world.queue ≡ [])
        → IsSchedule D server
            (message_of task kwargs (fresh_action D w' name user))
            t
            between
            starts_in
        → max < fuel
        → (status : ActionStatus) × (result : String) × (end : World D) × (deliver D celery max
              exits between
              (fresh_action D w' name user)
              (message_of task kwargs (fresh_action D w' name user)).kwargs
              fuel
              0
              t.world
            ≡ some end)
          × Ends max exits 0 status result
          × IsAnswered D end (D.uuid4 w'.drawn) user.username name status result
    post_action-IsAnswered w' user args task kwargs fuel h authorized valid submits steps taken
          others enough =
        let fresh = fresh_action D w' name user in
        let m = message_of task kwargs fresh in
        let posted : State D = record s {
          world = (post_action D server name read_args endpoint request s.world).1;
        } in
        let step : Step D server s posted = posts is_post request in
        let (h1, _) = Step-kept D server distinct step h in
        let submitted =
          post_action-IsSubmitted D server name read_args endpoint request s.world w' user args task
            kwargs authorized valid submits in
        let there : Actions.stored D posted.world fresh.action_id ≡ some fresh =
          submitted.row fresh.action_id ∙ rw (eq_refl fresh.action_id) refl in
        let at_hand : Among m t.in_flight = elim taken [
          | inl among ↦ among
          | inr empty ↦
              queued-IsTaken D server m posted t (rw submitted.queued (Among-last m w'.queue)) steps
                empty
        ] in
        let (h2, kept) = Steps-kept D server distinct steps h1 in
        let (status, result, end, run, ends, final, reached) =
          deliver-IsReached D server m t distinct celery max exits between starts_in fuel others h2
            at_hand enough in
        let (h3, kept') = Steps-kept D server distinct reached.steps h2 in
        (
          status,
          result,
          end,
          run,
          ends,
          answered fresh m.kwargs posted.world end status result there
              (Keeps-trans D kept (rw (ap (λ (w : World D). w.actions) reached.world) at kept'))
              final,
        )

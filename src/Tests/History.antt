-- ===== src/Tests/History.antt =====
-- The theorems on the whole system at a short history: a request for a no-op, its task, and a
-- cancellation.
use automated_actions.Prelude.{
  true, eqb, if◌then◌else◌, ℕ, String, zero, suc, ◌≡◌, refl, sym, ap, ◌∙◌, inr, some, [], ◌∷◌,
  arith,
}
use automated_actions.Text.Decimal.{ℤ, pos, show, int, int-show}
use automated_actions.Errors.{api_exception}
use automated_actions.Exec.{ok}
use automated_actions.Db.Schema.{no_op, action_key, running, ActionStatus, User, user_key}
use automated_actions.Db.World.{Database, World, Message}
use automated_actions.Db.Memory.{memory, find, change}
use automated_actions.Db.Users
use automated_actions.Dict.{lookup}
use automated_actions.Auth.Request.{truthy}
use automated_actions.Auth.Oidc
use automated_actions.Auth.Bearer
use automated_actions.Auth.Opa as OpaModule
use automated_actions.Auth.Opa.{Opa, decision, should_skip_endpoint}
use automated_actions.Api.{Server, authorized_user, get_user, get_authz}
use automated_actions.Api.General.{post_no_op, no_op_endpoint}
use automated_actions.Api.Submit.{message_of, fresh_action, post_action-IsSubmitted}
use automated_actions.Worker.Task.{Exit, raising, returned, before_start, on_success}
use automated_actions.Worker.Delivery.{deliver}
use automated_actions.Worker.Delivery.Laws.{Ends, IsFinal}
use automated_actions.System.Effects.{Keeps}
use automated_actions.System.{
  State, Among, here, is_no_op, starts, succeeds, posts, takes, works, waits, Steps, no_steps,
  one_step,
}
use automated_actions.System.Answered.{IsAnswered, post_action-IsAnswered}
use automated_actions.System.Lifecycle.{progress, Change, lives}
use automated_actions.System.Lifecycle.Refines.{Step-Change}
use automated_actions.System.Delivery.{IsReached, begun, IsSchedule, deliver-IsReached}
use automated_actions.System.Invariant.{IsInvariant, IsEmpty, Steps-IsInvariant, Steps-Keeps}
use automated_actions.Tests.Setup.{
  an_action, alice, Action-IsSet, User-IsSet, libs, oidc, jwt, request, celery,
}

abbrev numbered : Database
numbered = record {
  action_table = memory action_key Action-IsSet an_action;
  user_table = memory user_key User-IsSet alice;
  uuid4 = show;
}

pos-injective : {i j : ℕ} → pos i ≡ pos j → i ≡ j
pos-injective h = cc

some-injective : {i j : ℤ} → some i ≡ some j → i ≡ j
some-injective h = cc

show-injective : (i j : ℕ) → show i ≡ show j → i ≡ j
show-injective i j h = pos-injective (some-injective (sym (int-show i) ∙ (ap int h ∙ int-show j)))

abbrev engine : Opa numbered
engine = record {
  skip_endpoints = [];
  post = λ w r. record {
    status_code = 200;
    body = decision (record {
      authorized = some true;
      within_rate_limits = some true;
      objects = some ("no-op" ∷ []);
    });
  };
  show_code = λ n. "unexpected status";
}

abbrev server : Server numbered
server = record {
  jwt = jwt;
  issuer = "issuer";
  secret = "secret";
  libs = libs;
  oidc = oidc;
  opa = engine;
}

abbrev start : State numbered
start = record {
  world = record { actions = []; users = alice ∷ []; queue = []; clock = 8000000; drawn = 0 };
  in_flight = [];
}

abbrev ready : State numbered
ready = record start { world = record start.world { clock = 9000000 } }

-- Alice, and the state, after the request is authorized.
abbrev alice_later : User
alice_later = record alice { allowed_actions = "no-op" ∷ []; updated_at = 9000000 }

abbrev allowed : World numbered
allowed = record ready.world { users = alice_later ∷ alice ∷ [] }

authorized : authorized_user numbered server request ready.world ≡ (ok alice_later, allowed)
unfolding authorized_user get_user get_authz Bearer.get_user Bearer.authenticate Oidc.authenticate
    Oidc.get_user_info Users.load Users.load_found OpaModule.authorize should_skip_endpoint
    OpaModule.enforce OpaModule.query_opa OpaModule.check_decision Users.set_allowed_actions
    Users.same_set Users.update_user truthy find change lookup
authorized = refl

abbrev posted : State numbered
posted = record ready { world = (post_no_op numbered server request ready.world).1 }

-- The message for the task of the action.
abbrev message : Message
message = message_of no_op [] (fresh_action numbered allowed "no-op" alice_later)

abbrev taken : State numbered
taken = record { world = record posted.world { queue = [] }; in_flight = message ∷ [] }

abbrev at_work : State numbered
at_work = record taken { world = (before_start numbered message.action taken.world).1 }

abbrev ended : State numbered
ended = record at_work {
  world = (on_success numbered message.action message.kwargs at_work.world).1;
}

posted_queue : posted.world.queue ≡ (message ∷ [])
unfolding no_op_endpoint
posted_queue =
    (post_action-IsSubmitted numbered server "no-op" (λ _. ok tt) (no_op_endpoint numbered) request
      ready.world allowed alice_later tt no_op [] authorized refl (λ action. refl)).queued

to_taken : Steps numbered server start taken
to_taken =
    one_step (waits 9000000 (omega arith))
      (one_step (posts is_no_op request) (one_step (takes message [] [] posted_queue) no_steps))

to_ended : Steps numbered server taken ended
to_ended = one_step (works here starts) (one_step (works here succeeds) no_steps)

start-IsEmpty : IsEmpty numbered start
unfolding find
start-IsEmpty = record { rows = λ k. refl; queue = refl; in_flight = refl }

taken-IsInvariant : IsInvariant numbered taken
taken-IsInvariant =
    Steps-IsInvariant numbered server show-injective start taken start-IsEmpty to_taken

Steps-IsInvariant_example : IsInvariant numbered taken
Steps-IsInvariant_example =
    Steps-IsInvariant numbered server show-injective start taken start-IsEmpty to_taken

Steps-Keeps_example : Keeps numbered taken.world.actions ended.world.actions
Steps-Keeps_example =
    Steps-Keeps numbered server show-injective taken ended taken-IsInvariant to_ended

-- The cluster is down in the first attempt.
abbrev exits : ℕ → Exit
exits n = if eqb n 0 then raising (api_exception 503 "down") else returned

-- Before each attempt somebody asks for another no-op, and the broker delivers the message a second
-- time, to a worker that starts the task too.
abbrev others : ℕ → World numbered → World numbered
others n w = (before_start numbered message.action (post_no_op numbered server request w).1).1

-- The states in which the attempts start.
starts_in : ℕ → State numbered
starts_in zero = record taken { world = others 0 taken.world }
starts_in (suc n) =
    let before = begun numbered server message taken (starts_in n) in
    record before { world = others (suc n) before.world }

at_hand : (n : ℕ) → Among message (starts_in n).in_flight
unfolding starts_in
at_hand zero = here
at_hand (suc n) = at_hand n

schedule : IsSchedule numbered server message taken others starts_in
unfolding starts_in
schedule = record {
  first = one_step (posts is_no_op request) (one_step (works here starts) no_steps);
  first_world = refl;
  next = λ n. one_step (posts is_no_op request) (one_step (works (at_hand n) starts) no_steps);
  next_world = λ n. refl;
}

deliver-IsReached_example :
    (status : ActionStatus) × (result : String) × (w' : World numbered) × (deliver numbered celery 3
        exits others message.action message.kwargs 4 0 taken.world
      ≡ some w')
    × Ends 3 exits 0 status result
    × IsFinal numbered celery 3 exits others message.action message.kwargs w' status result
    × IsReached numbered server message taken w'
deliver-IsReached_example =
    deliver-IsReached numbered server message taken show-injective celery 3 exits others starts_in 4
      schedule taken-IsInvariant here (omega arith)

ready-IsInvariant : IsInvariant numbered ready
ready-IsInvariant =
    Steps-IsInvariant numbered server show-injective start ready start-IsEmpty
      (one_step (waits 9000000 (omega arith)) no_steps)

post_action-IsAnswered_example :
    (status : ActionStatus) × (result : String) × (end : World numbered) × (deliver numbered celery
        3 exits others message.action message.kwargs 4 0 taken.world
      ≡ some end)
    × Ends 3 exits 0 status result
    × IsAnswered numbered end (show 0) "alice" "no-op" status result
unfolding no_op_endpoint
post_action-IsAnswered_example =
    post_action-IsAnswered numbered server show-injective celery 3 exits others starts_in "no-op"
      (λ _. ok tt) (no_op_endpoint numbered) is_no_op request ready taken allowed alice_later tt
      no_op [] 4 ready-IsInvariant authorized refl (λ action. refl)
      (one_step (takes message [] [] posted_queue) no_steps) (inr refl) schedule (omega arith)

Step-Change_example :
    Change
      (progress message.action.action_id running)
      (lives numbered taken.world)
      (lives numbered at_work.world)
Step-Change_example =
    Step-Change numbered server show-injective {s = taken} {t = at_work} (works here starts)
      taken-IsInvariant

-- ===== src/Lib.antt =====
-- Verification of the automated-actions service: an API that lets authorized users queue actions on
-- OpenShift workloads and AWS resources, and Celery workers that carry them out. A request is
-- authenticated by an OpenID session or a bearer token, judged by the OPA policy engine, stored as
-- an action in DynamoDB, and queued as a task; the hooks of the task write its progress back.
--
-- Parts, with their code below packages/automated_actions/automated_actions where nothing else is
-- said:
--   Prelude, Dict, Text, Exec, Errors: shared operations; Python's dict and str as far as they are
--     used; code that changes a state and may raise (what was written before a raise stays).
--   Db: db/models. Dynamo is the interface that the models take of DynamoDB, Table the methods of
--     _base.py, Actions and Users those of _action.py and _user.py, World the state that API and
--     workers share. Memory is a table that meets the laws of the interface.
--   Auth: auth.py. NextUrl is _is_safe_next_url, Oidc OpenIDConnect, Bearer BearerTokenAuth and
--     get_user of api/v1/dependencies.py, Opa OPA, and Startup how these are made when the service
--     starts, in api/__init__.py.
--   Api: api/v1. Openshift, ExternalResource and General are the views, Submit shows what a request
--     for an action leaves behind.
--   Worker: celery. Task is automated_action_task.py, Delivery a task from its first attempt to its
--     end, Rds, Flush and Openshift the tasks, with aws_api.py and openshift_client.py of
--     packages/automated_actions_utils/automated_actions_utils.
--   Utils: the rest of that package. ExternalResource is external_resource.py, Vault vault_client.py,
--     Cluster cluster_connection.py, Gql gql_client.py, Job and JobWait the building of a job and
--     the wait for it in openshift_client.py.
--   Service: app_factory.py and api/__init__.py, how the API starts; Service.Schema is the schema
--     that __main__.py makes for the client.
--   System: the requests of Api and the hooks of Worker as steps over the shared state, with the
--     attempts of a task among them. System.Posts is what the requests have in common, System.Taken
--     follows a message; System.Lifecycle is the view of an action that its users have.
--   Cli: packages/automated_actions_cli/automated_actions_cli. Gssapi is _gssapi.py,
--     Commands, Run and Main are cli.py (the options and arguments of a command, its run, and the
--     callback before it), Version is utils.py, Cache is config.py with the cookies that stay from
--     run to run; the formatters of formatter.py are in Main.
--   Client: packages/automated_actions_client/automated_actions_client, the functions of client.py
--     and what they read by schemas.py. Api.Routes is the table of the routes of api/v1, and
--     Api.Matching how a path is made from a template and matched.
--   Tests: concrete tables, libraries and requests, and the results applied to them.
--
-- Times are numbers of microseconds; a token's times are seconds. FastAPI resolves the dependencies
-- of a router, then those of the endpoint, the new action among them, and validates the endpoint's
-- own parameters last, so that a request with invalid arguments leaves its action behind. The items
-- of a query string are kept in order, and the last value of a key counts, as in the code's dict.
--
-- The handshake of _gssapi.py is a value: it sends a request and goes on with whatever response
-- comes, returns a response, or raises. A version of a secret is a text, as Python's str and int
-- write and read it. The messages that wait are delivered in any order, and one that a worker has
-- taken may be delivered again at any time, as the queues of SQS do it.
--
-- Parameters of the model, with what their documentation says as laws where a result needs it:
-- DynamoDB with PynamoDB, uuid4, itsdangerous, PyJWT, URL splitting and quoting, the OpenID
-- provider, regular expressions, the OPA engine, Celery, the RDS and Kubernetes clients, hvac, the
-- answers of GraphQL queries, GSSAPI and base64, diskcache, PyPI, typer and pydantic, the shell,
-- the files of the user with MozillaCookieJar, and how clientele makes a path and FastAPI chooses a
-- route for one: only values of the characters that RFC 3986 leaves unreserved, other than "." and
-- "..", are taken to stand for themselves in a path. The exception of a task that asks for one retry
-- too many is Celery's, with a text of Celery's.
--
-- Fuel: a delivered task needs more fuel than retries are left, which is shown to be enough; the
-- wait for a job needs a round for each tick between its start and its time limit, which is enough
-- since each round sleeps. The flush waits for ten minutes, and has fuel for 602 rounds.
--
-- Not modelled: logs and metrics, failures of the database itself and reads that come before a write
-- has arrived (the models read with eventual consistency), the text that FastAPI makes of an answer
-- (which leaves out what is not set for a no-op), the wiring of Celery, the writing of the command
-- line client's output, and generated code. Two requests for the same table are taken one after the
-- other.
pub mod Prelude
pub mod Dict
pub mod Exec
pub mod Errors
pub mod Db
pub mod Text
pub mod Auth
pub mod Api
pub mod Cli
pub mod Client
pub mod Utils
pub mod Worker
pub mod Service
pub mod System
pub mod Tests

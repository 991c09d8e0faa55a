-- ===== src/Tests/Cli.antt =====
-- The theorems on the command line client at a concrete shell, server and command.
use automated_actions.Prelude.{
  ℕ, suc, ◌≡◌, refl, String, Bool, true, false, Option, none, some, List, [], ◌∷◌, ◌++◌, ◌==◌,
  if◌then◌else◌, Bool-cases, inl, inr, eq_iff,
}
use automated_actions.Dict.{Dict, lookup, has}
use automated_actions.Errors.{Exc}
use automated_actions.Exec.{Result, ok}
use automated_actions.Cli.Gssapi.{
  Gss, HttpSpnegoAuth, host_service, Request, Response, auth_flow, required,
}
use automated_actions.Cli.Gssapi.Laws.{Ends}
use automated_actions.Cli.Gssapi.Mutual.{IsTrusted, auth_flow-IsTrusted}
use automated_actions.Cli.Commands.{
  SigParameter, FieldInfo, Argument, member, plain, Passed, call_kwargs, parameters_of, Object,
  base_model, list, end, item, serialize_result,
}
use automated_actions.Cli.Commands.Laws.{elem}
use automated_actions.Cli.Commands.Results.{IsPlain}
use automated_actions.Cli.Run.{
  CallFailure, formatted, prints, show_outcome, wrapper, model_type, data_argument, ErrorResponse,
  exception_text, command_names,
}
use automated_actions.Cli.Run.Laws.{wrapper-Covers}
use automated_actions.Cli.Main.{Cli, Options, Config, S, yaml, main}
use automated_actions.Cli.Main.Laws.{IsChosen, main-IsChosen}

-- A GSSAPI whose contexts count their steps.
abbrev gss : Gss
gss = record {
  Name = Option String;
  Credentials = Unit;
  Mechanism = Unit;
  Context = ℕ;
  new_name = λ name. ok name;
  new_context = λ name creds mech flags. ok 0;
  step = λ ctx token. ok (some "token", suc ctx);
  b64decode = λ s. ok s;
  b64encode = λ s. s;
  find_auth = λ s. some s;
}

abbrev auth_of : ℕ → Bool → HttpSpnegoAuth gss
auth_of mutual_auth early = record {
  mutual_auth = mutual_auth;
  target_name = host_service "HTTP";
  delegate = false;
  opportunistic_auth = early;
  creds = none;
  mech = none;
  sanitize_mutual_error_response = true;
}

abbrev request : Request
request = record { host = "automated-actions"; headers = [] }

abbrev response : Response
response = record {
  status_code = 200;
  headers = [];
  cookies = [];
  content = "[]";
  is_stream_consumed = true;
  request = request;
  shown = "<Response [200 OK]>";
}

auth_flow-IsTrusted_example :
    Ends (IsTrusted gss (auth_of required true)) 3 (auth_flow gss (auth_of required true) request)
auth_flow-IsTrusted_example = auth_flow-IsTrusted gss (auth_of required true) refl request refl

-- The command for a token: one parameter beside the data, and two fields.
abbrev sig : List (SigParameter String String)
sig =
    record { name = "data"; annotation = "CreateTokenParam"; default = none }
    ∷ record { name = "account"; annotation = "str"; default = none }
    ∷ []

abbrev fields : List (FieldInfo String String)
fields =
    record { name = "username"; annotation = some "str"; is_required = true; default = "" }
    ∷ record { name = "email"; annotation = none; is_required = false; default = "" }
    ∷ []

abbrev kwargs : Dict (Argument String)
kwargs = ("username", plain "bob") ∷ ("account", member "acme") ∷ ("email", plain "") ∷ []

abbrev field_list : List String
field_list = "username" ∷ "email" ∷ []

fields-apart : (k : String) → elem k field_list ≡ true → elem k ("data" ∷ "account" ∷ []) ≡ false
fields-apart k h = elim (Bool-cases ("username" == k)) [
  | inl e ↦ rw (← (eq_iff _ _).0 e) refl
  | inr e ↦ elim (Bool-cases ("email" == k)) [
    | inl g ↦ rw (← (eq_iff _ _).0 g) refl
    | inr g ↦ absurd (clash (rw (e, g) at h))
  ]
]
  where
    clash : false ≡ true → ⊥
    clash x = cc

given_options : (k : String) → has k kwargs ≡ elem k ("username" ∷ "email" ∷ "account" ∷ [])
unfolding lookup
given_options k = elim (Bool-cases ("username" == k)) [
  | inl e ↦ rw e refl
  | inr e ↦ elim (Bool-cases ("email" == k)) [
    | inl g ↦ rw (← (eq_iff _ _).0 g) refl
    | inr g ↦ elim (Bool-cases ("account" == k)) [
      | inl a ↦ rw (e, g, a) refl
      | inr a ↦ rw (e, g, a) refl
    ]
  ]
]

-- A function of the client that answers with a list of one model.
abbrev func : Dict (Passed String (Dict String)) → Result CallFailure (Object String)
func given = ok (list (item (base_model "token") end))

wrapper-Covers_example :
    (given : Dict (Passed String (Dict String))) × (result : Object String) × ((k : String)
      → has k given ≡ elem k ("data" ∷ "account" ∷ []))
    × (func given ≡ ok result)
    × IsPlain (serialize_result result)
    × ((wrapper (data_argument (some (model_type field_list (λ got. ok got)))) func kwargs []).1
        ≡ ([] ++ formatted (serialize_result result) ∷ []))
unfolding wrapper show_outcome prints data_argument call_kwargs parameters_of lookup
wrapper-Covers_example =
    wrapper-Covers "str" [] sig fields (λ got. ok got) func kwargs [] refl fields-apart
      given_options refl

-- An error response without a message of its own is shown by its status and its detail.
abbrev forbidden : ErrorResponse
forbidden = record { status_code = 403; text = "{}"; detail = some (some "not yours") }

exception_text-detail :
    exception_text "HTTPStatusError" "" (some forbidden) ≡ "HTTPStatusError: HTTP 403: not yours"
unfolding exception_text
exception_text-detail = refl

command_names-public :
    command_names ("_get" ∷ "create_token" ∷ "me" ∷ []) ≡ "create_token" ∷ "me" ∷ []
unfolding command_names
command_names-public = refl

abbrev cli : Cli
cli = record {
  shell = record {
    World = ℕ;
    which = λ name. none;
    run = λ command s. (ok true, s);
    called_process_error = Exc.library "CalledProcessError";
  };
  Cookies = Unit;
  load_cookies = λ s. (ok tt, s);
  is_outdated = λ s. (ok true, s);
  environ = λ name. if name == "AA_TOKEN" then some "t-1" else none;
  argv = "automated-actions" ∷ "no-op" ∷ [];
  with_svg = λ file. file;
  me = λ config s. (ok tt, suc s);
}

abbrev options : Options
options = record {
  url = "https://aa";
  debug = false;
  screen_capture_file = none;
  quiet = false;
  output = yaml;
  color = true;
}

abbrev session : S cli
session = record { world = 0; client = none; formatter = none; events = [] }

main-IsChosen_example :
    (c : Option (Config (Unit {0}))) × (w : ℕ) × IsChosen cli "https://aa" c
    × ((cli.me c w).0 ≡ ok tt)
unfolding main
main-IsChosen_example = main-IsChosen cli options session refl refl

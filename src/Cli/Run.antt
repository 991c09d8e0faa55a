-- ===== src/Cli/Run.antt =====
-- cli.py: how a command runs, which commands there are, and what is printed of an exception. The
-- function of the client and the response of an exception are parameters.
pub mod Laws
use text.Mathlib.Text.{starts_with}
use automated_actions.Prelude.{
  ℕ, String, not, Option, none, some, List, [], ◌∷◌, ◌++◌, ◌==◌, keep, get_or, if◌then◌else◌,
}
use automated_actions.Dict.{Dict}
use automated_actions.Text.{◌+++◌}
use automated_actions.Text.Decimal.{show}
use automated_actions.Errors.{Exc, raised, cli_exit}
use automated_actions.Exec.{Exec, Result, ok, err, raise, lift, modify, ◌>>=◌, ◌>>◌}
use automated_actions.Cli.Commands.{
  Argument, Passed, Object, DataArgument, without_data, always_none, from_fields, call_kwargs,
  serialize_result,
}

-- The annotation of the parameter "data": None, a pydantic model with its fields, or another one.
pub data DataHint (V Model : Type 0) : Type 0 where
  none_type other_type : DataHint V Model
  model_type : List String → (Dict V → Result Exc Model) → DataHint V Model

-- `skip_data` and `data_model` of `_register_client_command`; a missing parameter has no hint.
unfoldable pub data_argument : {V Model : Type 0} → Option (DataHint V Model) → DataArgument V Model
data_argument none = without_data
data_argument (some none_type) = always_none
data_argument (some other_type) = without_data
data_argument (some (model_type fields model)) = from_fields fields model

-- The names of the client's functions that become commands.
unfoldable pub command_names : List String → List String
unfolding keep
command_names functions = keep (λ name. not (starts_with name "_")) functions

-- An exception of the call: with a response, of which the text is shown, or without.
pub data CallFailure : Type 0 where
  with_response : (text : String) → CallFailure
  without_response : Exc → CallFailure

-- What a command prints: a text to the standard error, or what the formatter is given.
pub data Printed (Json : Type 0) : Type 0 where
  to_stderr : String → Printed Json
  formatted : Object Json → Printed Json

module _ {Json : Type 0} where
  unfoldable pub prints : Printed Json → Exec (List (Printed Json)) Exc (Unit {0})
  prints p = modify λ printed. printed ++ p ∷ []

  unfoldable pub show_outcome :
      Result CallFailure (Object Json) → Exec (List (Printed Json)) Exc (Unit {0})
  unfolding prints serialize_result
  show_outcome (ok result) = prints (formatted (serialize_result result))
  show_outcome (err (without_response e)) = raise e
  show_outcome (err (with_response text)) = do prints (to_stderr text); raise (raised cli_exit "1")

module _ {V Model Json : Type 0} where
  -- `wrapper`: the model of the data is made outside of the `try`.
  unfoldable pub wrapper :
      DataArgument V Model
      → (Dict (Passed V Model) → Result CallFailure (Object Json))
      → Dict (Argument V)
      → Exec (List (Printed Json)) Exc (Unit {0})
  unfolding call_kwargs show_outcome
  wrapper takes func kwargs = do call ← lift (call_kwargs takes kwargs); show_outcome (func call)

-- The response of an exception, as the exception hook reads it: the status code, the text, and the
-- item "detail" of its JSON; `none` where the JSON cannot be read or is no object.
pub record ErrorResponse : Type 0 where
  pub status_code : ℕ
  pub text : String
  pub detail : Option (Option String)

detail_of : ErrorResponse → String
detail_of response = elim response.detail [ none ↦ response.text | some d ↦ get_or d response.text ]

-- The text that `no_traceback_exception_hook` prints, for the name of the class, `str` of the
-- exception, and its response, if it has one.
unfoldable pub exception_text : String → String → Option ErrorResponse → String
unfolding detail_of show
exception_text class msg none = class +++ ": " +++ msg
exception_text class msg (some response) =
    class
    +++ ": "
    +++ (if msg == ""
        then "HTTP " +++ show response.status_code +++ ": " +++ detail_of response
        else msg)

-- ===== src/Cli/Run/Laws.antt =====
-- What a command has done that ends without an exception: `wrapper` of cli.py.
use automated_actions.Prelude.{
  ◌≡◌, refl, sym, ap, ◌∙◌, String, true, false, List, [], ◌∷◌, ◌++◌, some,
}
use automated_actions.Dict.{Dict, has}
use automated_actions.Errors.{Exc}
use automated_actions.Exec.{Result, ok, err, lift, bind-ok, bind-step, ok-ne-err}
use automated_actions.Cli.Commands.{
  SigParameter, FieldInfo, Argument, Passed, Object, DataArgument, from_fields, parameters_of,
  call_kwargs, serialize_result,
}
use automated_actions.Cli.Commands.Laws.{elem}
use automated_actions.Cli.Commands.Options.{sig_names, field_names, names, call_kwargs_covers}
use automated_actions.Cli.Commands.Results.{IsPlain, serialize_result_lem}
use automated_actions.Cli.Run.{
  CallFailure, with_response, without_response, Printed, formatted, prints, show_outcome, wrapper,
  model_type, data_argument,
}

show_outcome-ok :
    {Json : Type 0} (r : Result CallFailure (Object Json)) (printed : List (Printed Json))
    → (show_outcome r printed).0 ≡ ok tt
    → (result : Object Json) × (r ≡ ok result)
      × ((show_outcome r printed).1 ≡ (printed ++ formatted (serialize_result result) ∷ []))
unfolding show_outcome prints
show_outcome-ok (ok result) printed h = (result, refl, refl)
show_outcome-ok (err (without_response e)) printed h = absurd (ok-ne-err (sym h))
show_outcome-ok (err (with_response text)) printed h = absurd (ok-ne-err (sym h))

module _ {V Model Json : Type 0} where
  wrapper-ok :
      (takes : DataArgument V Model)
      (func : Dict (Passed V Model) → Result CallFailure (Object Json)) (kwargs : Dict (Argument V))
      (printed : List (Printed Json))
      → (wrapper takes func kwargs printed).0 ≡ ok tt
      → (call : Dict (Passed V Model)) × (result : Object Json) × (call_kwargs takes kwargs
          ≡ ok call)
        × (func call ≡ ok result)
        × ((wrapper takes func kwargs printed).1
            ≡ (printed ++ formatted (serialize_result result) ∷ []))
  unfolding wrapper
  wrapper-ok takes func kwargs printed h =
      let (call, given, h1) = bind-ok (lift (call_kwargs takes kwargs)) _ printed h in
      let (result, is_result, shown) = show_outcome-ok (func call) printed h1 in
      (
        call,
        result,
        given,
        is_result,
        ap (λ r. r.1) (bind-step (lift (call_kwargs takes kwargs)) _ printed call given) ∙ shown,
      )

  -- A command whose options are the parameters of the client's function, with those of the data's
  -- fields in place of the data, and that ends without an exception: it has called the function
  -- with exactly its parameters, the call returned, and the one thing that the command printed is
  -- what the call returned with its pydantic models dumped, at any depth of its lists. The options
  -- that typer passes are those of the command, and no field is named like a parameter.
  pub wrapper-Covers :
      {A : Type 0} (str : A) (hints : Dict A) (sig : List (SigParameter A V))
      (fields : List (FieldInfo A V)) (model : Dict V → Result Exc Model)
      (func : Dict (Passed V Model) → Result CallFailure (Object Json)) (kwargs : Dict (Argument V))
      (printed : List (Printed Json))
      → elem "data" (sig_names str hints sig) ≡ true
      → ((k : String)
          → elem k (field_names str hints fields) ≡ true
          → elem k (sig_names str hints sig) ≡ false)
      → ((k : String)
          → has k kwargs ≡ elem k (names str hints (parameters_of str hints (some fields) sig)))
      → (wrapper
          (data_argument (some (model_type (field_names str hints fields) model)))
          func
          kwargs
          printed).0
        ≡ ok tt
      → (call : Dict (Passed V Model)) × (result : Object Json) × ((k : String)
          → has k call ≡ elem k (sig_names str hints sig))
        × (func call ≡ ok result)
        × IsPlain (serialize_result result)
        × ((wrapper
              (data_argument (some (model_type (field_names str hints fields) model)))
              func
              kwargs
              printed).1
            ≡ (printed ++ formatted (serialize_result result) ∷ []))
  unfolding data_argument
  wrapper-Covers str hints sig fields model func kwargs printed takes_data apart given h =
      let (call, result, is_call, is_result, shown) =
        wrapper-ok (from_fields (field_names str hints fields) model) func kwargs printed h in
      (
        call,
        result,
        call_kwargs_covers str hints sig fields model kwargs call takes_data apart given is_call,
        is_result,
        (serialize_result_lem result).0,
        shown,
      )

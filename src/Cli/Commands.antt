-- ===== src/Cli/Commands.antt =====
-- cli.py: a command is made of each function of the client, and its options become the arguments
-- of the call. pydantic and typer are parameters: values, annotations, and a model's constructor.
pub mod Laws
pub mod Options
pub mod Results
use automated_actions.Prelude.{
  String, Bool, true, false, ◌||◌, Option, none, some, List, [], ◌∷◌, ◌++◌, map, get_or, ◌==◌,
  if◌then◌else◌, any,
}
use automated_actions.Dict.{Dict, lookup, insert, update, without}
use automated_actions.Errors.{Exc}
use automated_actions.Exec.{Result, ok, err, and_then}
use text.Mathlib.Text.{starts_with}

-- `inspect.Parameter` of the client's function: `none` is a missing default.
pub record SigParameter (A V : Type 0) : Type 0 where
  pub name : String
  pub annotation : A
  pub default : Option V

-- A field of a pydantic model.
pub record FieldInfo (A V : Type 0) : Type 0 where
  pub name : String
  pub annotation : Option A
  pub is_required : Bool
  pub default : V

pub data Kind : Type 0 where
  positional_or_keyword keyword_only : Kind

-- `typer.Context`, `Annotated[…, typer.Option()]`, and None
pub data Annotation (A : Type 0) : Type 0 where
  context nothing : Annotation A
  option : A → Annotation A

pub record Parameter (A V : Type 0) : Type 0 where
  pub name : String
  pub kind : Kind
  pub default : Option V
  pub annotation : Annotation A

-- A value of a keyword argument: a member of an Enum, with its value, or anything else.
pub data Argument (V : Type 0) : Type 0 where
  member plain : V → Argument V

-- What the function is called with.
pub data Passed (V Model : Type 0) : Type 0 where
  value : V → Passed V Model
  no_data : Passed V Model
  data_of : Model → Passed V Model

module _ {A V : Type 0} (str : A) where
  field_parameter : FieldInfo A V → Parameter A V
  field_parameter field = record {
    name = field.name;
    kind = keyword_only;
    default = if field.is_required then none else some field.default;
    annotation = option (get_or field.annotation str);
  }

  sig_parameter : Dict A → SigParameter A V → Parameter A V
  unfolding lookup
  sig_parameter hints p = record {
    name = p.name;
    kind = keyword_only;
    default = p.default;
    annotation = option (get_or (lookup p.name hints) p.annotation);
  }

  -- The fields of the model, if there is one.
  unfoldable pub field_parameters : Option (List (FieldInfo A V)) → List (Parameter A V)
  unfolding field_parameter
  field_parameters none = []
  field_parameters (some fields) = map field_parameter fields

  -- The loop of `_build_typer_params`
  unfoldable pub parameters_of :
      Dict A → Option (List (FieldInfo A V)) → List (SigParameter A V) → List (Parameter A V)
  unfolding field_parameters sig_parameter
  parameters_of hints model [] = []
  parameters_of hints model (p ∷ ps) =
      let rest = parameters_of hints model ps in
      if p.name == "data" then field_parameters model ++ rest else sig_parameter hints p ∷ rest

  -- `_build_typer_params`
  unfoldable pub build_typer_params :
      List (SigParameter A V)
      → Dict A
      → Option (List (FieldInfo A V))
      → List (Parameter A V) × Dict (Annotation A)
  unfolding parameters_of update
  build_typer_params sig hints model =
      let params = parameters_of hints model sig in
      (
        record { name = "ctx"; kind = positional_or_keyword; default = none; annotation = context }
            ∷ params,
        update (("ctx", context) ∷ ("return", nothing) ∷ [])
            (map (λ (p : Parameter A V). (p.name, p.annotation)) params),
      )

-- What the client's function takes as its data: nothing, None, or a model with its fields.
pub data DataArgument (V Model : Type 0) : Type 0 where
  without_data always_none : DataArgument V Model
  from_fields : List String → (Dict V → Result Exc Model) → DataArgument V Model

module _ {V : Type 0} where
  -- `v.value if isinstance(v, enum.Enum) else v`
  unfoldable pub plain_value : Argument V → V
  plain_value (member v) = v
  plain_value (plain v) = v

  -- The first dict comprehension of `wrapper`
  unfoldable pub plain_values : Dict (Argument V) → Dict V
  unfolding plain_value
  plain_values [] = []
  plain_values ((k, v) ∷ kwargs) = (k, plain_value v) ∷ plain_values kwargs

  -- `{f: call_kwargs.pop(f) for f in … if f in call_kwargs}`, and what is left of the dict.
  unfoldable pub pop_fields : List String → Dict V → Dict V × Dict V
  unfolding lookup without
  pop_fields [] kwargs = ([], kwargs)
  pop_fields (f ∷ fields) kwargs = elim (lookup f kwargs) [
    | none ↦ pop_fields fields kwargs
    | some v ↦ let popped = pop_fields fields (without f kwargs) in ((f, v) ∷ popped.0, popped.1)
  ]

  unfoldable pub values_of : {Model : Type 0} → Dict V → Dict (Passed V Model)
  values_of [] = []
  values_of ((k, v) ∷ kwargs) = (k, value v) ∷ values_of kwargs

  -- `call_kwargs` at the call of the client's function.
  unfoldable pub call_kwargs :
      {Model : Type 0}
      → DataArgument V Model
      → Dict (Argument V)
      → Result Exc (Dict (Passed V Model))
  unfolding plain_values pop_fields values_of insert
  call_kwargs without_data kwargs = ok (values_of (plain_values kwargs))
  call_kwargs always_none kwargs = ok (insert "data" no_data (values_of (plain_values kwargs)))
  call_kwargs (from_fields fields model) kwargs =
      let popped = pop_fields fields (plain_values kwargs) in
      and_then (model popped.0) λ made. ok (insert "data" (data_of made) (values_of popped.1))

-- `_get_help_panel`
unfoldable pub get_help_panel : String → String
get_help_panel name =
    if (starts_with name "external_resource_" || starts_with name "openshift_") || (name == "no_op")
    then "Actions"
    else if name == "create_token"
    then "Admin"
    else "General"

-- What a call returns: a pydantic model, with what it dumps to, a list, or anything else; and what
-- is formatted of it.
mutual
  pub data Object (Json : Type 0) : Type 0 where
    base_model other : Json → Object Json
    list : Objects Json → Object Json

  pub data Objects (Json : Type 0) : Type 0 where
    end : Objects Json
    item : Object Json → Objects Json → Objects Json

unfoldable mutual
  -- `_serialize_result`
  pub serialize_result : {Json : Type 0} → Object Json → Object Json
  serialize_result (base_model dumped) = Object.other dumped
  serialize_result (Object.other o) = Object.other o
  serialize_result (list items) = list (serialize_items items)

  pub serialize_items : {Json : Type 0} → Objects Json → Objects Json
  serialize_items end = end
  serialize_items (item o items) = item (serialize_result o) (serialize_items items)

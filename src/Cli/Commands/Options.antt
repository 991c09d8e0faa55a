-- ===== src/Cli/Commands/Options.antt =====
-- The options of a command, and the arguments that its function is called with: _build_typer_params
-- and the wrapper of cli.py together.
use automated_actions.Prelude.{
  String, ◌≡◌, refl, ap, ◌∙◌, inl, inr, Bool, true, false, not, ◌&&◌, ◌||◌, Option, none, some,
  List, [], ◌∷◌, ◌++◌, map, ◌==◌, if◌then◌else◌, is_some, Bool-cases, eq_iff, arith,
}
use automated_actions.Dict.{Dict, lookup, has}
use automated_actions.Errors.{Exc}
use automated_actions.Exec.{Result, ok}
use automated_actions.Cli.Commands.{
  SigParameter, FieldInfo, Parameter, Argument, Passed, data_of, parameters_of, field_parameters,
  plain_values, from_fields, call_kwargs,
}
use automated_actions.Cli.Commands.Laws.{elem, has-plain_values, passed_value, call_kwargs-ok}

same_key : (k name : String) → (name == "data") ≡ true → (name == k) ≡ ("data" == k)
same_key k name e = rw ((eq_iff name "data").0 e) refl

flipped : (name : String) → (name == "data") ≡ false → ("data" == name) ≡ false
flipped name e = ground (arith, eq_iff name "data", eq_iff "data" name)

later_key :
    (k name : String) → (name == "data") ≡ false → (name == k) ≡ true → ("data" == k) ≡ false
later_key k name e h = rw (← (eq_iff name k).0 h) (flipped name e)

data_first :
    (here there found f s d is_data : Bool)
    → found ≡ is_data
    → here ≡ f
    → there ≡ ((not is_data && s) || (d && f))
    → (here || there) ≡ ((not is_data && (if found then true else s)) || f)
data_first here there found f s d is_data h e g = ground arith

data_later :
    (found s f is_data d : Bool)
    → (found ≡ true → is_data ≡ false)
    → d ≡ ((not is_data && s) || f)
    → (if found then true else d) ≡ ((not is_data && (if found then true else s)) || f)
data_later found s f is_data d h e = ground arith

balanced :
    (is_data d s f o : Bool)
    → d ≡ true
    → (is_data ≡ true → s ≡ true)
    → (f ≡ true → s ≡ false)
    → o ≡ ((not is_data && s) || (d && f))
    → (is_data || (not f && o)) ≡ s
balanced is_data d s f o is_true shared apart h = ground arith

module _ {A V : Type 0} (str : A) (hints : Dict A) where
  -- The names of the parameters of a signature, of fields, and of a command's parameters.
  abbrev pub sig_names : List (SigParameter A V) → List String
  sig_names sig = map (λ (p : SigParameter A V). p.name) sig

  abbrev pub field_names : List (FieldInfo A V) → List String
  field_names fields = map (λ (f : FieldInfo A V). f.name) fields

  abbrev pub names : List (Parameter A V) → List String
  names params = map (λ (p : Parameter A V). p.name) params

  elem-++ :
      (k : String) (ps qs : List (Parameter A V))
      → elem k (names (ps ++ qs)) ≡ (elem k (names ps) || elem k (names qs))
  elem-++ k [] qs = refl
  elem-++ k (p ∷ ps) qs = ground (arith, elem-++ k ps qs)

  elem-field_parameters :
      (k : String) (fields : List (FieldInfo A V))
      → elem k (names (field_parameters str (some fields))) ≡ elem k (field_names fields)
  unfolding field_parameters
  elem-field_parameters k [] = refl
  elem-field_parameters k (f ∷ fields) = ground (arith, elem-field_parameters k fields)

  elem-parameters_of :
      (k : String) (fields : List (FieldInfo A V)) (sig : List (SigParameter A V))
      → elem k (names (parameters_of str hints (some fields) sig)) ≡ (
          (not ("data" == k) && elem k (sig_names sig))
          || (elem "data" (sig_names sig) && elem k (field_names fields)))
  unfolding parameters_of
  elem-parameters_of k fields [] = ground arith
  elem-parameters_of k fields (p ∷ sig) = elim (Bool-cases (p.name == "data")) [
    | inl e ↦ rw e (
        elem-++ k (field_parameters str (some fields)) (parameters_of str hints (some fields) sig)
        ∙ data_first _ _ _ _ _ _ _ (same_key k p.name e) (elem-field_parameters k fields)
            (elem-parameters_of k fields sig))
    | inr e ↦ rw e (data_later _ _ _ _ _ (later_key k p.name e) (elem-parameters_of k fields sig))
  ]

  -- The test for a key, by where its value comes from.
  has_passed :
      {M : Type 0} (b c : Bool) (m : M) (o : Option V)
      → is_some (if b then some (data_of m) else if c then none else passed_value o)
        ≡ (b || (not c && is_some o))
  unfolding passed_value
  has_passed true c m o = refl
  has_passed false true m o = refl
  has_passed false false m none = refl
  has_passed false false m (some v) = refl

  data_is :
      (k : String) (sig : List (SigParameter A V))
      → elem "data" (sig_names sig) ≡ true
      → ("data" == k) ≡ true
      → elem k (sig_names sig) ≡ true
  data_is k sig h e = rw (← (eq_iff "data" k).0 e) h

  -- A command whose options are the parameters of the client's function, with those of the data's
  -- fields in place of the data, calls that function with exactly its parameters: where the options
  -- that typer passes are those of the command, and no field is named like a parameter.
  pub call_kwargs_covers :
      {M : Type 0} (sig : List (SigParameter A V)) (fields : List (FieldInfo A V))
      (model : Dict V → Result Exc M) (kwargs : Dict (Argument V)) (call : Dict (Passed V M))
      → elem "data" (sig_names sig) ≡ true
      → ((k : String) → elem k (field_names fields) ≡ true → elem k (sig_names sig) ≡ false)
      → ((k : String) → has k kwargs ≡ elem k (names (parameters_of str hints (some fields) sig)))
      → call_kwargs (from_fields (field_names fields) model) kwargs ≡ ok call
      → (k : String) → has k call ≡ elem k (sig_names sig)
  call_kwargs_covers sig fields model kwargs call takes_data apart given h k =
      let (got, made, is_made, values) = call_kwargs-ok (field_names fields) model kwargs call h in
      ap is_some (values k).1
      ∙ (has_passed ("data" == k) (elem k (field_names fields)) made
            (lookup k (plain_values kwargs))
          ∙ balanced ("data" == k) (elem "data" (sig_names sig)) (elem k (sig_names sig))
              (elem k (field_names fields)) (has k (plain_values kwargs)) takes_data
              (data_is k sig takes_data) (apart k)
              (has-plain_values k kwargs ∙ (given k ∙ elem-parameters_of k fields sig)))

-- ===== src/Cli/Commands/Laws.antt =====
-- Which arguments the function of a command is called with.
use automated_actions.Prelude.{
  String, ◌≡◌, refl, sym, ap, ◌∙◌, inl, inr, Bool, Option, none, some, List, [], ◌∷◌, ◌==◌,
  if◌then◌else◌, any, Bool-cases, Option-cases, eq_iff, arith,
}
use automated_actions.Dict.{Dict, lookup, insert, without, has, lookup-insert, lookup-without}
use automated_actions.Errors.{Exc}
use automated_actions.Exec.{Result, ok, and_then-ok, ok-injective}
use automated_actions.Cli.Commands.{
  Argument, Passed, value, data_of, plain_values, pop_fields, values_of, from_fields, call_kwargs,
}

-- `k in names`
abbrev pub elem : String → List String → Bool
elem k names = any (λ name. name == k) names

module _ {V : Type 0} where
  pop_missing :
      (f : String) (fields : List String) (kwargs : Dict V)
      → lookup f kwargs ≡ none
      → pop_fields (f ∷ fields) kwargs ≡ pop_fields fields kwargs
  unfolding pop_fields
  pop_missing f fields kwargs e = rw (pop_fields, e) refl

  pop_found :
      (f : String) (fields : List String) (kwargs : Dict V) (v : V)
      → lookup f kwargs ≡ some v
      → pop_fields (f ∷ fields) kwargs ≡ (
        (f, v) ∷ (pop_fields fields (without f kwargs)).0,
        (pop_fields fields (without f kwargs)).1,
      )
  unfolding pop_fields
  pop_found f fields kwargs v e = rw (pop_fields, e) refl

  missing_is :
      (f k : String) (kwargs : Dict V) → lookup f kwargs ≡ none → f ≡ k → lookup k kwargs ≡ none
  missing_is f k kwargs h e = rw (← e) h

  found_is :
      (f k : String) (kwargs : Dict V) (v : V)
      → lookup f kwargs ≡ some v
      → f ≡ k
      → lookup k kwargs ≡ some v
  found_is f k kwargs v h e = rw (← e) h

  lookup-pop_fields :
      (k : String) (fields : List String) (kwargs : Dict V)
      → lookup k (pop_fields fields kwargs).1 ≡ (if elem k fields then none else lookup k kwargs)
  unfolding pop_fields
  lookup-pop_fields k [] kwargs = refl
  lookup-pop_fields k (f ∷ fields) kwargs = elim (Option-cases (lookup f kwargs)) [
    | inl e ↦
        rw (pop_missing f fields kwargs e)
          (ground (arith, eq_iff f k, missing_is f k kwargs e, lookup-pop_fields k fields kwargs))
    | inr (v, e) ↦
        rw (pop_found f fields kwargs v e)
          (ground (arith, lookup-pop_fields k fields (without f kwargs), lookup-without f k kwargs))
  ]

  lookup-popped :
      (k : String) (fields : List String) (kwargs : Dict V)
      → lookup k (pop_fields fields kwargs).0 ≡ (if elem k fields then lookup k kwargs else none)
  unfolding pop_fields lookup
  lookup-popped k [] kwargs = refl
  lookup-popped k (f ∷ fields) kwargs = elim (Option-cases (lookup f kwargs)) [
    | inl e ↦
        rw (pop_missing f fields kwargs e)
          (ground (arith, eq_iff f k, missing_is f k kwargs e, lookup-popped k fields kwargs))
    | inr (v, e) ↦ rw (pop_found f fields kwargs v e) (
        ground (
          arith,
          eq_iff f k,
          found_is f k kwargs v e,
          lookup-popped k fields (without f kwargs),
          lookup-without f k kwargs,
        ))
  ]

  -- `call_kwargs.get(k)` for a value that is passed on
  unfoldable pub passed_value : {M : Type 0} → Option V → Option (Passed V M)
  passed_value none = none
  passed_value (some v) = some (value v)

  lookup-values_of :
      {M : Type 0} (k : String) (kwargs : Dict V)
      → lookup k (values_of {Model = M} kwargs) ≡ passed_value (lookup k kwargs)
  unfolding values_of lookup passed_value
  lookup-values_of k [] = refl
  lookup-values_of k ((j, v) ∷ kwargs) = elim (Bool-cases (j == k)) [
    | inl e ↦ rw e refl
    | inr e ↦ rw e (lookup-values_of k kwargs)
  ]

  lookup-call :
      {M : Type 0} (fields : List String) (kwargs : Dict V) (made : M) (k : String)
      → lookup k (insert "data" (data_of made) (values_of (pop_fields fields kwargs).1)) ≡ (
          if "data" == k
          then some (data_of made)
          else if elem k fields
          then none
          else passed_value (lookup k kwargs))
  unfolding passed_value
  lookup-call fields kwargs made k =
      rw (lookup-insert, lookup-values_of, lookup-pop_fields) (ground arith)

  pub has-plain_values :
      (k : String) (kwargs : Dict (Argument V)) → has k (plain_values kwargs) ≡ has k kwargs
  unfolding plain_values lookup
  has-plain_values k [] = refl
  has-plain_values k ((j, v) ∷ kwargs) = elim (Bool-cases (j == k)) [
    | inl e ↦ rw e refl
    | inr e ↦ rw e (has-plain_values k kwargs)
  ]

  -- The call of a function with data: the model is made of the values of its fields, whichever are
  -- given, the function gets the model as its data, none of the fields, and all other values.
  pub call_kwargs-ok :
      {M : Type 0} (fields : List String) (model : Dict V → Result Exc M)
      (kwargs : Dict (Argument V)) (call : Dict (Passed V M))
      → call_kwargs (from_fields fields model) kwargs ≡ ok call
      → (got : Dict V) × (made : M) × (model got ≡ ok made)
        × ((k : String)
            → (lookup k got ≡ (if elem k fields then lookup k (plain_values kwargs) else none))
              × (lookup k call ≡ (
                  if "data" == k
                  then some (data_of made)
                  else if elem k fields
                  then none
                  else passed_value (lookup k (plain_values kwargs)))))
  unfolding call_kwargs
  call_kwargs-ok fields model kwargs call h =
      let popped = pop_fields fields (plain_values kwargs) in
      let (made, is_made, h') = and_then-ok (model popped.0) _ h in
      (
        popped.0,
        made,
        is_made,
        λ k. (
          lookup-popped k fields (plain_values kwargs),
          ap (lookup k) (sym (ok-injective h')) ∙ lookup-call fields (plain_values kwargs) made k,
        ),
      )

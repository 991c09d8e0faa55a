-- ===== src/Service/Schema.antt =====
-- `custom_openapi` of packages/automated_actions/automated_actions/__main__.py: the schema that the
-- client is generated from. What FastAPI generates is a parameter.
use automated_actions.Prelude.{
  String, ◌≡◌, refl, inl, inr, Bool-cases, Option, none, some, [], ◌∷◌, ◌==◌, if◌then◌else◌, arith,
}
use automated_actions.Dict.{Dict, lookup, without, lookup-without}

-- An operation with its responses by status code, if it names any, and what else it has.
pub record Operation (Response Rest : Type 0) : Type 0 where
  pub responses : Option (Dict Response)
  pub rest : Rest

-- The schema: the operations by path and method, and what else it has.
pub record OpenApi (Response Rest Info : Type 0) : Type 0 where
  pub paths : Dict (Dict (Operation Response Rest))
  pub info : Info

-- `for v in d.values(): …`, where what is done writes the value anew.
module _ {V : Type 0} where
  unfoldable pub each_value : (V → V) → Dict V → Dict V
  each_value f [] = []
  each_value f ((k, v) ∷ d) = (k, f v) ∷ each_value f d

  abbrev map_value : (V → V) → Option V → Option V
  map_value f none = none
  map_value f (some v) = some (f v)

  lookup-each_value :
      (f : V → V) (k : String) (d : Dict V) → lookup k (each_value f d) ≡ map_value f (lookup k d)
  unfolding lookup each_value
  lookup-each_value f k [] = refl
  lookup-each_value f k ((j, v) ∷ d) = ground (arith, lookup-each_value f k d)

-- `if "422" in responses: del responses["422"]`; without responses there is nothing to delete.
unfoldable pub delete_422 : {Response : Type 0} → Option (Dict Response) → Option (Dict Response)
delete_422 none = none
delete_422 (some responses) = some (without "422" responses)

module _ {Response : Type 0} where
  -- The response of an operation for a code.
  abbrev at_code : String → Option (Dict Response) → Option Response
  at_code code none = none
  at_code code (some responses) = lookup code responses

  abbrev unless_422 : String → Option Response → Option Response
  unless_422 code response = if "422" == code then none else response

  unless-none : (code : String) → none ≡ unless_422 code none
  unless-none code = elim (Bool-cases ("422" == code)) [ inl e ↦ rw e refl | inr e ↦ rw e refl ]

  at_code-delete_422 :
      (code : String) (o : Option (Dict Response))
      → at_code code (delete_422 o) ≡ unless_422 code (at_code code o)
  unfolding delete_422
  at_code-delete_422 code none = unless-none code
  at_code-delete_422 code (some responses) = lookup-without "422" code responses

module _ {Response Rest : Type 0} where
  -- The body of the loops of `custom_openapi`
  unfoldable pub without_422 : Operation Response Rest → Operation Response Rest
  unfolding delete_422
  without_422 operation = record operation { responses = delete_422 operation.responses }

  abbrev at_operation : String → Option (Operation Response Rest) → Option Response
  at_operation code none = none
  at_operation code (some operation) = at_code code operation.responses

  abbrev pub at_path : String → String → Option (Dict (Operation Response Rest)) → Option Response
  at_path method code none = none
  at_path method code (some operations) = at_operation code (lookup method operations)

  at_operation-without_422 :
      (code : String) (o : Option (Operation Response Rest))
      → at_operation code (map_value without_422 o) ≡ unless_422 code (at_operation code o)
  unfolding without_422
  at_operation-without_422 code none = unless-none code
  at_operation-without_422 code (some operation) = at_code-delete_422 code operation.responses

  at_path-each_value :
      (method code : String) (o : Option (Dict (Operation Response Rest)))
      → at_path method code (map_value (each_value without_422) o)
        ≡ unless_422 code (at_path method code o)
  at_path-each_value method code none = unless-none code
  at_path-each_value method code (some operations) =
      rw (lookup-each_value without_422 method operations)
        (at_operation-without_422 code (lookup method operations))

module _ {Response Rest Info : Type 0} where
  -- `custom_openapi`, with what FastAPI generates, and the schema that is kept in the application.
  unfoldable pub custom_openapi :
      OpenApi Response Rest Info
      → Option (OpenApi Response Rest Info)
      → OpenApi Response Rest Info × Option (OpenApi Response Rest Info)
  unfolding each_value without_422
  custom_openapi generated (some kept) = (kept, some kept)
  custom_openapi generated none =
      let schema = record generated {
        paths = each_value (each_value without_422) generated.paths;
      } in
      (schema, some schema)

  -- The schema names the generated responses of each operation but 422, and is made once.
  custom_openapi_lem :
      (generated other : OpenApi Response Rest Info) (path method code : String)
      → (at_path method code (lookup path (custom_openapi generated none).0.paths)
          ≡ (if "422" == code then none else at_path method code (lookup path generated.paths)))
        × (custom_openapi other (custom_openapi generated none).1 ≡ custom_openapi generated none)
  unfolding custom_openapi
  custom_openapi_lem generated other path method code = (
    rw (lookup-each_value (each_value without_422) path generated.paths)
        (at_path-each_value method code (lookup path generated.paths)),
    refl,
  )

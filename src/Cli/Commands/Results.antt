-- ===== src/Cli/Commands/Results.antt =====
-- What is printed of a result: _serialize_result of cli.py.
use automated_actions.Prelude.{◌≡◌, refl, ap}
use automated_actions.Cli.Commands.{
  Object, Objects, base_model, list, end, item, serialize_result, serialize_items,
}

-- An object in which no pydantic model is left, and a list of such objects.
mutual
  pub data IsPlain {Json : Type 0} : Object Json → Type 0 where
    other_plain : {o : Json} → IsPlain (Object.other o)
    list_plain : {items : Objects Json} → ArePlain items → IsPlain (list items)

  pub data ArePlain {Json : Type 0} : Objects Json → Type 0 where
    end_plain : ArePlain end
    item_plain :
        {o : Object Json} {items : Objects Json}
        → IsPlain o
        → ArePlain items
        → ArePlain (item o items)

module _ {Json : Type 0} where
  mutual
    unfolding serialize_result serialize_items

    IsPlain-object : (o : Object Json) → IsPlain (serialize_result o)
    IsPlain-object (base_model dumped) = other_plain
    IsPlain-object (Object.other o) = other_plain
    IsPlain-object (list items) = list_plain (ArePlain-items items)

    ArePlain-items : (items : Objects Json) → ArePlain (serialize_items items)
    ArePlain-items end = end_plain
    ArePlain-items (item o items) = item_plain (IsPlain-object o) (ArePlain-items items)

  mutual
    unfolding serialize_result serialize_items

    object_unchanged : (o : Object Json) → IsPlain o → serialize_result o ≡ o
    object_unchanged (base_model dumped) h = elim h [ ]
    object_unchanged (Object.other o) other_plain = refl
    object_unchanged (list items) (list_plain h) = ap list (items_unchanged items h)

    items_unchanged : (items : Objects Json) → ArePlain items → serialize_items items ≡ items
    items_unchanged end end_plain = refl
    items_unchanged (item o items) (item_plain h g) =
        rw (object_unchanged o h, items_unchanged items g) refl

  -- What is formatted of a result has no pydantic model in it, at any depth of its lists, and a
  -- result without one is formatted as it is.
  pub serialize_result_lem :
      (o : Object Json) → IsPlain (serialize_result o) × (IsPlain o → serialize_result o ≡ o)
  serialize_result_lem o = (IsPlain-object o, object_unchanged o)

-- ===== src/Db/Table.antt =====
-- packages/automated_actions/automated_actions/db/models/_base.py: the methods that every table
-- has, for a model with a way to write its time stamps.
use automated_actions.Prelude.{ℕ, String, none, some, List, [], ◌∷◌, ◌++◌}
use automated_actions.Errors.{Exc, http}
use automated_actions.Exec.{Result, ok, err}
use automated_actions.Db.Dynamo.{Dynamo}

module _ {Item : Type 0} {hash_key : Item → String} (table : Dynamo Item hash_key) where
  open table use {Rows, get, save, update}

  -- `Table.get_or_404`
  unfoldable pub get_or_404 : Rows → String → Result Exc Item
  get_or_404 rows pk = elim (get rows pk) [
    | none ↦ err (http 404 "Item not found" [])
    | some a ↦ ok a
  ]

  -- `Table.create`, the values of `_pre_create` being given: the new item is saved and returned.
  unfoldable pub create : Item → Rows → Item × Rows
  create item rows = (item, save rows item)

  -- `Table.update`: the time of the update is set last; the object takes the attributes that the
  -- table has after the update.
  unfoldable pub update_item :
      (ℕ → Item → Item) → ℕ → Item → List (Item → Item) → Rows → Item × Rows
  update_item set_updated_at now item changes rows =
      update rows (hash_key item) (changes ++ set_updated_at now ∷ [])

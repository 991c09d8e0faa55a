-- ===== src/Db/Dynamo.antt =====
-- A DynamoDB table as PynamoDB shows it to the models: an interface, since neither is code of the
-- repository. The laws are what the documentation of `get`, `save`, `update` and `query` says of
-- a table that nobody else writes to between the calls, and in which every write has arrived: the
-- reads of the models are eventually consistent, and one that comes too early is not modelled.
use mathlib.Core.List.{Mem}
use automated_actions.Prelude.{
  String, ◌≡◌, ◌↔◌, Bool, true, Option, none, some, List, foldl, ◌==◌, if◌then◌else◌,
}

-- A condition that may be left out holds of every item.
abbrev pub Meets : {Item : Type 0} → Option (Item → Bool) → Item → Type 0
Meets none a = Unit
Meets (some p) a = p a ≡ true

-- An update action, `Model.attribute.set(value)`, is what it does to an item.
abbrev pub apply : {Item : Type 0} → List (Item → Item) → Item → Item
apply changes a = foldl (λ b change. change b) a changes

pub record Dynamo (Item : Type 0) (hash_key : Item → String) : Type 1 where
  pub Rows : Type 0
  -- `none` is DoesNotExist
  pub get : Rows → String → Option Item
  pub save : Rows → Item → Rows
  -- with the attributes of the item after the update, `ReturnValues=ALL_NEW`
  pub update : Rows → String → List (Item → Item) → Item × Rows
  -- hash key condition, range key condition, filter condition
  pub query : Rows → (Item → Bool) → Option (Item → Bool) → Option (Item → Bool) → List Item
  pub get-save :
      (t : Rows) (a : Item) (k : String)
      → get (save t a) k ≡ (if hash_key a == k then some a else get t k)
  -- The key attributes cannot be changed by an update.
  pub get-update :
      (t : Rows) (k : String) (changes : List (Item → Item)) (a : Item)
      → get t k ≡ some a
      → hash_key (apply changes a) ≡ k
      → (j : String)
      → get (update t k changes).1 j ≡ (if k == j then some (apply changes a) else get t j)
  pub update-returns :
      (t : Rows) (k : String) (changes : List (Item → Item)) (a : Item)
      → get t k ≡ some a
      → (update t k changes).0 ≡ apply changes a
  pub hash_key-get : (t : Rows) (k : String) (a : Item) → get t k ≡ some a → hash_key a ≡ k
  pub mem-query :
      (t : Rows) (hash : Item → Bool) (range filter : Option (Item → Bool)) (a : Item)
      → Mem a (query t hash range filter)
        ↔ ((get t (hash_key a) ≡ some a) × (hash a ≡ true) × Meets range a × Meets filter a)

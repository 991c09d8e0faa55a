-- ===== src/Dict.antt =====
-- Python's `dict` with string keys: the list of its items, in the order of insertion.
use automated_actions.Prelude.{
  String, ◌≡◌, refl, Bool, Option, none, some, List, [], ◌∷◌, arith, ◌==◌, eq_iff, eq_refl,
  if◌then◌else◌, or_else, is_some,
}

abbrev pub Dict {ℓ} : Type ℓ → Type ℓ
Dict V = List (String × V)

module _ {ℓ} {V : Type ℓ} where
  -- `d.get(k)`
  unfoldable pub lookup : String → Dict V → Option V
  lookup k [] = none
  lookup k ((j, v) ∷ d) = if j == k then some v else lookup k d

  -- `d[k] = v`
  unfoldable pub insert : String → V → Dict V → Dict V
  insert k v [] = (k, v) ∷ []
  insert k v ((j, w) ∷ d) = let rest = insert k v d in if j == k then (k, v) ∷ d else (j, w) ∷ rest

  -- `d.update(e)`: the items of `e` are written in turn.
  unfoldable pub update : Dict V → Dict V → Dict V
  unfolding insert
  update d [] = d
  update d ((k, v) ∷ e) = update (insert k v d) e

  -- The value of the last item with the key: what is left after all of them are written.
  unfoldable pub last_value : String → Dict V → Option V
  last_value k [] = none
  last_value k ((j, v) ∷ d) = or_else (last_value k d) (if j == k then some v else none)

  -- `{k: d[k] for k in d if k != key}`
  unfoldable pub without : String → Dict V → Dict V
  without k [] = []
  without k ((j, v) ∷ d) = let rest = without k d in if j == k then rest else (j, v) ∷ rest

  -- `k in d`
  abbrev pub has : String → Dict V → Bool
  has k d = is_some (lookup k d)

  pub lookup-insert :
      (k j : String) (v : V) (d : Dict V)
      → lookup j (insert k v d) ≡ (if k == j then some v else lookup j d)
  unfolding lookup insert
  lookup-insert k j v [] = refl
  lookup-insert k j v ((i, w) ∷ d) =
      ground (arith, eq_iff k j, eq_iff i k, eq_iff i j, lookup-insert k j v d)

  pub lookup-insert_self : (k : String) (v : V) (d : Dict V) → lookup k (insert k v d) ≡ some v
  lookup-insert_self k v d = simp (lookup-insert, eq_refl)

  pub lookup-update :
      (j : String) (d e : Dict V) → lookup j (update d e) ≡ or_else (last_value j e) (lookup j d)
  unfolding update last_value
  lookup-update j d [] = refl
  lookup-update j d ((k, v) ∷ e) =
      ground (arith, lookup-update j (insert k v d) e, lookup-insert k j v d)

  pub lookup-without :
      (k j : String) (d : Dict V) → lookup j (without k d) ≡ (if k == j then none else lookup j d)
  unfolding lookup without
  lookup-without k j [] = ground arith
  lookup-without k j ((i, v) ∷ d) =
      ground (arith, lookup-without k j d, eq_iff i k, eq_iff i j, eq_iff k j)

pub ruleset dict_laws = (lookup-insert, lookup-update, lookup-without)

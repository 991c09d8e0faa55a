-- ===== src/Db/Memory.antt =====
-- A table in memory that meets the laws of `Dynamo`: the saved items, the newest first.
use mathlib.Core.List.{Mem, Mem-prop, mem-cons, not-mem-nil}
use mathlib.Core.Logic.Or
use automated_actions.Prelude.{
  String, ◌≡◌, refl, ap, sym, ◌∙◌, ◌↔◌, Bool, true, false, not, ◌&&◌, Option, none, some, List, [],
  ◌∷◌, ◌==◌, eq_iff, eq_refl, if◌then◌else◌, keep, get_or, &&_iff, Bool-cases, inl, inr,
}
use automated_actions.Db.Dynamo.{Dynamo, Meets, apply}

clash : {x : Bool} → x ≡ true → x ≡ false → ⊥
clash h e = cc

Mem_and-IsProp : {A : Type 0} (l : List A) (a : A) (x : Bool) → IsProp (Mem a l × (x ≡ true))
Mem_and-IsProp l a x = hlevel

pub mem-keep :
    {A : Type 0} (p : A → Bool) (l : List A) (a : A) → Mem a (keep p l) ↔ (Mem a l × (p a ≡ true))
unfolding keep
mem-keep p [] a = (λ m. absurd (not-mem-nil m), λ h. absurd (not-mem-nil h.0))
mem-keep {A} p (b ∷ l) a = elim (Bool-cases (p b)) [
  | inl e ↦ (kept (mem-keep p l a) e, λ h. rw e (found (mem-keep p l a) e h))
  | inr e ↦
      (λ m. later ((mem-keep p l a).0 (rw e at m)), λ h. rw e ((mem-keep p l a).1 (dropped e h)))
]
  where
    later : Mem a l × (p a ≡ true) → Mem a (b ∷ l) × (p a ≡ true)
    later h = (mem-cons.1 (Or.inr h.0), h.1)

    kept :
        (Mem a (keep p l) ↔ (Mem a l × (p a ≡ true)))
        → p b ≡ true
        → Mem a (if p b then b ∷ keep p l else keep p l)
        → Mem a (b ∷ l) × (p a ≡ true)
    kept ih e m =
        Or.elim (Mem_and-IsProp (b ∷ l) a (p a)) (mem-cons.0 (rw e at m))
          (λ same. (mem-cons.1 (Or.inl same), ap p same ∙ e)) (λ rest. later (ih.0 rest))

    found :
        (Mem a (keep p l) ↔ (Mem a l × (p a ≡ true)))
        → p b ≡ true
        → Mem a (b ∷ l) × (p a ≡ true)
        → Mem a (b ∷ keep p l)
    found ih e h =
        Or.elim Mem-prop (mem-cons.0 h.0) (λ same. mem-cons.1 (Or.inl same))
          (λ rest. mem-cons.1 (Or.inr (ih.1 (rest, h.1))))

    dropped : p b ≡ false → Mem a (b ∷ l) × (p a ≡ true) → Mem a l × (p a ≡ true)
    dropped e h =
        Or.elim (Mem_and-IsProp l a (p a)) (mem-cons.0 h.0)
          (λ same. absurd (clash h.1 (ap p same ∙ e))) (λ rest. (rest, h.1))

module _ {Item : Type 0} (hash_key : Item → String) (set : IsSet Item) (absent : Item) where
  unfoldable pub find : List Item → String → Option Item
  find [] k = none
  find (a ∷ rows) k = if hash_key a == k then some a else find rows k

  write : String → Item → List Item → Item × List Item
  write k b rows = if hash_key b == k then (b, b ∷ rows) else (b, rows)

  unfoldable pub change : List Item → String → List (Item → Item) → Item × List Item
  unfolding write
  change rows k changes = elim (find rows k) [
    | none ↦ (absent, rows)
    | some a ↦ write k (apply changes a) rows
  ]

  holds : Option (Item → Bool) → Item → Bool
  holds none a = true
  holds (some p) a = p a

  -- Each item that no newer one replaces.
  live : List Item → List Item
  live [] = []
  live (a ∷ rows) = a ∷ keep (λ b. not (hash_key a == hash_key b)) (live rows)

  same_key : (k : String) (b a : Item) → (hash_key b == k) ≡ true → some b ≡ some a → hash_key a ≡ k
  same_key k b a e h = ap hash_key (sym (ap (λ x. get_or x b) h)) ∙ (eq_iff _ _).0 e

  some_injective : {b a : Item} → some b ≡ some a → b ≡ a
  some_injective {b} h = ap (λ x. get_or x b) h

  none-ne-some : {a : Item} → ¬ (none ≡ some a)
  none-ne-some h = cc

  pub hash_key-find :
      (rows : List Item) (k : String) (a : Item) → find rows k ≡ some a → hash_key a ≡ k
  unfolding find
  hash_key-find [] k a h = cc
  hash_key-find (b ∷ rows) k a h = elim (Bool-cases (hash_key b == k)) [
    | inl e ↦ same_key k b a e (rw e at h)
    | inr e ↦ hash_key-find rows k a (rw e at h)
  ]

  found-IsProp : (rows : List Item) (k : String) (a : Item) → IsProp (find rows k ≡ some a)
  found-IsProp rows k a = hlevel

  mem-live : (rows : List Item) (a : Item) → Mem a (live rows) ↔ (find rows (hash_key a) ≡ some a)
  unfolding live find
  mem-live [] a = (λ m. absurd (not-mem-nil m), λ h. absurd (none-ne-some h))
  mem-live (b ∷ rows) a = elim (Bool-cases (hash_key b == hash_key a)) [
    | inl e ↦ (
      λ m. rw e (ap some (first e m)),
      λ h. mem-cons.1 (Or.inl (sym (some_injective (rw e at h)))),
    )
    | inr e ↦ (
      λ m. rw e (older (mem-live rows a) e m),
      λ h. mem-cons.1 (Or.inr (stays (mem-live rows a) e (rw e at h))),
    )
  ]
    where
      first :
          (hash_key b == hash_key a) ≡ true
          → Mem a (b ∷ keep (λ x. not (hash_key b == hash_key x)) (live rows))
          → b ≡ a
      first e m =
          Or.elim (set b a) (mem-cons.0 m) (λ same. sym same)
            (λ rest. absurd (
              clash ((mem-keep (λ x. not (hash_key b == hash_key x)) (live rows) a).0 rest).1
                (ap not e)))

      older :
          (Mem a (live rows) ↔ (find rows (hash_key a) ≡ some a))
          → (hash_key b == hash_key a) ≡ false
          → Mem a (b ∷ keep (λ x. not (hash_key b == hash_key x)) (live rows))
          → find rows (hash_key a) ≡ some a
      older ih e m =
          Or.elim (found-IsProp rows (hash_key a) a) (mem-cons.0 m)
            (λ same.
              absurd
                (clash (eq_refl (hash_key b)) (ap (λ x. hash_key b == hash_key x) (sym same) ∙ e)))
            (λ rest. ih.0 ((mem-keep (λ x. not (hash_key b == hash_key x)) (live rows) a).0 rest).0)

      stays :
          (Mem a (live rows) ↔ (find rows (hash_key a) ≡ some a))
          → (hash_key b == hash_key a) ≡ false
          → find rows (hash_key a) ≡ some a
          → Mem a (keep (λ x. not (hash_key b == hash_key x)) (live rows))
      stays ih e h =
          (mem-keep (λ x. not (hash_key b == hash_key x)) (live rows) a).1 (ih.1 h, ap not e)

  unfoldable pub found_live :
      List Item → (Item → Bool) → Option (Item → Bool) → Option (Item → Bool) → List Item
  unfolding holds live
  found_live rows hash range filter =
      keep (λ a. hash a && (holds range a && holds filter a)) (live rows)

  holds_iff : (p : Option (Item → Bool)) (a : Item) → (holds p a ≡ true) ↔ Meets p a
  unfolding holds
  holds_iff none a = (λ h. tt, λ h. refl)
  holds_iff (some p) a = (λ h. h, λ h. h)

  find-change :
      (rows : List Item) (k : String) (changes : List (Item → Item)) (a : Item)
      → find rows k ≡ some a
      → hash_key (apply changes a) ≡ k
      → change rows k changes ≡ (apply changes a, apply changes a ∷ rows)
  unfolding change write
  find-change rows k changes a found own = rw (change, found, write, own, eq_refl k) refl

  pub change-returns :
      (rows : List Item) (k : String) (changes : List (Item → Item)) (a : Item)
      → find rows k ≡ some a
      → (change rows k changes).0 ≡ apply changes a
  unfolding change write
  change-returns rows k changes a found =
      rw (change, found, write)
        (elim (Bool-cases (hash_key (apply changes a) == k)) [ inl e ↦ rw e | inr e ↦ rw e ])

  pub mem-found_live :
      (rows : List Item) (hash : Item → Bool) (range filter : Option (Item → Bool)) (a : Item)
      → Mem a (found_live rows hash range filter)
        ↔ ((find rows (hash_key a) ≡ some a) × (hash a ≡ true) × Meets range a × Meets filter a)
  unfolding found_live
  mem-found_live rows hash range filter a = (
    λ m.
        let both = (mem-keep _ (live rows) a).0 m in
        let tests = (&&_iff _ _).0 both.1 in
        let rest = (&&_iff _ _).0 tests.1 in
        (
          (mem-live rows a).0 both.0,
          tests.0,
          (holds_iff range a).0 rest.0,
          (holds_iff filter a).0 rest.1,
        ),
    λ h. (mem-keep _ (live rows) a).1 (
      (mem-live rows a).1 h.0,
      (&&_iff _ _).1 (h.1, (&&_iff _ _).1 ((holds_iff range a).1 h.2, (holds_iff filter a).1 h.3)),
    ),
  )

  pub find-save :
      (rows : List Item) (a : Item) (k : String)
      → find (a ∷ rows) k ≡ (if hash_key a == k then some a else find rows k)
  unfolding find
  find-save rows a k = refl

  pub find_changed :
      (rows : List Item) (k : String) (changes : List (Item → Item)) (a : Item)
      → find rows k ≡ some a
      → hash_key (apply changes a) ≡ k
      → (j : String)
      → find (change rows k changes).1 j ≡ (if k == j then some (apply changes a) else find rows j)
  unfolding find
  find_changed rows k changes a found own j = rw (find-change rows k changes a found own, own)

  abbrev pub memory : Dynamo Item hash_key
  memory = record {
    Rows = List Item;
    get = find;
    save = λ rows a. a ∷ rows;
    update = change;
    query = found_live;
    get-save = find-save;
    get-update = find_changed;
    update-returns = change-returns;
    hash_key-get = hash_key-find;
    mem-query = mem-found_live;
  }

-- ===== src/System/Changes.antt =====
-- The changes that keep the state consistent: a row is written anew, an action is stored, and a
-- message is queued.
use automated_actions.Prelude.{
  ℕ, ◌+◌, ◌≤◌, String, ◌≡◌, sym, ap, ◌∙◌, ◌⊎◌, inl, inr, false, Option, some, List, [], ◌∷◌, ◌++◌,
  ◌==◌, if◌then◌else◌, Bool-cases, eq_iff, arith,
}
use automated_actions.Db.Schema.{Action}
use automated_actions.Db.World.{Database, Message}
use automated_actions.System.Effects.{
  IsSound, IsSame, IsSame-refl, Every-map, Every-snoc, IsHeld, IsConsistent, Keeps, Keeps-refl,
  IsHeld-Keeps, Keeping,
}

some-injective : {a b : Action} → ◌≡◌ {A = Option Action} (some a) (some b) → a ≡ b
some-injective h = cc

module _ (D : Database) where
  open D use {action_table, uuid4}
  open action_table use {Rows, get}

  -- The row of one action is written, and no other.
  pub record IsPut (rows rows' : Rows) (c : Action) : Type 0 where
    pub at : (j : String) → get rows' j ≡ (if c.action_id == j then some c else get rows j)

  -- What a row of the new table is.
  put-cases :
      (rows rows' : Rows) (c : Action)
      → IsPut rows rows' c
      → (k : String)
      → ((c.action_id ≡ k) × (get rows' k ≡ some c))
        ⊎ (((c.action_id == k) ≡ false) × (get rows' k ≡ get rows k))
  put-cases rows rows' c put k = elim (Bool-cases (c.action_id == k)) [
    | inl e ↦ inl ((eq_iff _ _).0 e, rw e at (put.at k))
    | inr e ↦ inr (e, rw e at (put.at k))
  ]

  IsSound-same : (now : ℕ) (a b : Action) → a ≡ b → IsSound now a → IsSound now b
  IsSound-same now a b e h = rw (← e) h

  module _ (rows rows' : Rows) (queue : List Message) (now drawn : ℕ) (b c : Action)
      (stored : get rows c.action_id ≡ some b) (same : IsSame b c) (put : IsPut rows rows' c) where
    updated-Keeps : Keeps D rows rows'
    updated-Keeps = record {
      at = λ k a found. elim (put-cases rows rows' c put k) [
        | inl (e, there) ↦
            (c, there, rw (some-injective (sym found ∙ (ap get_row (sym e) ∙ stored))) same)
        | inr (e, there) ↦ (a, there ∙ found, IsSame-refl a)
      ];
    }
      where
        get_row : String → Option Action
        get_row k = get rows k

    -- A row is written anew, with what no step changes.
    pub updated :
        (IsSound now b → IsSound now c)
        → IsConsistent D (rows, queue, now, drawn)
        → Keeping D (rows, queue, now, drawn) (rows', queue, now, drawn)
    updated sound h = record {
      consistent = record {
        rows = λ k a found. elim (put-cases rows rows' c put k) [
          | inl (e, there) ↦
              IsSound-same now c a (some-injective (sym there ∙ found))
                (sound (h.rows c.action_id b stored))
          | inr (e, there) ↦ h.rows k a (sym there ∙ found)
        ];
        keys = λ k a found. elim (put-cases rows rows' c put k) [
          | inl (e, there) ↦
              let (i, below, drawn_as) = h.keys c.action_id b stored in (i, below, drawn_as ∙ e)
          | inr (e, there) ↦ h.keys k a (sym there ∙ found)
        ];
        queued = Every-map (λ m. IsHeld-Keeps D m updated-Keeps) queue h.queued;
      };
      kept = updated-Keeps;
    }

  module _ (distinct : (i j : ℕ) → uuid4 i ≡ uuid4 j → i ≡ j) (rows rows' : Rows)
      (queue : List Message) (now drawn : ℕ) (c : Action) (id : c.action_id ≡ uuid4 drawn)
      (put : IsPut rows rows' c) (h : IsConsistent D (rows, queue, now, drawn)) where
    created-Keeps : Keeps D rows rows'
    created-Keeps = record {
      at = λ k a found. elim (put-cases rows rows' c put k) [
        | inl (e, there) ↦
            let (i, below, drawn_as) = h.keys k a found in
            absurd (let same = distinct i drawn (drawn_as ∙ (sym e ∙ id)) in omega arith)
        | inr (e, there) ↦ (a, there ∙ found, IsSame-refl a)
      ];
    }

    -- A new action is stored, with the next identifier.
    pub created : IsSound now c → Keeping D (rows, queue, now, drawn) (rows', queue, now, drawn + 1)
    created sound = record {
      consistent = record {
        rows = λ k a found. elim (put-cases rows rows' c put k) [
          | inl (e, there) ↦ IsSound-same now c a (some-injective (sym there ∙ found)) sound
          | inr (e, there) ↦ h.rows k a (sym there ∙ found)
        ];
        keys = λ k a found. elim (put-cases rows rows' c put k) [
          | inl (e, there) ↦ (drawn, omega arith, sym id ∙ e)
          | inr (e, there) ↦
              let (i, below, drawn_as) = h.keys k a (sym there ∙ found) in
              (i, omega arith, drawn_as)
        ];
        queued = Every-map (λ m. IsHeld-Keeps D m created-Keeps) queue h.queued;
      };
      kept = created-Keeps;
    }

  -- A message for a stored action is queued.
  pub queued :
      (rows : Rows) (queue : List Message) (now drawn : ℕ) (m : Message)
      → IsHeld D rows m
      → IsConsistent D (rows, queue, now, drawn)
      → Keeping D (rows, queue, now, drawn) (rows, queue ++ m ∷ [], now, drawn)
  queued rows queue now drawn m held h = record {
    consistent = record { rows = h.rows; keys = h.keys; queued = Every-snoc queue m h.queued held };
    kept = Keeps-refl D rows;
  }

  -- The clock goes on.
  pub ticked :
      (rows : Rows) (queue : List Message) (now later drawn : ℕ)
      → now ≤ later
      → IsConsistent D (rows, queue, now, drawn)
      → Keeping D (rows, queue, now, drawn) (rows, queue, later, drawn)
  ticked rows queue now later drawn order h = record {
    consistent = record {
      rows = λ k a found.
          let s = h.rows k a found in
          record {
            final = s.final;
            fresh = s.fresh;
            created = s.created;
            updated = let u = s.updated in omega arith;
          };
      keys = h.keys;
      queued = h.queued;
    };
    kept = Keeps-refl D rows;
  }

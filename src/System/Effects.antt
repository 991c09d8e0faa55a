-- ===== src/System/Effects.antt =====
-- What holds of the stored actions and of the queue at all times, and the kinds of change that
-- keep it.
use automated_actions.Prelude.{
  ℕ, ◌≤◌, ◌<◌, String, ◌≡◌, refl, ◌∙◌, Bool, true, false, none, some, List, [], ◌∷◌, ◌++◌, is_some,
}
use automated_actions.Db.Schema.{
  Action, ActionStatus, pending, running, success, failure, cancelled,
}
use automated_actions.Db.World.{Database, Message}

-- A status that a task ends with.
abbrev pub is_final : ActionStatus → Bool
is_final success = true
is_final failure = true
is_final pending = false
is_final running = false
is_final cancelled = false

abbrev pub is_pending : ActionStatus → Bool
is_pending pending = true
is_pending running = false
is_pending success = false
is_pending failure = false
is_pending cancelled = false

-- A row at a time: a final status has a result, a pending action has none, and the row was created
-- before it was updated, and updated before now.
pub record IsSound (now : ℕ) (a : Action) : Type 0 where
  pub final : is_final a.status ≡ true → is_some a.result ≡ true
  pub fresh : is_pending a.status ≡ true → a.result ≡ none
  pub created : a.created_at ≤ a.updated_at
  pub updated : a.updated_at ≤ now

-- What no step changes of an action.
pub record IsSame (a b : Action) : Type 0 where
  pub id : a.action_id ≡ b.action_id
  pub owner : a.owner ≡ b.owner
  pub name : a.name ≡ b.name
  pub created : a.created_at ≡ b.created_at

pub IsSame-refl : (a : Action) → IsSame a a
IsSame-refl a = record { id = refl; owner = refl; name = refl; created = refl }

pub IsSame-trans : {a b c : Action} → IsSame a b → IsSame b c → IsSame a c
IsSame-trans h e = record {
  id = h.id ∙ e.id;
  owner = h.owner ∙ e.owner;
  name = h.name ∙ e.name;
  created = h.created ∙ e.created;
}

pub data Every (P : Message → Type 0) : List Message → Type 0 where
  every_nil : Every P []
  every_cons : {m : Message} {ms : List Message} → P m → Every P ms → Every P (m ∷ ms)

pub Every-map :
    {P Q : Message → Type 0}
    → ((m : Message) → P m → Q m)
    → (ms : List Message) → Every P ms
    → Every Q ms
Every-map f [] every_nil = every_nil
Every-map f (m ∷ ms) (every_cons p rest) = every_cons (f m p) (Every-map f ms rest)

pub Every-snoc :
    {P : Message → Type 0} (ms : List Message) (m : Message)
    → Every P ms
    → P m
    → Every P (ms ++ m ∷ [])
Every-snoc [] m every_nil p = every_cons p every_nil
Every-snoc (n ∷ ms) m (every_cons q rest) p = every_cons q (Every-snoc ms m rest p)

module _ (D : Database) where
  open D use {action_table, uuid4}
  open action_table use {Rows, get}

  -- The rows, the queue, the clock and the number of identifiers drawn.
  abbrev pub View : Type 0
  View = Rows × List Message × ℕ × ℕ

  -- A message is of a stored action, and has its identifier.
  pub record IsHeld (rows : Rows) (m : Message) : Type 0 where
    pub row : Action
    pub stored : get rows m.action.action_id ≡ some row
    pub same : IsSame m.action row
    pub task : m.task_id ≡ m.action.action_id

  -- Every row is sound, its key is one of the identifiers drawn so far, and every queued message is
  -- of a stored action.
  pub record IsConsistent (v : View) : Type 0 where
    pub rows : (k : String) (a : Action) → get v.0 k ≡ some a → IsSound v.2 a
    pub keys : (k : String) (a : Action) → get v.0 k ≡ some a → (i : ℕ) × (i < v.3) × (uuid4 i ≡ k)
    pub queued : Every (IsHeld v.0) v.1

  -- No action is lost, and none gets another owner, name or time of creation.
  pub record Keeps (rows rows' : Rows) : Type 0 where
    pub at :
        (k : String) (a : Action)
        → get rows k ≡ some a
        → (b : Action) × (get rows' k ≡ some b) × IsSame a b

  pub Keeps-refl : (rows : Rows) → Keeps rows rows
  Keeps-refl rows = record { at = λ k a h. (a, h, IsSame-refl a) }

  pub Keeps-trans : {r s t : Rows} → Keeps r s → Keeps s t → Keeps r t
  Keeps-trans h e = record {
    at = λ k a found.
        let (b, there, same) = h.at k a found in
        let (c, there', same') = e.at k b there in (c, there', IsSame-trans same same');
  }

  pub IsHeld-Keeps : {r s : Rows} (m : Message) → Keeps r s → IsHeld r m → IsHeld s m
  IsHeld-Keeps m h held =
      let (b, there, same) = h.at m.action.action_id held.row held.stored in
      record { row = b; stored = there; same = IsSame-trans held.same same; task = held.task }

  -- A change that keeps all of it.
  pub record Keeping (v v' : View) : Type 0 where
    pub consistent : IsConsistent v'
    pub kept : Keeps v.0 v'.0

  pub unchanged : (v v' : View) → v' ≡ v → IsConsistent v → Keeping v v'
  unchanged v v' e h = record { consistent = rw e h; kept = rw e (Keeps-refl v.0) }

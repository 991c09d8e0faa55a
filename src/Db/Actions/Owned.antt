-- ===== src/Db/Actions/Owned.antt =====
-- Which actions `find_by_owner` returns.
use mathlib.Core.List.{Mem}
use automated_actions.Prelude.{
  ℕ, String, ◌+◌, ◌-◌, ◌*◌, ◌/◌, ◌≤◌, ◌<◌, ◌≡◌, ◌↔◌, true, Option, none, some, arith, ◌==◌, eq_iff,
  leb_iff,
}
use automated_actions.Db.Schema.{Action, ActionStatus, status_eq}
use automated_actions.Db.World.{Database, World}
use automated_actions.Db.Actions.{second, is_recent, stored, find_by_owner}

pub status_eq_iff : (a b : ActionStatus) → (status_eq a b ≡ true) ↔ (a ≡ b)
unfolding status_eq
status_eq_iff a b = (λ h. ground arith, λ h. ground arith)

abbrev pub HasStatus : Option ActionStatus → Action → Type 0
HasStatus none a = Unit
HasStatus (some s) a = a.status ≡ s

-- Updated no longer ago than the age in seconds, the point in time being cut to whole seconds.
abbrev pub HasAge : ℕ → Option ℕ → Action → Type 0
HasAge now none a = Unit
HasAge now (some max_age) a = (now - max_age * second) / second * second ≤ a.updated_at

abbrev pub IsOwned :
    (D : Database) → World D → String → Option ActionStatus → Option ℕ → Action → Type 0
IsOwned D w username status max_age a =
    (stored D w a.action_id ≡ some a)
    × (a.owner ≡ username)
    × HasStatus status a
    × HasAge w.clock max_age a

module _ (D : Database) (w : World D) where
  open D use {action_table}

  pub mem-find_by_owner :
      (username : String) (status : Option ActionStatus) (max_age : Option ℕ) (a : Action)
      → Mem a (find_by_owner D username status max_age w) ↔ IsOwned D w username status max_age a
  unfolding find_by_owner
  mem-find_by_owner username none none a =
      let law = action_table.mem-query w.actions (λ a. a.owner == username) none none a in
      (
        λ h. let (s, o, r, f) = law.0 h in (s, (eq_iff _ _).0 o, tt, tt),
        λ h. law.1 (h.0, (eq_iff _ _).1 h.1, tt, tt),
      )
  mem-find_by_owner username none (some max_age) a =
      let law =
        action_table.mem-query w.actions (λ a. a.owner == username)
          (some (is_recent w.clock max_age)) none a in
      (
        λ h. let (s, o, r, f) = law.0 h in (s, (eq_iff _ _).0 o, tt, (leb_iff _ _).0 r),
        λ h. law.1 (h.0, (eq_iff _ _).1 h.1, (leb_iff _ _).1 h.3, tt),
      )
  mem-find_by_owner username (some status) none a =
      let law =
        action_table.mem-query w.actions (λ a. a.owner == username) none
          (some (λ a. status_eq a.status status)) a in
      (
        λ h. let (s, o, r, f) = law.0 h in (s, (eq_iff _ _).0 o, (status_eq_iff _ _).0 f, tt),
        λ h. law.1 (h.0, (eq_iff _ _).1 h.1, tt, (status_eq_iff _ _).1 h.2),
      )
  mem-find_by_owner username (some status) (some max_age) a =
      let law =
        action_table.mem-query w.actions (λ a. a.owner == username)
          (some (is_recent w.clock max_age)) (some (λ a. status_eq a.status status)) a in
      (
        λ h.
            let (s, o, r, f) = law.0 h in
            (s, (eq_iff _ _).0 o, (status_eq_iff _ _).0 f, (leb_iff _ _).0 r),
        λ h. law.1 (h.0, (eq_iff _ _).1 h.1, (leb_iff _ _).1 h.3, (status_eq_iff _ _).1 h.2),
      )

  -- With an age and no status, every stored action of the owner that was updated within the age
  -- is returned.
  pub find_by_owner_recent :
      (username : String) (max_age : ℕ) (a : Action)
      → stored D w a.action_id ≡ some a
      → a.owner ≡ username
      → w.clock ≤ a.updated_at + max_age * second
      → Mem a (find_by_owner D username none (some max_age) w)
  find_by_owner_recent username max_age a found owner h =
      (mem-find_by_owner username none (some max_age) a).1 (found, owner, tt, omega arith)

  -- With an age, no action is returned that was updated a second or more before the point in time
  -- that the age gives.
  pub find_by_owner_window :
      (username : String) (status : Option ActionStatus) (max_age : ℕ) (a : Action)
      → Mem a (find_by_owner D username status (some max_age) w)
      → w.clock < a.updated_at + max_age * second + second
  find_by_owner_window username status max_age a m =
      let listed = ((mem-find_by_owner username status (some max_age) a).0 m).3 in omega arith

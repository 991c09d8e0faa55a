-- ===== src/System/Runs.antt =====
-- Runs that keep the state consistent.
use automated_actions.Prelude.{◌≡◌, refl, sym, ap, ◌∙◌, some}
use automated_actions.Errors.{Exc}
use automated_actions.Exec.{Exec, Result, ok, err, ◌>>=◌, continue}
use automated_actions.Exec.Keeps.{Preserves}
use automated_actions.Db.Schema.{Action}
use automated_actions.Db.World.{Database, World}
use automated_actions.Db.Actions
use automated_actions.Db.Actions.Laws.{Writes}
use automated_actions.Auth.Untouched.{work}
use automated_actions.System.Effects.{
  IsSound, IsSame, View, IsConsistent, Keeps-trans, Keeping, unchanged,
}
use automated_actions.System.Changes.{updated}

module _ (D : Database) where
  pub Keeping-trans : {u v w : View D} → Keeping D u v → Keeping D v w → Keeping D u w
  Keeping-trans h e = record { consistent = e.consistent; kept = Keeps-trans D h.kept e.kept }

  -- What a run leaves is consistent, and has all actions.
  abbrev pub KeepsRun : {A : Type 0} → Exec (World D) Exc A → World D → Type 0
  KeepsRun m w = Keeping D (work D w) (work D (m w).1)

  pub preserved :
      {A : Type 0} (m : Exec (World D) Exc A) (w : World D)
      → Preserves (work D) m
      → IsConsistent D (work D w)
      → KeepsRun m w
  preserved m w p h = unchanged D (work D w) (work D (m w).1) (p.at w) h

  continued :
      {A B : Type 0} (w v : World D) (r : Result Exc A) (f : A → Exec (World D) Exc B)
      → Keeping D (work D w) (work D v)
      → ((a : A) → r ≡ ok a → KeepsRun (f a) v)
      → Keeping D (work D w) (work D (continue r f v).1)
  continued w v (ok a) f h e = Keeping-trans h (e a refl)
  continued w v (err x) f h e = h

  -- A chain keeps the state consistent if its first part does, and what follows too.
  pub bind-Keeping :
      {A B : Type 0} (m : Exec (World D) Exc A) (f : A → Exec (World D) Exc B) (w : World D)
      → KeepsRun m w
      → ((a : A) → (m w).0 ≡ ok a → IsConsistent D (work D (m w).1) → KeepsRun (f a) (m w).1)
      → KeepsRun (m >>= f) w
  bind-Keeping m f w h e = continued w (m w).1 (m w).0 f h (λ a got. e a got h.consistent)

  -- The row of a stored action is written anew.
  pub written :
      (w : World D) (a b c : Action) (run : Result Exc Action × World D)
      → Actions.stored D w a.action_id ≡ some b
      → IsSame b c
      → (IsSound w.clock b → IsSound w.clock c)
      → Writes D w c run
      → run.1.drawn ≡ w.drawn
      → IsConsistent D (work D w)
      → Keeping D (work D w) (work D run.1)
  written w a b c run found same sound writes drawn h =
      rw (writes.queue, writes.clock, drawn)
        (updated D w.actions run.1.actions w.queue w.clock w.drawn b c
          (ap (λ k. D.action_table.get w.actions k)
              (sym same.id ∙ D.action_table.hash_key-get w.actions a.action_id b found)
            ∙ found)
          same (record { at = writes.row }) sound h)

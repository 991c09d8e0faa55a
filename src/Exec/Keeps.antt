-- ===== src/Exec/Keeps.antt =====
-- What actions do to the state, one rule for each way to build an action.
use automated_actions.Prelude.{◌≡◌, refl, ◌∙◌, Bool, true, false, if◌then◌else◌}
use automated_actions.Exec.{
  Exec, Result, ok, err, pure, raise, lift, gets, asks, continue, handle, catch, ◌>>=◌,
}

module _ {ℓ} {S E A : Type ℓ} where
  -- `m` changes nothing.
  pub record IsReadOnly (m : Exec S E A) : Type ℓ where
    pub at : (s : S) → (m s).1 ≡ s

  -- `m` changes nothing when it raises.
  pub record IsAtomic (m : Exec S E A) : Type ℓ where
    pub at : (s : S) (e : E) → (m s).0 ≡ err e → (m s).1 ≡ s

  pub IsReadOnly-lift : (r : Result E A) → IsReadOnly (lift r)
  IsReadOnly-lift r = record { at = λ s. refl }

  pub IsReadOnly-gets : (f : S → A) → IsReadOnly (gets f)
  IsReadOnly-gets f = record { at = λ s. refl }

  pub IsReadOnly-asks : (f : S → Result E A) → IsReadOnly (asks f)
  IsReadOnly-asks f = record { at = λ s. refl }

  pub IsReadOnly-raise : (e : E) → IsReadOnly (raise e)
  IsReadOnly-raise e = record { at = λ s. refl }

  pub IsAtomic-of_read_only : (m : Exec S E A) → IsReadOnly m → IsAtomic m
  IsAtomic-of_read_only m r = record { at = λ s e h. r.at s }

  pub IsAtomic-lift : (r : Result E A) → IsAtomic (lift r)
  IsAtomic-lift r = record { at = λ s e h. refl }

  pub IsAtomic-raise : (e : E) → IsAtomic (raise e)
  IsAtomic-raise e = record { at = λ s f h. refl }

  -- What never raises is atomic.
  pub IsAtomic-of_ok : (m : Exec S E A) (f : S → A) → ((s : S) → (m s).0 ≡ ok (f s)) → IsAtomic m
  IsAtomic-of_ok m f h = record { at = λ s e raised. cc (h s) }

  -- A handler that changes nothing keeps an atomic action atomic.
  catch_handled :
      (m : Exec S E A) (k : E → Exec S E A) (s : S) (e : E) (r : Result E A)
      → (m s).0 ≡ r
      → ((e : E) → (m s).0 ≡ err e → (m s).1 ≡ s)
      → ((e : E) → IsReadOnly (k e))
      → (handle r k (m s).1).0 ≡ err e
      → (handle r k (m s).1).1 ≡ s
  catch_handled m k s e (ok a) eq clean ro h = cc
  catch_handled m k s e (err f) eq clean ro h = (ro f).at (m s).1 ∙ clean f eq

  pub IsAtomic-catch :
      (m : Exec S E A) (k : E → Exec S E A)
      → IsAtomic m
      → ((e : E) → IsReadOnly (k e))
      → IsAtomic (catch m k)
  IsAtomic-catch m k am ro = record {
    at = λ s e h. catch_handled m k s e (m s).0 refl (am.at s) ro h;
  }

module _ {ℓ} {S E A B : Type ℓ} where
  continue-IsAtomic :
      (r : Result E A) (f : A → Exec S E B) (s t : S) (e : E)
      → t ≡ s
      → ((a : A) → IsAtomic (f a))
      → (continue r f t).0 ≡ err e
      → (continue r f t).1 ≡ s
  continue-IsAtomic (ok a) f s t e eq k h = (k a).at t e h ∙ eq
  continue-IsAtomic (err x) f s t e eq k h = eq

  -- Reading first, and then acting.
  pub IsAtomic-bind :
      (m : Exec S E A) (f : A → Exec S E B)
      → IsReadOnly m
      → ((a : A) → IsAtomic (f a))
      → IsAtomic (m >>= f)
  IsAtomic-bind m f ro k = record {
    at = λ s e h. continue-IsAtomic (m s).0 f s (m s).1 e (ro.at s) k h;
  }

  continue-IsReadOnly :
      (r : Result E A) (f : A → Exec S E B) (s t : S)
      → t ≡ s
      → ((a : A) → IsReadOnly (f a))
      → (continue r f t).1 ≡ s
  continue-IsReadOnly (ok a) f s t eq k = (k a).at t ∙ eq
  continue-IsReadOnly (err x) f s t eq k = eq

  pub IsReadOnly-bind :
      (m : Exec S E A) (f : A → Exec S E B)
      → IsReadOnly m
      → ((a : A) → IsReadOnly (f a))
      → IsReadOnly (m >>= f)
  IsReadOnly-bind m f ro k = record {
    at = λ s. continue-IsReadOnly (m s).0 f s (m s).1 (ro.at s) k;
  }

pub ruleset atomic_rules = (
  IsReadOnly-lift, IsReadOnly-asks, IsReadOnly-gets, IsReadOnly-raise, IsReadOnly-bind,
  IsAtomic-bind, IsAtomic-lift, IsAtomic-raise, IsAtomic-catch,
)

-- `m` leaves what `view` shows of the state as it is, whether it returns or raises.
pub record Preserves {ℓ} {S V E A : Type ℓ} (view : S → V) (m : Exec S E A) : Type ℓ where
  pub at : (s : S) → view (m s).1 ≡ view s

module _ {ℓ} {S V E A : Type ℓ} {view : S → V} where
  pub Preserves-pure : (a : A) → Preserves {E = E} view (pure a)
  Preserves-pure a = record { at = λ s. refl }

  pub Preserves-raise : (e : E) → Preserves {A = A} view (raise e)
  Preserves-raise e = record { at = λ s. refl }

  pub Preserves-lift : (r : Result E A) → Preserves view (lift r)
  Preserves-lift r = record { at = λ s. refl }

  pub Preserves-gets : (f : S → A) → Preserves {E = E} view (gets f)
  Preserves-gets f = record { at = λ s. refl }

  pub Preserves-asks : (f : S → Result E A) → Preserves view (asks f)
  Preserves-asks f = record { at = λ s. refl }

  pub Preserves-if :
      (b : Bool) (m n : Exec S E A)
      → Preserves view m
      → Preserves view n
      → Preserves view (if b then m else n)
  Preserves-if true m n pm pn = pm
  Preserves-if false m n pm pn = pn

  handle-Preserves :
      (r : Result E A) (k : E → Exec S E A) (s t : S)
      → view t ≡ view s
      → ((e : E) → Preserves view (k e))
      → view (handle r k t).1 ≡ view s
  handle-Preserves (ok a) k s t eq pk = eq
  handle-Preserves (err e) k s t eq pk = (pk e).at t ∙ eq

  pub Preserves-catch :
      (m : Exec S E A) (k : E → Exec S E A)
      → Preserves view m
      → ((e : E) → Preserves view (k e))
      → Preserves view (catch m k)
  Preserves-catch m k pm pk = record { at = λ s. handle-Preserves (m s).0 k s (m s).1 (pm.at s) pk }

module _ {ℓ} {S V E A B : Type ℓ} {view : S → V} where
  continue-Preserves :
      (r : Result E A) (f : A → Exec S E B) (s t : S)
      → view t ≡ view s
      → ((a : A) → Preserves view (f a))
      → view (continue r f t).1 ≡ view s
  continue-Preserves (ok a) f s t eq pf = (pf a).at t ∙ eq
  continue-Preserves (err e) f s t eq pf = eq

  pub Preserves-bind :
      (m : Exec S E A) (f : A → Exec S E B)
      → Preserves view m
      → ((a : A) → Preserves view (f a))
      → Preserves view (m >>= f)
  Preserves-bind m f pm pf = record {
    at = λ s. continue-Preserves (m s).0 f s (m s).1 (pm.at s) pf;
  }

pub ruleset preserves_rules = (
  Preserves-pure, Preserves-raise, Preserves-lift, Preserves-gets, Preserves-asks, Preserves-if,
  Preserves-catch, Preserves-bind,
)

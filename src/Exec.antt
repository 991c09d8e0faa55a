-- ===== src/Exec.antt =====
-- Code that changes a state and may raise. What was written before a raise stays written, so the
-- state comes back beside the error too.
pub mod Keeps
use automated_actions.Prelude.{◌≡◌, refl, ap, sym, ◌⊎◌, inl, inr}

pub data Result {ℓ} (E A : Type ℓ) : Type ℓ where
  ok : A → Result E A
  err : E → Result E A

abbrev pub Exec {ℓ} : Type ℓ → Type ℓ → Type ℓ → Type ℓ
Exec S E A = S → Result E A × S

module _ {ℓ} {S E A : Type ℓ} where
  abbrev pub pure : A → Exec S E A
  pure a s = (ok a, s)

  abbrev pub raise : E → Exec S E A
  raise e s = (err e, s)

  -- What may raise and changes nothing.
  abbrev pub lift : Result E A → Exec S E A
  lift r s = (r, s)

  abbrev pub gets : (S → A) → Exec S E A
  gets f s = (ok (f s), s)

  abbrev pub handle : Result E A → (E → Exec S E A) → Exec S E A
  handle (ok a) k s = (ok a, s)
  handle (err e) k s = k e s

  -- `try: m except Exception as e: k(e)`
  abbrev pub catch : Exec S E A → (E → Exec S E A) → Exec S E A
  catch m k s = handle (m s).0 k (m s).1

  -- A question to the state that may raise.
  abbrev pub asks : (S → Result E A) → Exec S E A
  asks f s = (f s, s)

module _ {ℓ} {S E A B : Type ℓ} where
  abbrev pub continue : Result E A → (A → Exec S E B) → Exec S E B
  continue (ok a) f s = f a s
  continue (err e) f s = (err e, s)

  infixl 5 ◌>>=◌ ◌>>◌
  abbrev pub ◌>>=◌ : Exec S E A → (A → Exec S E B) → Exec S E B
  ◌>>=◌ m f s = continue (m s).0 f (m s).1

  abbrev pub ◌>>◌ : Exec S E A → Exec S E B → Exec S E B
  m >> k = m >>= λ _. k

module _ {ℓ} {S E : Type ℓ} where
  -- An effect with nothing to return.
  abbrev pub modify : (S → S) → Exec S E Unit
  modify f s = (ok tt, f s)

-- A chain of what may raise and changes nothing.
module _ {ℓ} {E A B : Type ℓ} where
  abbrev pub and_then : Result E A → (A → Result E B) → Result E B
  and_then (ok a) f = f a
  and_then (err e) f = err e

  pub and_then-ok :
      (m : Result E A) (f : A → Result E B) {b : B}
      → and_then m f ≡ ok b
      → (a : A) × (m ≡ ok a) × (f a ≡ ok b)
  and_then-ok (ok a) f h = (a, refl, h)
  and_then-ok (err e) f h = cc

pub ok-injective {ℓ} : {E A : Type ℓ} {a b : A} → ◌≡◌ {A = Result E A} (ok a) (ok b) → a ≡ b
ok-injective h = cc

pub ok-ne-err {ℓ} : {E A : Type ℓ} {a : A} {e : E} → ◌≡◌ {A = Result E A} (ok a) (err e) → ⊥
ok-ne-err h = cc

module _ {ℓ} {E A : Type ℓ} where
  pub Result-cases : (r : Result E A) → ((a : A) × (r ≡ ok a)) ⊎ ((e : E) × (r ≡ err e))
  Result-cases (ok a) = inl (a, refl)
  Result-cases (err e) = inr (e, refl)

module _ {ℓ} {S E A : Type ℓ} (m : Exec S E A) (k : E → Exec S E A) (s : S) where
  pub catch-ok : (a : A) → (m s).0 ≡ ok a → catch m k s ≡ m s
  catch-ok a h = rw h

  pub catch-err : (e : E) → (m s).0 ≡ err e → catch m k s ≡ k e (m s).1
  catch-err e h = rw h

  handle-raise : (r : Result E A) (t : S) (f e : E) → (handle r (λ _. raise f) t).0 ≡ err e → e ≡ f
  handle-raise (ok a) t f e h = cc
  handle-raise (err x) t f e h = cc

  -- A handler that raises one exception lets no other through.
  pub catch-raise : (f e : E) → (catch m (λ _. raise f) s).0 ≡ err e → e ≡ f
  catch-raise f e h = handle-raise (m s).0 (m s).1 f e h

module _ {ℓ} {S E A B : Type ℓ} where
  continue-ok :
      (r : Result E A) (f : A → Exec S E B) (t : S) {b : B}
      → (continue r f t).0 ≡ ok b
      → (a : A) × (r ≡ ok a) × ((f a t).0 ≡ ok b)
  continue-ok (ok a) f t h = (a, refl, h)
  continue-ok (err e) f t h = cc

  -- Inversion of a chain that returned.
  pub bind-ok :
      (m : Exec S E A) (f : A → Exec S E B) (s : S) {b : B}
      → ((m >>= f) s).0 ≡ ok b
      → (a : A) × ((m s).0 ≡ ok a) × ((f a (m s).1).0 ≡ ok b)
  bind-ok m f s h = continue-ok (m s).0 f (m s).1 h

  -- A chain goes on with the value and the state of its first part.
  pub bind-step :
      (m : Exec S E A) (f : A → Exec S E B) (s : S) (a : A)
      → (m s).0 ≡ ok a
      → (m >>= f) s ≡ f a (m s).1
  bind-step m f s a h = ap (λ r. continue r f (m s).1) h

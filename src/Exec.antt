-- ===== src/Exec.antt =====
-- Go methods that change an object and may return an error or panic. What was written before a
-- return stays written, so the state comes back beside every outcome.
pub mod Rules
pub mod Keeps
pub mod Leads
use eventing_manager.Base.{◌≢◌, ◌≡◌, refl, ap, Option, none, some, Bool, true, false, List, [], ◌∷◌}
use eventing_manager.Errors.{Error}

pub data Outcome (A : Type 0) : Type 0 where
  ok : A → Outcome A
  err : Error → Outcome A
  -- a run-time panic
  panic : Outcome A

abbrev pub Exec : Type 0 → Type 0 → Type 0
Exec S A = S → Outcome A × S

module _ {A : Type 0} where
  pub ok-ne-panic : (a : A) → ok a ≢ panic
  ok-ne-panic a e = cc

  pub err-ne-panic : (x : Error) → ◌≢◌ {A = Outcome A} (err x) panic
  err-ne-panic x e = cc

module _ {S A : Type 0} where
  unfoldable pub pure : A → Exec S A
  pure a s = (ok a, s)

  -- `return …, err`
  unfoldable pub fail : Error → Exec S A
  fail e s = (err e, s)

  unfoldable pub lift : Outcome A → Exec S A
  lift r s = (r, s)

  unfoldable pub gets : (S → A) → Exec S A
  gets f s = (ok (f s), s)

  -- A method that looks at its receiver as it is when the method is called.
  unfoldable pub looking : (S → Exec S A) → Exec S A
  looking m s = m s s

  -- The error is a value that the caller looks at: `if err := m(); err != nil { … }`.
  abbrev as_result : Outcome A → S → Outcome (Outcome A) × S
  as_result (ok a) s = (ok (ok a), s)
  as_result (err e) s = (ok (err e), s)
  as_result panic s = (panic, s)

  unfoldable pub attempt : Exec S A → Exec S (Outcome A)
  attempt m s = let (r, s') = m s in as_result r s'

unfoldable pub modify : {S : Type 0} → (S → S) → Exec S (Unit {0})
modify f s = (ok tt, f s)

module _ {S A B : Type 0} where
  abbrev pub continue : Outcome A → (A → Exec S B) → Exec S B
  continue (ok a) f s = f a s
  continue (err e) f s = (err e, s)
  continue panic f s = (panic, s)

  infixl 10 ◌>>=◌ ◌>>◌
  unfoldable pub ◌>>=◌ : Exec S A → (A → Exec S B) → Exec S B
  unfolding pure fail lift gets
  ◌>>=◌ m f s = let (outcome, t) = m s in continue outcome f t

  abbrev pub ◌>>◌ : Exec S A → Exec S B → Exec S B
  m >> n = m >>= λ _. n

  continue-eq-ok :
      (r : Outcome A) (f : A → Exec S B) (s : S) {b : B} {t : S}
      → continue r f s ≡ (ok b, t)
      → (a : A) × (r ≡ ok a) × (f a s ≡ (ok b, t))
  continue-eq-ok (ok a) f s h = (a, refl, h)
  continue-eq-ok (err e) f s h = cc
  continue-eq-ok panic f s h = cc

  -- A chain that returns has had a first step that returned.
  pub bind-eq-ok :
      (m : Exec S A) (f : A → Exec S B) (s : S) {b : B} {t : S}
      → (m >>= f) s ≡ (ok b, t)
      → (a : A) × (s' : S) × (m s ≡ (ok a, s')) × (f a s' ≡ (ok b, t))
  unfolding ◌>>=◌
  bind-eq-ok m f s h =
      let (r, s') = m s in
      let (a, e, k) = continue-eq-ok r f s' h in (a, s', ap (λ o. (o, s')) e, k)

module _ {S A B : Type 0} where
  -- The equations of a chain whose first step leaves the state alone.
  pub gets-bind : (g : S → A) (f : A → Exec S B) (s : S) → (gets g >>= f) s ≡ f (g s) s
  unfolding ◌>>=◌ gets
  gets-bind g f s = refl

  pub gets-bind-eq-ok :
      (g : S → A) (f : A → Exec S B) (s : S) {b : B} {t : S}
      → (gets g >>= f) s ≡ (ok b, t)
      → f (g s) s ≡ (ok b, t)
  unfolding ◌>>=◌ gets
  gets-bind-eq-ok g f s h = h

  pub lift-bind-eq-ok :
      (r : Outcome A) (f : A → Exec S B) (s : S) {b : B} {t : S}
      → (lift r >>= f) s ≡ (ok b, t)
      → (a : A) × (r ≡ ok a) × (f a s ≡ (ok b, t))
  unfolding ◌>>=◌ lift
  lift-bind-eq-ok r f s h = continue-eq-ok r f s h

unfoldable pub when : {S : Type 0} → Bool → Exec S (Unit {0}) → Exec S (Unit {0})
unfolding pure
when true m = m
when false m = pure tt

-- `for _, x := range xs { if err := body(x); err != nil { return err } }`
unfoldable pub for_each : {S A : Type 0} → List A → (A → Exec S (Unit {0})) → Exec S (Unit {0})
unfolding pure ◌>>=◌
for_each [] body = pure tt
for_each (x ∷ xs) body = body x >>= λ _. for_each xs body

module _ {S A B : Type 0} where
  abbrev pub branch : Outcome A → (Error → Exec S B) → (A → Exec S B) → Exec S B
  branch (ok a) h k s = k a s
  branch (err e) h k s = h e s
  branch panic h k s = (panic, s)

  -- `a, err := m(); if err != nil { return h(err) }`, and `k(a)` after it
  unfoldable pub handle : Exec S A → (Error → Exec S B) → (A → Exec S B) → Exec S B
  handle m h k s = let (r, s') = m s in branch r h k s'

-- ===== src/Exec/Rules.antt =====
-- What holds after a method that has returned without an error.
use mathlib.Core.Path.{subst, subst₂}
use eventing_manager.Base.{◌≡◌, refl, Bool, true, false, List, [], ◌∷◌, All}
use eventing_manager.Errors.{Error}
use eventing_manager.Exec.{
  Outcome, ok, err, panic, Exec, pure, fail, lift, gets, modify, attempt, when, ◌>>=◌, bind-eq-ok,
  for_each,
}
use eventing_manager.Base.{if◌then◌else◌}

module _ {S A : Type 0} where
  pub ok_inj : {a b : A} {s t : S} → ◌≡◌ {A = Outcome A × S} (ok a, s) (ok b, t) → (a ≡ b) × (s ≡ t)
  ok_inj e = (cc, cc)

  -- From a state with `P`, a return without error leads to a value and a state with `Q`.
  pub record Ensures (P : S → Type 0) (m : Exec S A) (Q : A → S → Type 0) : Type 0 where
    pub at : (s : S) → P s → (a : A) (t : S) → m s ≡ (ok a, t) → Q a t

  pub Ensures-pure :
      (P : S → Type 0) (a : A) (Q : A → S → Type 0) → ((s : S) → P s → Q a s) → Ensures P (pure a) Q
  unfolding pure
  Ensures-pure P a Q h = record { at = λ s p b t e. subst₂ Q (ok_inj e).0 (ok_inj e).1 (h s p) }

  pub Ensures-fail : (P : S → Type 0) (x : Error) (Q : A → S → Type 0) → Ensures P (fail x) Q
  unfolding fail
  Ensures-fail P x Q = record { at = λ s p b t e. cc }

  pub Ensures-mono :
      (P : S → Type 0) (m : Exec S A) (Q R : A → S → Type 0)
      → ((a : A) (s : S) → Q a s → R a s)
      → Ensures P m Q
      → Ensures P m R
  Ensures-mono P m Q R h k = record { at = λ s p b t e. h b t (k.at s p b t e) }

module _ {S A B : Type 0} where
  pub Ensures-bind :
      (P : S → Type 0) (m : Exec S A) (R : A → S → Type 0) (f : A → Exec S B) (Q : B → S → Type 0)
      → Ensures P m R
      → ((a : A) → Ensures (R a) (f a) Q)
      → Ensures P (m >>= f) Q
  Ensures-bind P m R f Q hm hf = record {
    at = λ s p b t e.
        let (a, s', e₁, e₂) = bind-eq-ok m f s e in (hf a).at s' (hm.at s p a s' e₁) b t e₂;
  }

module _ {S A : Type 0} where
  pub Ensures-for_each :
      (P : S → Type 0) (body : A → Exec S (Unit {0}))
      → ((x : A) → Ensures P (body x) (λ _. P))
      → (xs : List A) → Ensures P (for_each xs body) (λ _. P)
  unfolding for_each
  Ensures-for_each P body h [] = Ensures-pure P tt (λ _. P) (λ s p. p)
  Ensures-for_each P body h (x ∷ xs) =
      Ensures-bind P (body x) (λ _. P) (λ _. for_each xs body) (λ _. P) (h x)
        (λ _. Ensures-for_each P body h xs)

  -- Each round establishes its own fact, and every round keeps the facts of the others.
  pub Ensures-for_each_all :
      (P : S → Type 0) (R : A → S → Type 0) (body : A → Exec S (Unit {0}))
      → ((x : A) → Ensures P (body x) (λ _ s. P s × R x s))
      → ((x y : A) → Ensures (λ s. P s × R y s) (body x) (λ _ s. P s × R y s))
      → (xs : List A) → Ensures P (for_each xs body) (λ _ s. P s × All (λ x. R x s) xs)
  unfolding for_each
  Ensures-for_each_all P R body make keep [] = Ensures-pure P tt _ (λ s p. (p, tt))
  Ensures-for_each_all P R body make keep (x ∷ xs) = record {
    at = λ s p a t e.
        let (_, s', e₁, e₂) = bind-eq-ok (body x) (λ _. for_each xs body) s e in
        let (p', r) = (make x).at s p _ s' e₁ in
        let (_, rs) = (Ensures-for_each_all P R body make keep xs).at s' p' a t e₂ in
        let (p'', r'') =
          (Ensures-for_each (λ s. P s × R x s) body (λ y. keep y x) xs).at s' (p', r) a t e₂ in
        (p'', (r'', rs));
  }

module _ {S : Type 0} where
  pub Ensures-when :
      (P Q : S → Type 0) (b : Bool) (m : Exec S (Unit {0}))
      → (b ≡ true → Ensures P m (λ _. Q))
      → (b ≡ false → (s : S) → P s → Q s)
      → Ensures P (when b m) (λ _. Q)
  unfolding when
  Ensures-when P Q true m h k = h refl
  Ensures-when P Q false m h k = Ensures-pure P tt (λ _. Q) (k refl)

module _ {S A : Type 0} where
  attempt-lift-eq :
      (m : Outcome A) (s : S) (r : Outcome A) (t : S)
      → attempt (lift m) s ≡ (ok r, t)
      → (m ≡ r) × (s ≡ t)
  unfolding attempt lift
  attempt-lift-eq (ok a) s r t e = (cc, cc)
  attempt-lift-eq (err x) s r t e = (cc, cc)
  attempt-lift-eq panic s r t e = (cc, cc)

  -- What an attempt hands on is the outcome of the call.
  pub attempt-eq-ok :
      (m : Exec S A) (s : S) (r : Outcome A) (t : S) → attempt m s ≡ (ok r, t) → m s ≡ (r, t)
  unfolding attempt lift
  attempt-eq-ok m s r t e =
      let (q, s') = m s in let (h, k) = attempt-lift-eq q s' r t e in λ i. (h i, k i)

  pub Ensures-attempt :
      (P : S → Type 0) (m : Exec S A) (Q : Outcome A → S → Type 0)
      → ((s : S) → P s → (r : Outcome A) (t : S) → m s ≡ (r, t) → Q r t)
      → Ensures P (attempt m) Q
  Ensures-attempt P m Q h = record { at = λ s p r t e. h s p r t (attempt-eq-ok m s r t e) }

  pub Ensures-gets :
      (P : S → Type 0) (g : S → A) (Q : A → S → Type 0)
      → ((s : S) → P s → Q (g s) s)
      → Ensures P (gets g) Q
  unfolding gets
  Ensures-gets P g Q h = record { at = λ s p a t e. subst₂ Q (ok_inj e).0 (ok_inj e).1 (h s p) }

  pub Ensures-lift :
      (P : S → Type 0) (r : Outcome A) (Q : A → S → Type 0)
      → ((a : A) (s : S) → r ≡ ok a → P s → Q a s)
      → Ensures P (lift r) Q
  unfolding lift
  Ensures-lift P r Q h = record {
    at = λ s p a t e. subst (λ u. Q a u) (λ i. (e i).1) (h a s (λ i. (e i).0) p);
  }

module _ {S : Type 0} where
  pub Ensures-modify :
      (P : S → Type 0) (g : S → S) (Q : S → Type 0)
      → ((s : S) → P s → Q (g s))
      → Ensures P (modify g) (λ _. Q)
  unfolding modify
  Ensures-modify P g Q h = record { at = λ s p a t e. subst Q (λ i. (e i).1) (h s p) }

module _ {S A : Type 0} where
  pub Ensures-if :
      (P : S → Type 0) (b : Bool) (m n : Exec S A) (Q : A → S → Type 0)
      → (b ≡ true → Ensures P m Q)
      → (b ≡ false → Ensures P n Q)
      → Ensures P (if b then m else n) Q
  Ensures-if P true m n Q h k = h refl
  Ensures-if P false m n Q h k = k refl

-- ===== src/Exec/Leads.antt =====
-- What a method leads to from a state: it does not panic, `Q` holds of the value and the state after a
-- return without error, and `E` of the state after a return with an error.
use eventing_manager.Base.{inl, inr, ◌≢◌, ◌≡◌, refl, sym, subst, Bool, true, false, if◌then◌else◌}
use eventing_manager.Errors.{Error}
use eventing_manager.Exec.{
  Outcome, ok, err, panic, Exec, pure, fail, lift, gets, looking, modify, when, ◌>>=◌, handle,
  branch, continue,
}
use eventing_manager.Base.{◌⊎◌}

module _ {S A : Type 0} where
  abbrev pub PostOr : (S → Type 0) → (A → S → Type 0) → (S → Type 0) → Outcome A → S → Type 0
  PostOr X Q E (ok a) s = Q a s
  PostOr X Q E (err e) s = E s
  PostOr X Q E panic s = X s

  abbrev pub Post : (A → S → Type 0) → (S → Type 0) → Outcome A → S → Type 0
  Post = PostOr (λ s. ⊥)

  -- The method may panic where `X` holds then.
  pub record LeadsOr (X : S → Type 0) (P : S → Type 0) (m : Exec S A) (Q : A → S → Type 0)
      (E : S → Type 0) : Type 0 where
    pub at : (s : S) → P s → PostOr X Q E (m s).0 (m s).1

  abbrev pub Leads : (S → Type 0) → Exec S A → (A → S → Type 0) → (S → Type 0) → Type 0
  Leads = LeadsOr (λ s. ⊥)

  PostOr-total :
      (X : S → Type 0) (Q : A → S → Type 0) (E : S → Type 0) (r : Outcome A) (s : S)
      → Post Q E r s
      → PostOr X Q E r s
  PostOr-total X Q E (ok a) s p = p
  PostOr-total X Q E (err e) s p = p
  PostOr-total X Q E panic s p = elim p [ ]

  pub Leads-total :
      {X P : S → Type 0} {m : Exec S A} {Q : A → S → Type 0} {E : S → Type 0}
      → Leads P m Q E
      → LeadsOr X P m Q E
  Leads-total {m} l = record { at = λ s p. PostOr-total _ _ _ (m s).0 (m s).1 (l.at s p) }

  -- The condition of a run that returned without error.
  pub Leads-ok :
      {X : S → Type 0} {P : S → Type 0} {m : Exec S A} {Q : A → S → Type 0} {E : S → Type 0}
      {s t : S} {a : A}
      → LeadsOr X P m Q E
      → P s
      → m s ≡ (ok a, t)
      → Q a t
  Leads-ok {X} {Q} {E} l p e = subst (λ o. PostOr X Q E o.0 o.1) e (l.at _ p)

  returned :
      {Q : A → S → Type 0} (r : Outcome A) (s : S)
      → Post Q (λ _. ⊥) r s
      → (a : A) × (t : S) × (◌≡◌ {A = Outcome A × S} (r, s) (ok a, t)) × Q a t
  returned (ok a) s p = (a, s, refl, p)
  returned (err e) s p = elim p [ ]
  returned panic s p = elim p [ ]

  -- A method without a return of an error returns.
  pub Leads-returns :
      {P : S → Type 0} (m : Exec S A) {Q : A → S → Type 0} (s : S)
      → P s
      → Leads P m Q (λ _. ⊥)
      → (a : A) × (t : S) × (m s ≡ (ok a, t)) × Q a t
  Leads-returns m s p l = returned (m s).0 (m s).1 (l.at s p)

  returned_or :
      {Q : A → S → Type 0} {X : S → Type 0} (r : Outcome A) (s : S)
      → PostOr X Q (λ _. ⊥) r s
      → ((a : A) × (t : S) × (◌≡◌ {A = Outcome A × S} (r, s) (ok a, t)) × Q a t)
        ⊎ ((t : S) × (◌≡◌ {A = Outcome A × S} (r, s) (panic, t)) × X t)
  returned_or (ok a) s p = inl (a, s, refl, p)
  returned_or (err e) s p = elim p [ ]
  returned_or panic s p = inr (s, refl, p)

  -- A method without a return of an error returns, or panics where it may.
  pub Leads-replies :
      {P X : S → Type 0} (m : Exec S A) {Q : A → S → Type 0} (s : S)
      → P s
      → LeadsOr X P m Q (λ _. ⊥)
      → ((a : A) × (t : S) × (m s ≡ (ok a, t)) × Q a t) ⊎ ((t : S) × (m s ≡ (panic, t)) × X t)
  Leads-replies m s p l = returned_or (m s).0 (m s).1 (l.at s p)

  PostOr-crash :
      (X Y : S → Type 0) (Q : A → S → Type 0) (E : S → Type 0) (r : Outcome A) (s : S)
      → (X s → Y s)
      → PostOr X Q E r s
      → PostOr Y Q E r s
  PostOr-crash X Y Q E (ok a) s h p = p
  PostOr-crash X Y Q E (err e) s h p = p
  PostOr-crash X Y Q E panic s h p = h p

  pub Leads-crash :
      {X Y P : S → Type 0} {m : Exec S A} {Q : A → S → Type 0} {E : S → Type 0}
      → ((s : S) → X s → Y s)
      → LeadsOr X P m Q E
      → LeadsOr Y P m Q E
  Leads-crash {m} h l = record {
    at = λ s p. PostOr-crash _ _ _ _ (m s).0 (m s).1 (h (m s).1) (l.at s p);
  }

  pub Leads-lift_cases :
      {X P : S → Type 0} (r : Outcome A) {Q : A → S → Type 0} {E : S → Type 0}
      → ((a : A) (s : S) → r ≡ ok a → P s → Q a s)
      → ((e : Error) (s : S) → r ≡ err e → P s → E s)
      → ((s : S) → r ≡ panic → P s → X s)
      → LeadsOr X P (lift r) Q E
  unfolding lift
  Leads-lift_cases (ok a) h k l = record { at = λ s. h a s refl }
  Leads-lift_cases (err e) h k l = record { at = λ s. k e s refl }
  Leads-lift_cases panic h k l = record { at = λ s. l s refl }

  pub Leads-pure :
      {X : S → Type 0} {P : S → Type 0} (a : A) {Q : A → S → Type 0} {E : S → Type 0}
      → ((s : S) → P s → Q a s)
      → LeadsOr X P (pure a) Q E
  unfolding pure
  Leads-pure a h = record { at = h }

  pub Leads-fail :
      {X : S → Type 0} {P : S → Type 0} (x : Error) {Q : A → S → Type 0} {E : S → Type 0}
      → ((s : S) → P s → E s)
      → LeadsOr X P (fail x) Q E
  unfolding fail
  Leads-fail x h = record { at = h }

  pub Leads-gets :
      {X : S → Type 0} {P : S → Type 0} (g : S → A) {Q : A → S → Type 0} {E : S → Type 0}
      → ((s : S) → P s → Q (g s) s)
      → LeadsOr X P (gets g) Q E
  unfolding gets
  Leads-gets g h = record { at = h }

  Post-mono :
      (X : S → Type 0) (Q R : A → S → Type 0) (E F : S → Type 0) (r : Outcome A) (s : S)
      → ((a : A) → Q a s → R a s)
      → (E s → F s)
      → PostOr X Q E r s
      → PostOr X R F r s
  Post-mono X Q R E F (ok a) s h k p = h a p
  Post-mono X Q R E F (err e) s h k p = k p
  Post-mono X Q R E F panic s h k p = p

  pub Leads-mono :
      {X : S → Type 0} {P P' : S → Type 0} {m : Exec S A} {Q R : A → S → Type 0} {E F : S → Type 0}
      → ((s : S) → P' s → P s)
      → ((a : A) (s : S) → Q a s → R a s)
      → ((s : S) → E s → F s)
      → LeadsOr X P m Q E
      → LeadsOr X P' m R F
  Leads-mono {m} g h k l = record {
    at = λ s p. let (r, t) = m s in Post-mono _ _ _ _ _ r t (λ a. h a t) (k t) (l.at s (g s p));
  }

  pub Leads-lift :
      {X : S → Type 0} {P : S → Type 0} (r : Outcome A) {Q : A → S → Type 0} {E : S → Type 0}
      → r ≢ panic
      → ((a : A) (s : S) → r ≡ ok a → P s → Q a s)
      → ((s : S) → P s → E s)
      → LeadsOr X P (lift r) Q E
  unfolding lift
  Leads-lift (ok a) d h k = record { at = λ s. h a s refl }
  Leads-lift (err e) d h k = record { at = k }
  Leads-lift panic d h k = record { at = λ s p. elim (d refl) [ ] }

  pub Leads-lift_ok :
      {X : S → Type 0} {P : S → Type 0} (r : Outcome A) (a : A) {Q : A → S → Type 0}
      {E : S → Type 0}
      → r ≡ ok a
      → ((s : S) → P s → Q a s)
      → LeadsOr X P (lift r) Q E
  unfolding lift
  Leads-lift_ok (ok b) a {Q} h k = record {
    at = λ s p. subst (λ x. Q x s) (ok_inj (sym h)) (k s p);
  }
    where
      ok_inj : ok a ≡ ok b → a ≡ b
      ok_inj e = cc
  Leads-lift_ok (err e) a h k = record { at = λ s p. cc }
  Leads-lift_ok panic a h k = record { at = λ s p. cc }

  pub Leads-looking :
      {X : S → Type 0} {P : S → Type 0} (m : S → Exec S A) {Q : A → S → Type 0} {E : S → Type 0}
      → ((x : S) → P x → LeadsOr X P (m x) Q E)
      → LeadsOr X P (looking m) Q E
  unfolding looking
  Leads-looking m h = record { at = λ s p. (h s p).at s p }

  -- What does not depend on the state may be used from the outside.
  pub Leads-given :
      {X : S → Type 0} {P : S → Type 0} {R : Type 0} {m : Exec S A} {Q : A → S → Type 0}
      {E : S → Type 0}
      → (R → LeadsOr X P m Q E)
      → LeadsOr X (λ s. P s × R) m Q E
  Leads-given h = record { at = λ s p. (h p.1).at s p.0 }

  pub Leads-if :
      {X : S → Type 0} {P : S → Type 0} (b : Bool) {m n : Exec S A} {Q : A → S → Type 0}
      {E : S → Type 0}
      → (b ≡ true → LeadsOr X P m Q E)
      → (b ≡ false → LeadsOr X P n Q E)
      → LeadsOr X P (if b then m else n) Q E
  Leads-if true h k = h refl
  Leads-if false h k = k refl

module _ {S : Type 0} where
  pub Leads-modify :
      {X : S → Type 0} {P : S → Type 0} (g : S → S) {Q : Unit {0} → S → Type 0} {E : S → Type 0}
      → ((s : S) → P s → Q tt (g s))
      → LeadsOr X P (modify g) Q E
  unfolding modify
  Leads-modify g h = record { at = h }

  pub Leads-when :
      {X : S → Type 0} {P : S → Type 0} (b : Bool) {m : Exec S (Unit {0})}
      {Q : Unit {0} → S → Type 0} {E : S → Type 0}
      → (b ≡ true → LeadsOr X P m Q E)
      → (b ≡ false → (s : S) → P s → Q tt s)
      → LeadsOr X P (when b m) Q E
  unfolding when
  Leads-when true h k = h refl
  Leads-when false h k = Leads-pure tt (k refl)

module _ {S A B : Type 0} where
  Post-continue :
      {X : S → Type 0} {Q : A → S → Type 0} {E : S → Type 0} {R : B → S → Type 0} (f : A → Exec S B)
      (r : Outcome A) (s : S)
      → ((a : A) → LeadsOr X (Q a) (f a) R E)
      → PostOr X Q E r s
      → PostOr X R E (continue r f s).0 (continue r f s).1
  Post-continue f (ok a) s k p = (k a).at s p
  Post-continue f (err e) s k p = p
  Post-continue f panic s k p = p

  pub Leads-bind :
      {X : S → Type 0} {P : S → Type 0} (m : Exec S A) (Q : A → S → Type 0) (f : A → Exec S B)
      {R : B → S → Type 0} {E : S → Type 0}
      → LeadsOr X P m Q E
      → ((a : A) → LeadsOr X (Q a) (f a) R E)
      → LeadsOr X P (m >>= f) R E
  unfolding ◌>>=◌
  Leads-bind m Q f l k = record { at = λ s p. let (r, t) = m s in Post-continue f r t k (l.at s p) }

  Post-branch :
      {X : S → Type 0} {Q : A → S → Type 0} {E F : S → Type 0} {R : B → S → Type 0}
      (h : Error → Exec S B) (f : A → Exec S B) (r : Outcome A) (s : S)
      → ((a : A) → LeadsOr X (Q a) (f a) R F)
      → ((e : Error) → LeadsOr X E (h e) R F)
      → PostOr X Q E r s
      → PostOr X R F (branch r h f s).0 (branch r h f s).1
  Post-branch h f (ok a) s k l p = (k a).at s p
  Post-branch h f (err e) s k l p = (l e).at s p
  Post-branch h f panic s k l p = p

  pub Leads-handle :
      {X : S → Type 0} {P : S → Type 0} (m : Exec S A) (Q : A → S → Type 0) (E : S → Type 0)
      (h : Error → Exec S B) (f : A → Exec S B) {R : B → S → Type 0} {F : S → Type 0}
      → LeadsOr X P m Q E
      → ((e : Error) → LeadsOr X E (h e) R F)
      → ((a : A) → LeadsOr X (Q a) (f a) R F)
      → LeadsOr X P (handle m h f) R F
  unfolding handle
  Leads-handle m Q E h f l k n = record {
    at = λ s p. let (r, t) = m s in Post-branch h f r t n k (l.at s p);
  }

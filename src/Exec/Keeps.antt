-- ===== src/Exec/Keeps.antt =====
-- A view of the state that a method leaves alone, whatever its outcome.
use eventing_manager.Base.{◌≡◌, refl, sym, ap, ◌∙◌, Bool, true, false, List, [], ◌∷◌}
use eventing_manager.Errors.{Error}
use eventing_manager.Exec.{
  Outcome, ok, err, panic, Exec, pure, fail, lift, gets, modify, attempt, when, ◌>>=◌, for_each,
}
use eventing_manager.Exec.Rules.{Ensures}
use eventing_manager.Base.{if◌then◌else◌}

pub record Keeps {S V A : Type 0} (f : S → V) (m : Exec S A) : Type 0 where
  pub at : (s : S) → f (m s).1 ≡ f s

module _ {S A : Type 0} where
  attempt-state : (r : Outcome A) (s : S) → (attempt (lift r) s).1 ≡ s
  unfolding attempt lift
  attempt-state (ok a) s = refl
  attempt-state (err e) s = refl
  attempt-state panic s = refl

module _ {S V A : Type 0} {f : S → V} where
  pub Keeps-pure : (a : A) → Keeps f (pure a)
  unfolding pure
  Keeps-pure a = record { at = λ s. refl }

  pub Keeps-fail : (e : Error) → Keeps {A = A} f (fail e)
  unfolding fail
  Keeps-fail e = record { at = λ s. refl }

  pub Keeps-lift : (r : Outcome A) → Keeps f (lift r)
  unfolding lift
  Keeps-lift r = record { at = λ s. refl }

  pub Keeps-gets : (g : S → A) → Keeps f (gets g)
  unfolding gets
  Keeps-gets g = record { at = λ s. refl }

  -- A kept view holds its value over a return without error.
  pub Ensures-Keeps : (m : Exec S A) (v : V) → Keeps f m → Ensures (λ s. f s ≡ v) m (λ _ s. f s ≡ v)
  Ensures-Keeps m v k = record { at = λ s p a t e. sym (ap (λ o. f o.1) e) ∙ k.at s ∙ p }

module _ {S V : Type 0} {f : S → V} where
  pub Keeps-modify : (g : S → S) → ((s : S) → f (g s) ≡ f s) → Keeps f (modify g)
  unfolding modify
  Keeps-modify g h = record { at = h }

  pub Keeps-when : (b : Bool) (m : Exec S (Unit {0})) → Keeps f m → Keeps f (when b m)
  unfolding when
  Keeps-when true m k = k
  Keeps-when false m k = Keeps-pure tt

module _ {S V A : Type 0} {f : S → V} where
  pub Keeps-if : (b : Bool) (m n : Exec S A) → Keeps f m → Keeps f n → Keeps f (if b then m else n)
  Keeps-if true m n km kn = km
  Keeps-if false m n km kn = kn

module _ {S V A B : Type 0} {f : S → V} where
  Keeps-continue :
      (r : Outcome A) (g : A → Exec S B) (s : S)
      → ((a : A) → Keeps f (g a))
      → f ((lift r >>= g) s).1 ≡ f s
  unfolding ◌>>=◌ lift
  Keeps-continue (ok a) g s k = (k a).at s
  Keeps-continue (err e) g s k = refl
  Keeps-continue panic g s k = refl

  pub Keeps-bind :
      (m : Exec S A) (g : A → Exec S B) → Keeps f m → ((a : A) → Keeps f (g a)) → Keeps f (m >>= g)
  unfolding ◌>>=◌ lift
  Keeps-bind m g km kg = record {
    at = λ s. let (r, s') = m s in Keeps-continue r g s' kg ∙ km.at s;
  }

module _ {S V A : Type 0} {f : S → V} where
  pub Keeps-attempt : (m : Exec S A) → Keeps f m → Keeps f (attempt m)
  unfolding attempt lift
  Keeps-attempt m k = record { at = λ s. let (r, s') = m s in ap f (attempt-state r s') ∙ k.at s }

  pub Keeps-for_each :
      (xs : List A) (body : A → Exec S (Unit {0}))
      → ((x : A) → Keeps f (body x))
      → Keeps f (for_each xs body)
  unfolding for_each
  Keeps-for_each [] body k = Keeps-pure tt
  Keeps-for_each (x ∷ xs) body k = Keeps-bind (body x) _ (k x) (λ _. Keeps-for_each xs body k)

pub ruleset keeps_rules = (
  Keeps-pure, Keeps-fail, Keeps-lift, Keeps-gets, Keeps-modify, Keeps-when, Keeps-bind,
  Keeps-attempt, Keeps-for_each,
)

-- ===== src/Operator/Calls.antt =====
-- The calls behind a method that has returned without error.
use eventing_manager.Base.{if◌then◌else◌, false, some, ◌∙◌, ◌≡◌, sym, ap}
use eventing_manager.Exec.{when, Outcome, Exec, ok, modify}
use eventing_manager.Operator.{
  BackendSpec, with_backend, give_backend, Cluster, Operator, on_cluster, produce,
}
use eventing_manager.Base.Int.{int_beq_iff}
use eventing_manager.Base.{ℤ, Bool, true, ◌!=◌, ◌≢◌, int_eq, arith}
use eventing_manager.Base.{Option}
use eventing_manager.Operator.{DefaultSubscriptionConfig}
use eventing_manager.Base.{Bool}
use eventing_manager.Operator.{Params}
use eventing_manager.Base.{some}

module _ {C : Cluster} {A : Type 0} where
  pub on_cluster-eq-ok :
      (m : Exec C.State A) (s : Operator C) {a : A} {t : Operator C}
      → on_cluster m s ≡ (ok a, t)
      → (v : C.State) × (m s.cluster ≡ (ok a, v)) × (t ≡ record s { cluster = v })
  unfolding on_cluster
  on_cluster-eq-ok m s h = ((m s.cluster).1, λ i. ((h i).0, (m s.cluster).1), sym (ap (λ o. o.1) h))

module _ {C : Cluster} {A : Type 0} where
  pub produce-eq-ok :
      (m : C.State → A × C.State) (s : Operator C) {a : A} {t : Operator C}
      → produce m s ≡ (ok a, t)
      → t ≡ record s { cluster = (m s.cluster).1 }
  unfolding produce on_cluster
  produce-eq-ok m s h = sym (ap (λ o. o.1) h)

module _ {C : Cluster} {A : Type 0} where
  pub with_backend-eq :
      (m : BackendSpec → Exec (Operator C) A) (b : BackendSpec) (s : Operator C)
      {o : Outcome A × Operator C}
      → s.eventing.backend ≡ some b
      → with_backend m s ≡ o
      → m b s ≡ o
  unfolding with_backend
  with_backend-eq m b s e h = ap (λ x. give_backend x m s) (sym e) ∙ h

module _ {S A : Type 0} where
  pub if-eq-false :
      (b : Bool) (m n : Exec S A) (s : S) {o : Outcome A × S}
      → b ≡ false
      → (if b then m else n) s ≡ o
      → n s ≡ o
  if-eq-false true m n s e h = cc
  if-eq-false false m n s e h = h

  pub if-eq-true :
      (b : Bool) (m n : Exec S A) (s : S) {o : Outcome A × S}
      → b ≡ true
      → (if b then m else n) s ≡ o
      → m s ≡ o
  if-eq-true true m n s e h = h
  if-eq-true false m n s e h = cc

pub when-eq-true :
    {S : Type 0} (b : Bool) (m : Exec S (Unit {0})) (s : S) {o : Outcome (Unit {0}) × S}
    → b ≡ true
    → when b m s ≡ o
    → m s ≡ o
unfolding when
when-eq-true true m s e h = h
when-eq-true false m s e h = cc

pub changed-ne : (a b : ℤ) → (a != b) ≡ true → a ≢ b
changed-ne a b h e = ground (arith, int_beq_iff a b)

pub modify-eq-ok : {S : Type 0} (f : S → S) (s : S) {t : S} → modify f s ≡ (ok tt, t) → t ≡ f s
unfolding modify
modify-eq-ok f s h = sym (ap (λ o. o.1) h)

-- A manager that runs has been stopped by a call of `Stop` that returned without error.
abbrev pub IsStoppedBy : (C : Cluster) → Option C.Manager → Bool → C.State → Type 0
IsStoppedBy C o cleanup u =
    (m : C.Manager) × (o ≡ some m) × (v : C.State) × (C.stop_manager m cleanup u ≡ (ok tt, v))

-- The last call was one of `Start` on the manager, and returned without error.
abbrev pub IsStartedBy :
    (C : Cluster) → Option C.Manager → DefaultSubscriptionConfig → Params → C.State → Type 0
IsStartedBy C o subs params v =
    (m : C.Manager) × (o ≡ some m) × (u : C.State) × (C.start_manager m subs params u ≡ (ok tt, v))

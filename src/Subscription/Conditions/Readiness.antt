-- ===== src/Subscription/Conditions/Readiness.antt =====
-- What `IsReady` and `InitializeConditions` guarantee.
use eventing_manager.Base.{
  ◌≡◌, refl, ◌≢◌, ℕ, String, true, false, ◌==◌, string_eq, if◌then◌else◌, Option, none, some, List,
  [], ◌∷◌, ◌++◌, arith, Bool-cases, inl, inr, eq_iff, length, All,
}
use eventing_manager.Subscription.{Condition, SubscriptionStatus}
use eventing_manager.Subscription.Conditions.{
  condition_subscribed, condition_subscription_active, condition_subscription_spec_valid,
  condition_api_rule_status, condition_webhook_call_status, condition_true, contain_condition_type,
  find_condition, append_missing, initialize_conditions, is_ready, all_true,
}

-- The five condition types that a Subscription should have.
abbrev pub expected_types : List String
expected_types =
    condition_api_rule_status ∷ condition_subscribed ∷ condition_subscription_active
    ∷ condition_webhook_call_status ∷ condition_subscription_spec_valid ∷ []

-- A lookup of `t` finds a condition whose status is true.
abbrev pub IsTrueAt : List Condition → String → Type 0
IsTrueAt cs t = (d : Condition) × (find_condition cs t ≡ some d) × (d.status ≡ condition_true)

IsTrueAt-of_all_true :
    (cs : List Condition) (t : String)
    → all_true cs ≡ true
    → contain_condition_type cs t ≡ true
    → IsTrueAt cs t
unfolding all_true contain_condition_type find_condition
IsTrueAt-of_all_true [] t h k = cc
IsTrueAt-of_all_true (c ∷ cs) t h k = elim (Bool-cases (t == c.type)) [
  | inl e ↦ (c, ground arith, ground (arith, eq_iff c.status condition_true))
  | inr e ↦
      let (d, f, q) =
        IsTrueAt-of_all_true cs t (ground arith)
          (ground (arith, eq_iff t c.type, eq_iff c.type t)) in
      (d, ground arith, q)
]

-- A ready Subscription has exactly five conditions, and one with status true of each expected type.
pub is_ready_sound :
    (now : ℕ) (s : SubscriptionStatus)
    → is_ready now s ≡ true
    → (length s.conditions ≡ 5) × All (IsTrueAt s.conditions) expected_types
unfolding is_ready
is_ready_sound now s h =
    let at = IsTrueAt-of_all_true s.conditions in
    (
      ground arith,
      (
        at condition_api_rule_status (ground arith) (ground arith),
        (
          at condition_subscribed (ground arith) (ground arith),
          (
            at condition_subscription_active (ground arith) (ground arith),
            (
              at condition_webhook_call_status (ground arith) (ground arith),
              (at condition_subscription_spec_valid (ground arith) (ground arith), tt),
            ),
          ),
        ),
      ),
    )

abbrev pub or_else : Option Condition → Option Condition → Option Condition
or_else none o = o
or_else (some c) o = some c

find-append :
    (cs : List Condition) (e : Condition) (t : String)
    → find_condition (cs ++ e ∷ []) t
      ≡ or_else (find_condition cs t) (if t == e.type then some e else none)
unfolding find_condition
find-append [] e t = refl
find-append (c ∷ cs) e t = ground (arith, find-append cs e t)

contains_of_find :
    (cs : List Condition) (t : String)
    → contain_condition_type cs t ≡ false
    → find_condition cs t ≡ none
unfolding find_condition contain_condition_type
contains_of_find [] t h = refl
contains_of_find (c ∷ cs) t h =
    ground (arith, eq_iff t c.type, eq_iff c.type t, contains_of_find cs t)

find_of_contains :
    (cs : List Condition) (t : String)
    → contain_condition_type cs t ≡ true
    → find_condition cs t ≢ none
unfolding find_condition contain_condition_type
find_of_contains [] t h = cc
find_of_contains (c ∷ cs) t h =
    ground (arith, eq_iff t c.type, eq_iff c.type t, find_of_contains cs t)

find-append_missing :
    (es given final : List Condition) (t : String)
    → find_condition (append_missing es given final) t
      ≡ or_else
          (find_condition final t)
          (if contain_condition_type given t then none else find_condition es t)
unfolding append_missing find_condition
find-append_missing [] given final t = ground arith
find-append_missing (e ∷ es) given final t = ground (
  arith,
  eq_iff t e.type,
  find-append final e t,
  find-append_missing es given final t,
  find-append_missing es given (final ++ e ∷ []) t,
)

-- `InitializeConditions` keeps what a lookup of a present type finds, and a lookup of a missing
-- type then finds what it finds in the list of expected conditions.
pub find_condition-initialize_conditions :
    (initial current : List Condition) (t : String)
    → find_condition (initialize_conditions initial current) t ≡ (
        if contain_condition_type current t
        then find_condition current t
        else find_condition initial t)
unfolding initialize_conditions
find_condition-initialize_conditions initial current t =
    rw (find-append_missing initial current current t)
      (ground (arith, contains_of_find current t, find_of_contains current t))

-- ===== src/OperatorStatus/Laws.antt =====
-- What the setters of the status leave in it.
use eventing_manager.Base.{
  ◌≡◌, ◌≢◌, refl, ap, ◌∙◌, ℕ, String, Option, none, some, List, [], ◌∷◌, ◌==◌, string_eq,
  if◌then◌else◌, eq_iff, arith, Bool-cases, inl, inr,
}
use eventing_manager.OperatorStatus.{
  Condition, EventingStatus, is_supported, keep_supported, remove_unsupported_conditions,
  set_state_ready, state_ready, condition_backend_available, condition_publisher_proxy_ready,
  update_condition_backend_available, update_condition_publisher_proxy_ready,
}

-- `meta.FindStatusCondition`: the first condition of the type
abbrev pub find : String → List Condition → Option Condition
find t [] = none
find t (c ∷ cs) = if c.type == t then some c else find t cs

-- The status of the first condition of the type
abbrev pub status_of : String → List Condition → Option String
status_of t cs = elim (find t cs) [ none ↦ none | some c ↦ some c.status ]

-- What is documented of `SetStatusCondition`: the condition of the type gets the status, and those of
-- the other types stay.
pub record IsLawful (set : Condition → List Condition → List Condition) : Type 0 where
  pub status_of-set :
      (c : Condition) (cs : List Condition) → status_of c.type (set c cs) ≡ some c.status
  pub find-set_other :
      (c : Condition) (t : String) (cs : List Condition)
      → t ≢ c.type
      → find t (set c cs) ≡ find t cs

find-keep_supported :
    (t : String) (cs : List Condition)
    → find t (keep_supported cs) ≡ (if is_supported t then find t cs else none)
unfolding keep_supported
find-keep_supported t [] = ground arith
find-keep_supported t (c ∷ cs) = elim (Bool-cases (c.type == t)) [
  | inl same ↦ ground (arith, find-keep_supported t cs, ap is_supported ((eq_iff c.type t).0 same))
  | inr other ↦ ground (arith, find-keep_supported t cs)
]

-- `RemoveUnsupportedConditions` keeps what a lookup of a supported type finds, removes every condition
-- of another type, and keeps the state.
pub remove_unsupported_conditions_lem :
    (es : EventingStatus) (t : String)
    → (find t (remove_unsupported_conditions es).conditions
        ≡ (if is_supported t then find t es.conditions else none))
      × ((remove_unsupported_conditions es).state ≡ es.state)
unfolding remove_unsupported_conditions
remove_unsupported_conditions_lem es t = (find-keep_supported t es.conditions, refl)

module _ (set : Condition → List Condition → List Condition) (lawful : IsLawful set) (now : ℕ) where
  -- After `SetStateReady` the state is ready, the backend and the publisher proxy have status true, and
  -- the conditions of the other types are as they were.
  pub set_state_ready_lem :
      (es : EventingStatus)
      → ((set_state_ready set now es).state ≡ state_ready)
        × (status_of condition_backend_available (set_state_ready set now es).conditions
            ≡ some "True")
        × (status_of condition_publisher_proxy_ready (set_state_ready set now es).conditions
            ≡ some "True")
        × ((t : String)
            → t ≢ condition_backend_available
            → t ≢ condition_publisher_proxy_ready
            → find t (set_state_ready set now es).conditions ≡ find t es.conditions)
  unfolding set_state_ready update_condition_backend_available
      update_condition_publisher_proxy_ready
  set_state_ready_lem es = (
    refl,
    ap (λ o. elim o [ none ↦ none | some c ↦ some c.status ])
          (lawful.find-set_other _ condition_backend_available _ (λ e. cc))
        ∙ lawful.status_of-set _ es.conditions,
    lawful.status_of-set _ _,
    λ t b p. lawful.find-set_other _ t _ p ∙ lawful.find-set_other _ t es.conditions b,
  )

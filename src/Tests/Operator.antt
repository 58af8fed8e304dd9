-- ===== src/Tests/Operator.antt =====
-- The status of an Eventing resource, with conditions that are set in a list.
use eventing_manager.Base.{
  ◌≡◌, ◌≢◌, refl, ap, pos, String, none, some, List, [], ◌∷◌, ◌==◌, string_eq, eq_iff,
  if◌then◌else◌, arith, Bool-cases, inl, inr,
}
use eventing_manager.OperatorStatus.{
  Condition, EventingStatus, is_supported, remove_unsupported_conditions, set_state_ready,
  state_ready, condition_backend_available, condition_publisher_proxy_ready,
}
use eventing_manager.OperatorStatus.Laws.{
  IsLawful, find, status_of, remove_unsupported_conditions_lem, set_state_ready_lem,
}

abbrev set : Condition → List Condition → List Condition
set c [] = c ∷ []
set c (d ∷ ds) = let rest = set c ds in if d.type == c.type then c ∷ ds else d ∷ rest

find-set_same : (c : Condition) (cs : List Condition) → find c.type (set c cs) ≡ some c
find-set_same c [] = ap (λ b. if b then some c else none) ((eq_iff c.type c.type).1 refl)
find-set_same c (d ∷ ds) = elim (Bool-cases (d.type == c.type)) [
  | inl same ↦ ground (arith, eq_iff c.type c.type)
  | inr other ↦ ground (arith, find-set_same c ds)
]

find-set_other :
    (c : Condition) (t : String) (cs : List Condition) → t ≢ c.type → find t (set c cs) ≡ find t cs
find-set_other c t [] h = ground (arith, eq_iff c.type t)
find-set_other c t (d ∷ ds) h =
    ground (arith, eq_iff c.type t, eq_iff d.type t, eq_iff d.type c.type, find-set_other c t ds h)

set-IsLawful : IsLawful set
set-IsLawful = record {
  status_of-set =
      λ c cs. ap (λ o. elim o [ none ↦ none | some d ↦ some d.status ]) (find-set_same c cs);
  find-set_other = find-set_other;
}

abbrev condition : String → Condition
condition type = record {
  type = type;
  status = "False";
  last_transition_time = 1;
  reason = "";
  message = "";
}

abbrev processing : EventingStatus
processing = record {
  active_backend = "NATS";
  backend_config_hash = pos 7;
  state = "Processing";
  publisher_service = "";
  conditions = condition "BackendAvailable" ∷ condition "Old" ∷ condition "Deleted" ∷ [];
}

remove_unsupported_conditions_lem_example :
    (find "Old" (remove_unsupported_conditions processing).conditions
      ≡ (if is_supported "Old" then find "Old" processing.conditions else none))
    × ((remove_unsupported_conditions processing).state ≡ "Processing")
remove_unsupported_conditions_lem_example = remove_unsupported_conditions_lem processing "Old"

set_state_ready_lem_example :
    ((set_state_ready set 2 processing).state ≡ state_ready)
    × (status_of condition_backend_available (set_state_ready set 2 processing).conditions
        ≡ some "True")
    × (status_of condition_publisher_proxy_ready (set_state_ready set 2 processing).conditions
        ≡ some "True")
    × ((t : String)
        → t ≢ condition_backend_available
        → t ≢ condition_publisher_proxy_ready
        → find t (set_state_ready set 2 processing).conditions ≡ find t processing.conditions)
set_state_ready_lem_example = set_state_ready_lem set set-IsLawful 2 processing

-- ===== src/Subscription/Types.antt =====
-- `GetUniqueTypes` (api/eventing/v1alpha2/subscription_types.go) and the slices of pkg/utils.
use eventing_manager.Base.{
  ◌≡◌, refl, String, Bool, true, false, List, [], ◌∷◌, ◌++◌, ◌==◌, string_eq, if◌then◌else◌, arith,
  eq_iff, contains,
}
use eventing_manager.Subscription.{Subscription}

unfoldable pub contains_string : List String → String → Bool
contains_string [] s = false
contains_string (item ∷ items) s = if item == s then true else contains_string items s

unfoldable pub remove_string : List String → String → List String
remove_string [] s = []
remove_string (item ∷ items) s =
    let rest = remove_string items s in if item == s then rest else item ∷ rest

-- The loop of `GetUniqueTypes`, over the result so far.
unfoldable pub unique_types_from : List String → List String → List String
unfolding contains_string
unique_types_from result [] = result
unique_types_from result (t ∷ ts) =
    unique_types_from (if contains_string result t then result else result ++ t ∷ []) ts

unfoldable pub get_unique_types : Subscription → List String
unfolding unique_types_from
get_unique_types s = unique_types_from [] s.spec.types

-- `DuplicateWithStatusDefaults`
unfoldable pub duplicate_with_status_defaults : Subscription → Subscription
duplicate_with_status_defaults s = record s {
  status = record { conditions = []; ready = false; types = []; backend = record { types = [] } };
}

pub contains_string-eq-contains :
    (xs : List String) (s : String) → contains_string xs s ≡ contains s xs
unfolding contains_string
contains_string-eq-contains [] s = refl
contains_string-eq-contains (x ∷ xs) s = ground (arith, contains_string-eq-contains xs s)

-- `RemoveString` removes every copy of the text and no other item.
pub contains_string-remove_string :
    (xs : List String) (s t : String)
    → contains_string (remove_string xs s) t ≡ (if s == t then false else contains_string xs t)
unfolding contains_string remove_string
contains_string-remove_string [] s t = ground arith
contains_string-remove_string (x ∷ xs) s t =
    ground (arith, eq_iff x s, eq_iff x t, eq_iff s t, contains_string-remove_string xs s t)

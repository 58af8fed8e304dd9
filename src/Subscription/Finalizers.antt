-- ===== src/Subscription/Finalizers.antt =====
-- The finalizer of a subscription: internal/controller/eventing/subscription/eventmesh/utils.go, and
-- jetstream/utils.go beside it.
use eventing_manager.Base.{
  ◌≡◌, refl, ap, String, Bool, true, false, List, [], ◌∷◌, ◌++◌, ◌==◌, string_eq, if◌then◌else◌,
  arith,
}
use eventing_manager.Subscription.{Subscription, finalizer}
use eventing_manager.Subscription.Types.{contains_string}

unfoldable pub is_in_deletion : Subscription → Bool
is_in_deletion sub = sub.in_deletion

-- The loop of `isFinalizerSet`
has_finalizer : List String → Bool
has_finalizer [] = false
has_finalizer (f ∷ fs) = if f == finalizer then true else has_finalizer fs

unfoldable pub is_finalizer_set : Subscription → Bool
unfolding has_finalizer
is_finalizer_set sub = has_finalizer sub.finalizers

-- `containsFinalizer` of the reconciler for JetStream
unfoldable pub contains_finalizer : Subscription → Bool
contains_finalizer sub = contains_string sub.finalizers finalizer

unfoldable pub add_finalizer : Subscription → Subscription
add_finalizer sub = record sub { finalizers = sub.finalizers ++ finalizer ∷ [] }

-- The loop of `removeFinalizer`
without_finalizer : List String → List String
without_finalizer [] = []
without_finalizer (f ∷ fs) =
    let rest = without_finalizer fs in if f == finalizer then rest else f ∷ rest

unfoldable pub remove_finalizer : Subscription → Subscription
unfolding without_finalizer
remove_finalizer sub = record sub { finalizers = without_finalizer sub.finalizers }

has_finalizer-eq-contains_string :
    (fs : List String) → has_finalizer fs ≡ contains_string fs finalizer
unfolding has_finalizer contains_string
has_finalizer-eq-contains_string [] = refl
has_finalizer-eq-contains_string (f ∷ fs) = ground (arith, has_finalizer-eq-contains_string fs)

-- The two reconcilers agree on whether the finalizer is set.
pub is_finalizer_set-eq-contains_finalizer :
    (sub : Subscription) → is_finalizer_set sub ≡ contains_finalizer sub
unfolding is_finalizer_set contains_finalizer
is_finalizer_set-eq-contains_finalizer sub = has_finalizer-eq-contains_string sub.finalizers

has_finalizer-append : (fs : List String) → has_finalizer (fs ++ finalizer ∷ []) ≡ true
unfolding has_finalizer
has_finalizer-append [] = refl
has_finalizer-append (f ∷ fs) = ground (arith, has_finalizer-append fs)

has_finalizer-without_finalizer : (fs : List String) → has_finalizer (without_finalizer fs) ≡ false
unfolding has_finalizer without_finalizer
has_finalizer-without_finalizer [] = refl
has_finalizer-without_finalizer (f ∷ fs) = ground (arith, has_finalizer-without_finalizer fs)

without_finalizer-append :
    (fs : List String) → has_finalizer fs ≡ false → without_finalizer (fs ++ finalizer ∷ []) ≡ fs
unfolding has_finalizer without_finalizer
without_finalizer-append [] h = refl
without_finalizer-append (f ∷ fs) h = ground (arith, without_finalizer-append fs)

-- The finalizer is set after it was added and is not set after it was removed, and removing it undoes
-- adding it to a subscription that did not have it.
pub finalizer_lem :
    (sub : Subscription)
    → (is_finalizer_set (add_finalizer sub) ≡ true)
      × (is_finalizer_set (remove_finalizer sub) ≡ false)
      × (is_finalizer_set sub ≡ false → remove_finalizer (add_finalizer sub) ≡ sub)
unfolding is_finalizer_set add_finalizer remove_finalizer
finalizer_lem sub = (
  has_finalizer-append sub.finalizers,
  has_finalizer-without_finalizer sub.finalizers,
  λ h.
      ap (λ fs. let r : Subscription = record sub { finalizers = fs } in r)
        (without_finalizer-append sub.finalizers h),
)

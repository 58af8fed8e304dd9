-- ===== src/Subscription/Conditions/Setting.antt =====
-- `setCondition` as an update of one condition type.
use mathlib.Core.List.{append_assoc, append-nil}
use eventing_manager.Base.{
  ◌≡◌, refl, String, Bool, true, false, not, ◌&&◌, ◌||◌, ◌==◌, string_eq, if◌then◌else◌, some, List,
  [], ◌∷◌, ◌++◌, arith, Bool-cases, inl, inr, eq_iff, ◌≢◌,
}
use eventing_manager.Subscription.{Condition}
use eventing_manager.Subscription.Conditions.{
  contain_condition_type, condition_equals, find_condition, replace_condition, set_condition,
}

-- What the loop collects, and whether it met a condition of the type that differs from the new one.
rebuilt : Condition → List Condition → List Condition
rebuilt c [] = []
rebuilt c (d ∷ ds) =
    if d.type == c.type
    then (if condition_equals d c then rebuilt c ds else c ∷ rebuilt c ds)
    else d ∷ rebuilt c ds

differs : Condition → List Condition → Bool
differs c [] = false
differs c (d ∷ ds) = (d.type == c.type && not (condition_equals d c)) || differs c ds

replace_condition-eq :
    (c : Condition) (ds built : List Condition) (found set : Bool)
    → replace_condition c ds built found set
      ≡ (built ++ rebuilt c ds, found || contain_condition_type ds c.type, set || differs c ds)
unfolding replace_condition rebuilt differs contain_condition_type
replace_condition-eq c [] built found set = ground (arith, append-nil built)
replace_condition-eq c (d ∷ ds) built found set = ground (
  arith,
  replace_condition-eq c ds built true set,
  replace_condition-eq c ds (built ++ c ∷ []) true true,
  replace_condition-eq c ds (built ++ d ∷ []) found set,
  append_assoc built (c ∷ []) (rebuilt c ds),
  append_assoc built (d ∷ []) (rebuilt c ds),
)

-- `setCondition` in one line.
set_condition-eq :
    (c : Condition) (cs : List Condition)
    → set_condition c cs ≡ (
        if contain_condition_type cs c.type
        then (if differs c cs then rebuilt c cs else cs)
        else rebuilt c cs ++ c ∷ [])
unfolding set_condition
set_condition-eq c cs = rw (replace_condition-eq c cs [] false false) (ground arith)

condition_equals_self : (c : Condition) → condition_equals c c ≡ true
unfolding condition_equals
condition_equals_self c = ground (
  arith,
  eq_iff c.type c.type,
  eq_iff c.status c.status,
  eq_iff c.reason c.reason,
  eq_iff c.message c.message,
)

find-rebuilt_append :
    (c : Condition) (cs : List Condition)
    → contain_condition_type cs c.type ≡ false
    → find_condition (rebuilt c cs ++ c ∷ []) c.type ≡ some c
unfolding rebuilt find_condition contain_condition_type
find-rebuilt_append c [] h = ground (arith, eq_iff c.type c.type)
find-rebuilt_append c (d ∷ ds) h =
    ground (arith, eq_iff c.type d.type, eq_iff d.type c.type, find-rebuilt_append c ds)

find-rebuilt :
    (c : Condition) (cs : List Condition)
    → differs c cs ≡ true
    → find_condition (rebuilt c cs) c.type ≡ some c
unfolding rebuilt find_condition differs
find-rebuilt c [] h = cc
find-rebuilt c (d ∷ ds) h =
    ground
      (arith, eq_iff c.type d.type, eq_iff d.type c.type, eq_iff c.type c.type, find-rebuilt c ds)

find_of_not_differs :
    (c : Condition) (cs : List Condition)
    → contain_condition_type cs c.type ≡ true
    → differs c cs ≡ false
    → (d : Condition) × (find_condition cs c.type ≡ some d) × (condition_equals d c ≡ true)
unfolding find_condition differs contain_condition_type
find_of_not_differs c [] h k = cc
find_of_not_differs c (d ∷ ds) h k = elim (Bool-cases (c.type == d.type)) [
  | inl e ↦ (d, ground arith, ground (arith, eq_iff c.type d.type, eq_iff d.type c.type))
  | inr e ↦
      let (x, f, q) =
        find_of_not_differs c ds (ground (arith, eq_iff c.type d.type, eq_iff d.type c.type))
          (ground (arith, eq_iff c.type d.type, eq_iff d.type c.type)) in
      (x, ground arith, q)
]

-- After `setCondition` the first condition of the type equals the new one in type, status,
-- reason and message.
pub find_condition-set_condition :
    (c : Condition) (cs : List Condition)
    → (d : Condition) × (find_condition (set_condition c cs) c.type ≡ some d)
      × (condition_equals d c ≡ true)
find_condition-set_condition c cs = elim (Bool-cases (contain_condition_type cs c.type)) [
  | inl has ↦ elim (Bool-cases (differs c cs)) [
    | inl new ↦
        (c, rw (set_condition-eq, has, new) (find-rebuilt c cs new), condition_equals_self c)
    | inr same ↦
        let (d, f, q) = find_of_not_differs c cs has same in
        (d, rw (set_condition-eq, has, same) f, q)
  ]
  | inr missing ↦ (
    c,
    rw (set_condition-eq, missing) (find-rebuilt_append c cs missing),
    condition_equals_self c,
  )
]

find-rebuilt_other :
    (c : Condition) (t : String) (cs : List Condition)
    → t ≢ c.type
    → find_condition (rebuilt c cs) t ≡ find_condition cs t
unfolding rebuilt find_condition
find-rebuilt_other c t [] h = refl
find-rebuilt_other c t (d ∷ ds) h =
    ground
      (arith, eq_iff t d.type, eq_iff d.type c.type, eq_iff t c.type, find-rebuilt_other c t ds h)

find-append_other :
    (c : Condition) (t : String) (cs : List Condition)
    → t ≢ c.type
    → find_condition (cs ++ c ∷ []) t ≡ find_condition cs t
unfolding find_condition
find-append_other c t [] h = ground (arith, eq_iff t c.type)
find-append_other c t (d ∷ ds) h = ground (arith, find-append_other c t ds h)

-- `setCondition` leaves what a lookup of any other type finds.
pub find_condition-set_condition_other :
    (c : Condition) (t : String) (cs : List Condition)
    → t ≢ c.type
    → find_condition (set_condition c cs) t ≡ find_condition cs t
find_condition-set_condition_other c t cs h =
    rw set_condition-eq
      (ground (arith, find-rebuilt_other c t cs h, find-append_other c t (rebuilt c cs) h))

contains-append_last :
    (c : Condition) (cs : List Condition) → contain_condition_type (cs ++ c ∷ []) c.type ≡ true
unfolding contain_condition_type
contains-append_last c [] = ground (arith, eq_iff c.type c.type)
contains-append_last c (d ∷ ds) = ground (arith, contains-append_last c ds)

contains-rebuilt :
    (c : Condition) (cs : List Condition)
    → differs c cs ≡ true
    → contain_condition_type (rebuilt c cs) c.type ≡ true
unfolding contain_condition_type rebuilt differs
contains-rebuilt c [] h = cc
contains-rebuilt c (d ∷ ds) h = ground (arith, eq_iff c.type c.type, contains-rebuilt c ds)

module _ (c c' : Condition) (same : condition_equals c c' ≡ true) where
  same_type : c.type ≡ c'.type
  unfolding condition_equals
  same_type = ground (arith, eq_iff c.type c'.type)

  condition_equals_trans :
      (d : Condition) → condition_equals d c ≡ true → condition_equals d c' ≡ true
  unfolding condition_equals
  condition_equals_trans d h = ground (
    arith,
    eq_iff d.type c.type,
    eq_iff d.status c.status,
    eq_iff d.reason c.reason,
    eq_iff d.message c.message,
    eq_iff c.type c'.type,
    eq_iff c.status c'.status,
    eq_iff c.reason c'.reason,
    eq_iff c.message c'.message,
  )

  differs-append : (cs : List Condition) → differs c' cs ≡ false → differs c' (cs ++ c ∷ []) ≡ false
  unfolding differs
  differs-append [] h = ground arith
  differs-append (d ∷ ds) h = ground (arith, differs-append ds)

  differs-rebuilt : (cs : List Condition) → differs c' (rebuilt c cs) ≡ false
  unfolding differs rebuilt
  differs-rebuilt [] = refl
  differs-rebuilt (d ∷ ds) = ground (arith, same_type, differs-rebuilt ds)

  differs_of_not_differs : (cs : List Condition) → differs c cs ≡ false → differs c' cs ≡ false
  unfolding differs
  differs_of_not_differs [] h = refl
  differs_of_not_differs (d ∷ ds) h =
      ground (arith, same_type, condition_equals_trans d, differs_of_not_differs ds)

  -- A second call with an equal condition changes nothing, whatever its transition time.
  pub set_condition-set_condition :
      (cs : List Condition) → set_condition c' (set_condition c cs) ≡ set_condition c cs
  set_condition-set_condition cs = rw (set_condition-eq c cs) (
      ground (
        arith,
        same_type,
        set_condition-eq c' (rebuilt c cs ++ c ∷ []),
        set_condition-eq c' (rebuilt c cs),
        set_condition-eq c' cs,
        contains-append_last c (rebuilt c cs),
        contains-rebuilt c cs,
        differs-append (rebuilt c cs) (differs-rebuilt cs),
        differs-rebuilt cs,
        differs_of_not_differs cs,
      ))

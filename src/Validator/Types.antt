-- ===== src/Validator/Types.antt =====
-- What `getDuplicates` and `validateTypes` accept.
use eventing_manager.Base.{
  zero, suc, ◌≡◌, refl, ℕ, ◌+◌, ◌≤◌, String, true, false, List, [], ◌∷◌, ◌==◌, string_eq, nat_eq,
  eq_iff, if◌then◌else◌, arith, contains,
}
use eventing_manager.Base.Dict.{Dict, insert, lookup-insert, lookup-nil}
use eventing_manager.Validator.{count_of, duplicates_from, get_duplicates}

count_of-insert :
    (t x : String) (n : ℕ) (counts : Dict String ℕ)
    → count_of x (insert t n counts) ≡ (if t == x then n else count_of x counts)
count_of-insert t x n counts = ground (arith, lookup-insert t x n counts)

-- The items with a count of 0, without repetition: what is not reported from the counts so far.
abbrev IsFresh : Dict String ℕ → List String → Type 0
IsFresh counts [] = Unit
IsFresh counts (t ∷ ts) = (count_of t counts ≡ 0) × IsFresh (insert t 1 counts) ts

abbrev pub IsDistinct : List String → Type 0
IsDistinct [] = Unit
IsDistinct (t ∷ ts) = (contains t ts ≡ false) × IsDistinct ts

-- No count is more than 1, so nothing was reported.
abbrev IsQuiet : Dict String ℕ → Type 0
IsQuiet counts = (t : String) → count_of t counts ≤ 1

insert-IsQuiet :
    (t : String) (counts : Dict String ℕ) → IsQuiet counts → IsQuiet (insert t 1 counts)
insert-IsQuiet t counts h x = ground (arith, count_of-insert t x 1 counts, h x)

-- An item whose count was at most 1 and that is not reported had none.
unreported :
    (t : String) (counts : Dict String ℕ) (ts : List String) (n : ℕ)
    → n ≤ 1
    → (let rest = duplicates_from (insert t (1 + n) counts) ts in
        if 1 + n == 2 then t ∷ rest else rest)
      ≡ []
    → (n ≡ 0) × (duplicates_from (insert t 1 counts) ts ≡ [])
unreported t counts ts zero h e = (refl, e)
unreported t counts ts (suc zero) h e = cc
unreported t counts ts (suc (suc n)) h e = absurd (omega arith)

duplicates_from-IsFresh :
    (counts : Dict String ℕ) (ts : List String)
    → IsQuiet counts
    → duplicates_from counts ts ≡ []
    → IsFresh counts ts
unfolding duplicates_from
duplicates_from-IsFresh counts [] h e = tt
duplicates_from-IsFresh counts (t ∷ ts) h e =
    let (z, e') = unreported t counts ts (count_of t counts) (h t) e in
    (z, duplicates_from-IsFresh (insert t 1 counts) ts (insert-IsQuiet t counts h) e')

IsFresh-duplicates_from :
    (counts : Dict String ℕ) (ts : List String) → IsFresh counts ts → duplicates_from counts ts ≡ []
unfolding duplicates_from
IsFresh-duplicates_from counts [] h = refl
IsFresh-duplicates_from counts (t ∷ ts) (z, h) =
    rw (z, IsFresh-duplicates_from (insert t 1 counts) ts h)

-- Fresh items are distinct and have no count.
IsFresh-IsDistinct :
    (counts : Dict String ℕ) (ts : List String)
    → IsFresh counts ts
    → IsDistinct ts × ((x : String) → contains x ts ≡ true → count_of x counts ≡ 0)
IsFresh-IsDistinct counts [] h = (tt, λ x e. cc)
IsFresh-IsDistinct counts (t ∷ ts) (z, h) =
    let (d, f) = IsFresh-IsDistinct (insert t 1 counts) ts h in
    (
      (ground (arith, count_of-insert t t 1 counts, f t, eq_iff t t), d),
      λ x e. ground (arith, count_of-insert t x 1 counts, f x, eq_iff t x),
    )

IsDistinct-IsFresh :
    (counts : Dict String ℕ) (ts : List String)
    → IsDistinct ts
    → ((x : String) → contains x ts ≡ true → count_of x counts ≡ 0)
    → IsFresh counts ts
IsDistinct-IsFresh counts [] d f = tt
IsDistinct-IsFresh counts (t ∷ ts) (n, d) f = (
  ground (arith, f t, eq_iff t t),
  IsDistinct-IsFresh (insert t 1 counts) ts d
      (λ x e. ground (arith, count_of-insert t x 1 counts, f x, eq_iff t x)),
)

-- `getDuplicates` returns nothing exactly for a list without repetition.
pub get_duplicates-IsDistinct :
    (ts : List String)
    → (get_duplicates ts ≡ [] → IsDistinct ts) × (IsDistinct ts → get_duplicates ts ≡ [])
unfolding get_duplicates
get_duplicates-IsDistinct ts = (
  λ e.
      (IsFresh-IsDistinct [] ts
        (duplicates_from-IsFresh [] ts (λ t. ground (arith, lookup-nil {V = ℕ} t)) e)).0,
  λ d.
      IsFresh-duplicates_from [] ts
        (IsDistinct-IsFresh [] ts d (λ x e. ground (arith, lookup-nil {V = ℕ} x))),
)

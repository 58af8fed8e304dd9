-- ===== src/Base/Text/Laws.antt =====
-- Laws of the text functions.
use Prim.Native.Nat.{ℕ, suc, ◌+◌}
use Prim.Native.Char.{Char, code}
use Prim.Native.String.{String, ◌++◌ as ◌<>◌}
use mathlib.Core.Path.{◌≡◌, refl}
use mathlib.Core.Bool.{Bool, true, false, not, ◌&&◌, ◌||◌}
use mathlib.Core.Logic.{inl, inr}
use mathlib.Core.Option.{none, some}
use mathlib.Core.List.{List, [], ◌∷◌}
use native.Mathlib.Omega.{arith}
use text.Mathlib.TextLemmas.{nil-append, cons-append}
use eventing_manager.Base.Tests.{nat_beq, if◌then◌else◌, Bool-cases}
use eventing_manager.Base.Lists.{All, length}
use eventing_manager.Base.Text.{remove, all_chars, has_char, before_last, split, cons_first}
use eventing_manager.Base.Text.{count_char}

pub has_char-append : (n : ℕ) (s t : String) → has_char n (s <> t) ≡ (has_char n s || has_char n t)
has_char-append n String.[] t = rw nil-append
has_char-append n (String.◌∷◌ c s) t = rw cons-append (ground (arith, has_char-append n s t))

pub all_chars-remove :
    (bad : ℕ → Bool) (s : String) → all_chars (λ n. not (bad n)) (remove bad s) ≡ true
all_chars-remove bad String.[] = refl
all_chars-remove bad (String.◌∷◌ c s) = ground (arith, all_chars-remove bad s)

pub all_chars_mono :
    (p q : ℕ → Bool)
    → ((n : ℕ) → p n ≡ true → q n ≡ true)
    → (s : String) → all_chars p s ≡ true
    → all_chars q s ≡ true
all_chars_mono p q h String.[] e = refl
all_chars_mono p q h (String.◌∷◌ c s) e = ground (arith, h (code c), all_chars_mono p q h s)

pub all_chars-append :
    (p : ℕ → Bool) (s t : String) → all_chars p (s <> t) ≡ (all_chars p s && all_chars p t)
all_chars-append p String.[] t = rw nil-append
all_chars-append p (String.◌∷◌ c s) t = rw cons-append (ground (arith, all_chars-append p s t))

pub has_char_of_all_chars :
    (p : ℕ → Bool) (n : ℕ) (s : String) → all_chars p s ≡ true → p n ≡ false → has_char n s ≡ false
has_char_of_all_chars p n String.[] h e = refl
has_char_of_all_chars p n (String.◌∷◌ c s) h e = ground (arith, has_char_of_all_chars p n s)

-- A removed character is gone.
pub has_char-remove :
    (bad : ℕ → Bool) (n : ℕ) (s : String) → bad n ≡ true → has_char n (remove bad s) ≡ false
has_char-remove bad n String.[] h = refl
has_char-remove bad n (String.◌∷◌ c s) h = ground (arith, has_char-remove bad n s)

pub before_last_of_no_char :
    (sep : ℕ) (s : String) → has_char sep s ≡ false → before_last sep s ≡ none
before_last_of_no_char sep String.[] h = refl
before_last_of_no_char sep (String.◌∷◌ c s) h = ground (arith, before_last_of_no_char sep s)

-- Cutting at the last separator undoes the joining of a text that has none.
pub before_last-append :
    (c : Char) (s t : String)
    → has_char (code c) t ≡ false
    → before_last (code c) (s <> String.◌∷◌ c t) ≡ some s
before_last-append c String.[] t h =
    rw nil-append (ground (arith, before_last_of_no_char (code c) t h))
before_last-append c (String.◌∷◌ d s) t h =
    rw cons-append (ground (arith, before_last-append c s t h))

-- A separator in the last text moves the cut.
pub before_last-append_has :
    (sep : ℕ) (s t p : String)
    → before_last sep t ≡ some p
    → before_last sep (s <> t) ≡ some (s <> p)
before_last-append_has sep String.[] t p h = rw (nil-append, nil-append) h
before_last-append_has sep (String.◌∷◌ d s) t p h =
    rw (cons-append, cons-append) (ground (arith, before_last-append_has sep s t p h))

pub before_last_of_has_char :
    (sep : ℕ) (s : String) → has_char sep s ≡ true → (p : String) × (before_last sep s ≡ some p)
before_last_of_has_char sep String.[] h = cc
before_last_of_has_char sep (String.◌∷◌ d s) h = elim (Bool-cases (has_char sep s)) [
  | inl e ↦ let (p, q) = before_last_of_has_char sep s e in (String.◌∷◌ d p, ground arith)
  | inr e ↦ ("", ground (arith, before_last_of_no_char sep s e))
]

-- No part of a split holds the separator.
pub All-split : (sep : ℕ) (s : String) → All (λ part. has_char sep part ≡ false) (split sep s)
All-split sep String.[] = (refl, tt)
All-split sep (String.◌∷◌ c s) = go (split sep s) (All-split sep s)
  where
    go :
        (parts : List String)
        → All (λ part. has_char sep part ≡ false) parts
        → All
            (λ part. has_char sep part ≡ false)
            (if nat_beq (code c) sep then "" ∷ parts else cons_first c parts)
    go [] h = ground arith
    go (part ∷ parts) h = ground arith

-- A text has one segment more than it has separators.
pub length-split : (sep : ℕ) (s : String) → length (split sep s) ≡ suc (count_char sep s)
length-split sep String.[] = refl
length-split sep (String.◌∷◌ c s) = go (split sep s) (length-split sep s)
  where
    go :
        (parts : List String)
        → length parts ≡ suc (count_char sep s)
        → length (if nat_beq (code c) sep then "" ∷ parts else cons_first c parts)
          ≡ suc ((if nat_beq (code c) sep then 1 else 0) + count_char sep s)
    go [] h = ground arith
    go (part ∷ parts) h = ground arith

pub count_char-append :
    (n : ℕ) (s t : String) → count_char n (s <> t) ≡ count_char n s + count_char n t
count_char-append n String.[] t = rw nil-append (omega arith)
count_char-append n (String.◌∷◌ c s) t = rw cons-append (ground (arith, count_char-append n s t))

pub count_char-remove :
    (bad : ℕ → Bool) (n : ℕ) (s : String)
    → bad n ≡ false
    → count_char n (remove bad s) ≡ count_char n s
count_char-remove bad n String.[] h = refl
count_char-remove bad n (String.◌∷◌ c s) h = ground (arith, count_char-remove bad n s h)

pub count_char_of_no_char : (n : ℕ) (s : String) → has_char n s ≡ false → count_char n s ≡ 0
count_char_of_no_char n String.[] h = refl
count_char_of_no_char n (String.◌∷◌ c s) h = ground (arith, count_char_of_no_char n s)

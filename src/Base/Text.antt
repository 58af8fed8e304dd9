-- ===== src/Base/Text.antt =====
-- What the source uses of Go's `strings` and `regexp` packages, by recursion on the characters.
pub mod Laws
use Prim.Native.Nat.{ℕ, zero, suc, ◌+◌, ◌-◌}
use Prim.Native.Char.{Char, code}
use Prim.Native.String.{String, count, ◌++◌ as ◌<>◌}
use mathlib.Core.Bool.{Bool, true, false, ◌&&◌, ◌||◌}
use mathlib.Core.Option.{Option, none, some}
use mathlib.Core.List.{List, [], ◌∷◌}
use text.Mathlib.Text.{◌==◌ as text_eq}
use eventing_manager.Base.Tests.{nat_beq, leb, if◌then◌else◌}

-- `regexp.MustCompile("[…]").ReplaceAllString(s, "")`, for the class that `bad` decides.
abbrev pub remove : (ℕ → Bool) → String → String
remove bad String.[] = ""
remove bad (String.◌∷◌ c s) =
    let rest = remove bad s in if bad (code c) then rest else String.◌∷◌ c rest

-- Every character satisfies `ok`.
abbrev pub all_chars : (ℕ → Bool) → String → Bool
all_chars ok String.[] = true
all_chars ok (String.◌∷◌ c s) = ok (code c) && all_chars ok s

abbrev pub has_char : ℕ → String → Bool
has_char n String.[] = false
has_char n (String.◌∷◌ c s) = nat_beq (code c) n || has_char n s

abbrev pub count_char : ℕ → String → ℕ
count_char n String.[] = 0
count_char n (String.◌∷◌ c s) = (if nat_beq (code c) n then 1 else 0) + count_char n s

-- `s[:strings.LastIndex(s, sep)]`. Without a separator the index is -1 and the slice panics: `none`.
abbrev pub before_last : ℕ → String → Option String
before_last sep String.[] = none
before_last sep (String.◌∷◌ c s) = elim (before_last sep s) [
  | some p ↦ some (String.◌∷◌ c p)
  | none ↦ if nat_beq (code c) sep then some "" else none
]

-- `strings.CutPrefix(s, prefix)`, with `none` where the prefix is missing.
abbrev pub cut_prefix : String → String → Option String
cut_prefix s String.[] = some s
cut_prefix String.[] (String.◌∷◌ d p) = none
cut_prefix (String.◌∷◌ c s) (String.◌∷◌ d p) =
    let rest = cut_prefix s p in if nat_beq (code c) (code d) then rest else none

abbrev pub is_some {ℓ} : {A : Type ℓ} → Option A → Bool
is_some none = false
is_some (some a) = true

-- `strings.HasPrefix(s, prefix)`
abbrev pub has_prefix : String → String → Bool
has_prefix s p = is_some (cut_prefix s p)

-- `strings.TrimPrefix(s, prefix)`
abbrev pub trim_prefix : String → String → String
trim_prefix s p = elim (cut_prefix s p) [ some t ↦ t | none ↦ s ]

-- `strings.HasSuffix(s, suffix)`
abbrev pub has_suffix : String → String → Bool
has_suffix String.[] t = text_eq "" t
has_suffix (String.◌∷◌ c s) t = text_eq (String.◌∷◌ c s) t || has_suffix s t

-- The loop of `strings.ReplaceAll(s, old, "")` for an `old` that is not empty, left to right and
-- without overlaps. The number counts the characters of a match that are still to be dropped.
abbrev pub delete_matches : String → ℕ → String → String
delete_matches old k String.[] = ""
delete_matches old (suc k) (String.◌∷◌ c s) = delete_matches old k s
delete_matches old zero (String.◌∷◌ c s) =
    let dropped = delete_matches old (count old - 1) s in
    let kept = String.◌∷◌ c (delete_matches old 0 s) in
    if has_prefix (String.◌∷◌ c s) old then dropped else kept

-- `strings.ReplaceAll(s, old, "")`
abbrev pub delete_all : String → String → String
delete_all s old = if text_eq old "" then s else delete_matches old 0 s

-- The first part of a split gets one more character.
abbrev pub cons_first : Char → List String → List String
cons_first c [] = String.◌∷◌ c "" ∷ []
cons_first c (part ∷ parts) = String.◌∷◌ c part ∷ parts

-- `strings.Split(s, sep)` for a separator of one character
abbrev pub split : ℕ → String → List String
split sep String.[] = "" ∷ []
split sep (String.◌∷◌ c s) =
    let parts = split sep s in if nat_beq (code c) sep then "" ∷ parts else cons_first c parts

-- `strings.Join(parts, "")`
abbrev pub concat : List String → String
concat [] = ""
concat (part ∷ parts) = part <> concat parts

-- `strings.Join(parts, sep)`
abbrev pub join : String → List String → String
join sep [] = ""
join sep (part ∷ []) = part
join sep (part ∷ next ∷ parts) = part <> (sep <> join sep (next ∷ parts))

abbrev pub is_digit : ℕ → Bool
is_digit n = leb b'0' n && leb n b'9'

abbrev pub is_letter : ℕ → Bool
is_letter n = (leb b'a' n && leb n b'z') || (leb b'A' n && leb n b'Z')

abbrev pub is_alphanumeric : ℕ → Bool
is_alphanumeric n = is_letter n || is_digit n

-- `\s` of package regexp
abbrev pub is_blank : ℕ → Bool
is_blank n = nat_beq n 9 || nat_beq n 10 || nat_beq n 12 || nat_beq n 13 || nat_beq n 32

-- `unicode.IsSpace`
abbrev pub is_space : ℕ → Bool
is_space n =
    (leb 9 n && leb n 13)
    || nat_beq n 32
    || nat_beq n 0x85
    || nat_beq n 0xa0
    || nat_beq n 0x1680
    || (leb 0x2000 n && leb n 0x200a)
    || nat_beq n 0x2028
    || nat_beq n 0x2029
    || nat_beq n 0x202f
    || nat_beq n 0x205f
    || nat_beq n 0x3000

-- `len(strings.TrimSpace(s)) == 0`
abbrev pub is_all_space : String → Bool
is_all_space s = all_chars is_space s

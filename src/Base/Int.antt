-- ===== src/Base/Int.antt =====
-- Go's `int` and `int64` as integers, and `strconv.Atoi`.
use Prim.Native.Nat.{ℕ, ◌+◌, ◌-◌, ◌*◌}
use Prim.Native.Char.{code}
use Prim.Native.String.{String}
use mathlib.Core.Path.{◌≡◌, refl}
use mathlib.Core.Logic.{◌↔◌}
use mathlib.Core.Bool.{Bool, true, false}
use mathlib.Core.Option.{Option, none, some}
use native.Mathlib.Omega.{arith}
use eventing_manager.Base.Tests.{Eq, nat_beq, ltb, leb, if◌then◌else◌}
use eventing_manager.Base.Text.{is_digit}

-- `negsuc n` is -(n + 1).
pub data ℤ : Type 0 where
  pos : ℕ → ℤ
  negsuc : ℕ → ℤ

abbrev pub int_beq : ℤ → ℤ → Bool
int_beq (pos a) (pos b) = nat_beq a b
int_beq (negsuc a) (negsuc b) = nat_beq a b
int_beq _ _ = false

pub int_beq_iff : (a b : ℤ) → (int_beq a b ≡ true) ↔ (a ≡ b)
int_beq_iff (pos a) (pos b) = ground arith
int_beq_iff (negsuc a) (negsuc b) = ground arith
int_beq_iff (pos a) (negsuc b) = (λ h. cc, λ h. cc)
int_beq_iff (negsuc a) (pos b) = (λ h. cc, λ h. cc)

instance abbrev pub int_eq : Eq ℤ
int_eq = record { beq = int_beq; beq_iff = int_beq_iff }

-- The value of a run of digits, after those read so far; `none` at any other character.
unfoldable pub read_digits : ℕ → String → Option ℕ
read_digits acc String.[] = some acc
read_digits acc (String.◌∷◌ c s) =
    let rest = read_digits (acc * 10 + (code c - 48)) s in if is_digit (code c) then rest else none

abbrev two_to_63 : ℕ
two_to_63 = 9223372036854775808

-- Digits as a 64-bit `int`; outside its range `strconv.Atoi` returns an error.
unfoldable pub to_int : Bool → Option ℕ → Option ℤ
to_int negative none = none
to_int false (some n) = if ltb n two_to_63 then some (pos n) else none
to_int true (some n) =
    if nat_beq n 0 then some (pos 0) else if leb n two_to_63 then some (negsuc (n - 1)) else none

unfoldable pub read_unsigned : String → Option ℕ
unfolding read_digits
read_unsigned String.[] = none
read_unsigned (String.◌∷◌ c s) = read_digits 0 (String.◌∷◌ c s)

-- `strconv.Atoi(s)`; `none` stands for an error.
unfoldable pub atoi : String → Option ℤ
unfolding to_int read_unsigned
atoi String.[] = none
atoi (String.◌∷◌ c s) =
    if nat_beq (code c) b'-'
    then to_int true (read_unsigned s)
    else if nat_beq (code c) b'+'
    then to_int false (read_unsigned s)
    else to_int false (read_unsigned (String.◌∷◌ c s))

atoi_tests :
    (atoi "10" ≡ some (pos 10))
    × (atoi "-3" ≡ some (negsuc 2))
    × (atoi "1x" ≡ none)
    × (atoi "" ≡ none)
unfolding atoi
atoi_tests = (refl, refl, refl, refl)

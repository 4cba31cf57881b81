-- ===== src/Common/Text/Number.antt =====
-- Decimal numbers: strconv.ParseInt(s, 10, 64), strconv.Atoi and the printing of a number.
use Prim.Native.Nat.{ℕ, zero, suc, ◌+◌, ◌-◌, ◌*◌, ◌/◌, ◌%◌, compare, Ordering}
use Prim.Native.Char.{Char, code}
use Prim.Native.String.{String, [], ◌∷◌}
use mathlib.Core.Bool.{Bool, true, false, cond, ◌&&◌}
use mathlib.Core.Option.{Option, none, some}
use imposter_go.Common.Int.{ℤ, pos, negsuc, two63}
use imposter_go.Common.Text.{is_code, concat}

abbrev below : ℕ → ℕ → Bool
below a b = elim (compare a b) [ Ordering.lt ↦ true | _ ↦ false ]

is_digit : Char → Bool
is_digit c = below (b'0' - 1) (code c) && below (code c) (b'9' + 1)

digits : ℕ → String → Option ℕ
unfolding is_digit
digits n [] = some n
digits n (c ∷ s) = cond (is_digit c) (digits (n * 10 + (code c - b'0')) s) none

-- The digits of a number; none where there is no digit.
magnitude : String → Option ℕ
unfolding digits
magnitude [] = none
magnitude (c ∷ s) = digits 0 (c ∷ s)

in_range_pos : Option ℕ → Option ℤ
in_range_pos none = none
in_range_pos (some n) = cond (below n two63) (some (pos n)) none

in_range_neg : Option ℕ → Option ℤ
in_range_neg none = none
in_range_neg (some zero) = some (pos 0)
in_range_neg (some (suc n)) = cond (below n two63) (some (negsuc n)) none

-- strconv.ParseInt(s, 10, 64): an optional sign and digits, in the range of an int64; none is an
-- error.
unfoldable pub parse_int : String → Option ℤ
unfolding magnitude in_range_pos in_range_neg
parse_int [] = none
parse_int (c ∷ s) =
    cond (is_code c b'-') (in_range_neg (magnitude s))
      (cond (is_code c b'+') (in_range_pos (magnitude s)) (in_range_pos (magnitude (c ∷ s))))

nth_char : String → ℕ → Char → Char
nth_char [] n d = d
nth_char (c ∷ s) zero d = c
nth_char (c ∷ s) (suc n) d = nth_char s n c

abbrev digit : ℕ → String
unfolding nth_char
digit n = nth_char "0123456789" n (Prim.Native.Char.nul) ∷ []

-- A number has at most as many digits as its value plus one.
print_from : ℕ → ℕ → String
unfolding nth_char
print_from zero n = []
print_from (suc fuel) n =
    let more = concat (print_from fuel (n / 10)) (digit (n % 10)) in
    cond (below n 10) (digit n) more

-- strconv.Itoa(n), for n ≥ 0.
unfoldable pub itoa : ℕ → String
unfolding print_from
itoa n = print_from (suc n) n

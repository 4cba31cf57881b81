-- ===== src/Common/Int.antt =====
-- Go's signed integers: integers over the native numbers, the wrap-around of an int64, and
-- strconv's reading of a decimal integer.
use Prim.Native.Nat.{ℕ, suc, ◌+◌, ◌-◌, ◌*◌, ◌%◌, ◌^◌, ◌≤◌, ◌<◌, compare, Ordering}
use mathlib.Core.Path.{◌≡◌}
use mathlib.Core.Bool.{Bool, true, false, cond}
use native.Mathlib.Omega.{arith}

-- `negsuc n` is -(n + 1).
pub data ℤ : Type 0 where
  pos : ℕ → ℤ
  negsuc : ℕ → ℤ

abbrev pub pos_part : ℤ → ℕ
pos_part (pos n) = n
pos_part (negsuc n) = 0

abbrev pub neg_part : ℤ → ℕ
neg_part (pos n) = 0
neg_part (negsuc n) = suc n

abbrev less : ℕ → ℕ → Bool
less a b = elim (compare a b) [ Ordering.lt ↦ true | _ ↦ false ]

-- a - b, as an integer.
abbrev pub sub_ℕ : ℕ → ℕ → ℤ
sub_ℕ a b = cond (less a b) (negsuc (b - a - 1)) (pos (a - b))

infixl 65 ◌+ℤ◌
infix 50 ◌≤ℤ◌ ◌<ℤ◌
unfoldable pub ◌+ℤ◌ : ℤ → ℤ → ℤ
a +ℤ b = sub_ℕ (pos_part a + pos_part b) (neg_part a + neg_part b)

abbrev pub neg : ℤ → ℤ
neg a = sub_ℕ (neg_part a) (pos_part a)

-- a * k, for k ≥ 0.
unfoldable pub scale : ℤ → ℕ → ℤ
scale (pos n) k = pos (n * k)
scale (negsuc n) k = neg (pos ((n + 1) * k))

abbrev pub ◌≤ℤ◌ : ℤ → ℤ → Type 0
a ≤ℤ b = pos_part a + neg_part b ≤ pos_part b + neg_part a

abbrev pub ◌<ℤ◌ : ℤ → ℤ → Type 0
a <ℤ b = pos_part a + neg_part b < pos_part b + neg_part a

-- The Boolean tests a < b and a == b.
abbrev pub ltb_ℤ : ℤ → ℤ → Bool
ltb_ℤ a b = less (pos_part a + neg_part b) (pos_part b + neg_part a)

abbrev pub eqb_ℤ : ℤ → ℤ → Bool
eqb_ℤ a b = elim (compare (pos_part a + neg_part b) (pos_part b + neg_part a)) [
  | Ordering.eq ↦ true
  | _ ↦ false
]

abbrev pub two64 : ℕ
two64 = 2 ^ 64

abbrev pub two63 : ℕ
two63 = 2 ^ 63

-- The residue of an integer modulo 2^64.
abbrev residue64 : ℤ → ℕ
residue64 (pos n) = n % two64
residue64 (negsuc n) = two64 - 1 - n % two64

-- The int64 whose bits are those of `u`, for u < 2^64.
abbrev signed64 : ℕ → ℤ
signed64 u = cond (less u two63) (pos u) (negsuc (two64 - 1 - u))

-- What an int64 operation keeps of its exact result.
unfoldable pub wrap64 : ℤ → ℤ
wrap64 a = signed64 (residue64 a)

-- The values of an int64.
abbrev pub IsInt64 : ℤ → Type 0
IsInt64 a = (pos_part a < two63) × (neg_part a ≤ two63)

pub wrap64-IsInt64 : (a : ℤ) → IsInt64 (wrap64 a)
unfolding wrap64
wrap64-IsInt64 (pos n) = ground arith
wrap64-IsInt64 (negsuc n) = ground arith

pub wrap64_of_IsInt64 : (a : ℤ) → IsInt64 a → wrap64 a ≡ a
unfolding wrap64
wrap64_of_IsInt64 (pos n) h = ground arith
wrap64_of_IsInt64 (negsuc n) h = ground arith

-- One more and one less: what a counter does, in range.
pub incr_decr : (a : ℤ) → a +ℤ pos 1 +ℤ neg (pos 1) ≡ a
unfolding ◌+ℤ◌
incr_decr a = ground arith

-- The wrap-around is undone by the opposite step, whatever the value.
pub wrap64_undo : (a : ℤ) → IsInt64 a → wrap64 (wrap64 (a +ℤ pos 1) +ℤ neg (pos 1)) ≡ a
unfolding wrap64 ◌+ℤ◌
wrap64_undo (pos n) h = ground arith
wrap64_undo (negsuc n) h = ground arith

-- ===== src/Base/Int.antt =====
-- Signed integers for Go's `int`, `int64` and `time.Duration`; `negsuc n` is -(n + 1).
use Prim.Native.Nat.{ℕ, ◌+◌, ◌-◌, ◌/◌}
use mathlib.Core.Bool.{Bool, true, false}
use mathlib.Core.Path.{◌≡◌}
use native.Mathlib.Omega.{arith}
use signalg.Base.Tests.{ltb}

pub data ℤ : Type 0 where
  pos : ℕ → ℤ
  negsuc : ℕ → ℤ

abbrev pub lt_int : ℤ → ℤ → Bool
lt_int (pos a) (pos b) = ltb a b
lt_int (pos a) (negsuc b) = false
lt_int (negsuc a) (pos b) = true
lt_int (negsuc a) (negsuc b) = ltb b a

sub_ℕ : ℕ → ℕ → ℤ
sub_ℕ a b = elim (ltb a b) [ true ↦ negsuc (b - a - 1) | false ↦ pos (a - b) ]

abbrev pos_part : ℤ → ℕ
pos_part (pos n) = n
pos_part (negsuc n) = 0

abbrev neg_part : ℤ → ℕ
neg_part (pos n) = 0
neg_part (negsuc n) = n + 1

infixl 65 ◌-ℤ◌
unfoldable pub ◌-ℤ◌ : ℤ → ℤ → ℤ
unfolding sub_ℕ
a -ℤ b = sub_ℕ (pos_part a + neg_part b) (neg_part a + pos_part b)

-- Go's division truncates towards zero.
unfoldable pub half_int : ℤ → ℤ
unfolding sub_ℕ
half_int (pos n) = pos (n / 2)
half_int (negsuc n) = sub_ℕ 0 ((n + 1) / 2)

pub sub_pos : (a b : ℕ) → pos (a + b) -ℤ pos b ≡ pos a
unfolding ◌-ℤ◌ sub_ℕ
sub_pos a b = ground arith

pub add_one : (a : ℕ) → pos a -ℤ negsuc 0 ≡ pos (a + 1)
unfolding ◌-ℤ◌ sub_ℕ
add_one a = ground arith

pub sub_zero : (a : ℕ) → pos a -ℤ pos 0 ≡ pos a
unfolding ◌-ℤ◌ sub_ℕ
sub_zero a = ground arith

-- ===== src/Base/Bits.antt =====
-- Facts on the bits of a byte, read off tables of all its values.
use Prim.Native.Nat.{ℕ, zero, suc, ◌+◌, ◌*◌, ◌/◌, ◌%◌, ◌<◌, bit_and, bit_or}
use mathlib.Core.Path.{◌≡◌, refl}
use mathlib.Core.Bool.{Bool, true, ◌&&◌}
use native.Mathlib.Omega.{arith}
use signalg.Base.Tests.{◌==◌, ==_iff}

-- A test that holds of the numbers below a bound.
unfoldable pub holds_under : (ℕ → Bool) → ℕ → Bool
holds_under test zero = true
holds_under test (suc bound) = holds_under test bound && test bound

pub holds_at :
    (test : ℕ → Bool) (bound b : ℕ) → b < bound → holds_under test bound ≡ true → test b ≡ true
unfolding holds_under
holds_at test (suc bound) b below h = ground (arith, holds_at test bound b)
holds_at test zero b below h = absurd (omega arith)

low_table : holds_under (λ b. bit_and b 15 == b % 16) 256 ≡ true
unfolding holds_under
low_table = refl

-- `b & 0x0f` is the low half of a byte.
pub low_half : (b : ℕ) → b < 256 → bit_and b 15 ≡ b % 16
low_half b h = (==_iff _ _).0 (holds_at _ 256 b h low_table)

join_table : holds_under (λ b. bit_or (b / 16 * 16 % 256) (bit_and (b % 16) 15) == b) 256 ≡ true
unfolding holds_under
join_table = refl

-- `hi<<4 | lo` of the two halves of a byte is the byte.
pub join_halves : (b : ℕ) → b < 256 → bit_or (b / 16 * 16 % 256) (bit_and (b % 16) 15) ≡ b
join_halves b h = (==_iff _ _).0 (holds_at _ 256 b h join_table)

-- The byte of two halves, and the halves read back.
pub pack_halves :
    (hi lo : ℕ) → hi < 16 → lo < 16 → bit_or (hi * 16 % 256) (bit_and lo 15) ≡ hi * 16 + lo
pack_halves hi lo p q =
    let e : (hi * 16 + lo) / 16 ≡ hi = omega arith in
    let f : (hi * 16 + lo) % 16 ≡ lo = omega arith in
    let t = join_halves (hi * 16 + lo) (omega arith) in rw (e, f) at t

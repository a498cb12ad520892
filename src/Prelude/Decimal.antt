-- ===== src/Prelude/Decimal.antt =====
-- Python's `Decimal`: NaN, the infinities, and signed decimal fractions of any length.
use kans_shop.Prelude.Tests.{leb, ◌==◌}
use Prim.Native.Nat.{ℕ, ◌+◌, ◌*◌, ◌/◌, ◌^◌}
use mathlib.Core.Bool.{Bool, true, false, ◌&&◌, ◌||◌, not}

-- `finite negative coefficient places` is ± coefficient / 10 ^ places. A positive exponent is
-- multiplied out.
pub data Decimal : Type 0 where
  nan : Decimal
  infinite : Bool → Decimal
  finite : Bool → ℕ → ℕ → Decimal

-- An amount in cents, as the database's Numeric(12, 2) holds it.
abbrev pub of_cents : ℕ → Decimal
of_cents n = finite false n 2

abbrev pub is_finite : Decimal → Bool
is_finite nan = false
is_finite (infinite s) = false
is_finite (finite s c p) = true

-- `d < 0`
abbrev pub is_negative : Decimal → Bool
is_negative nan = false
is_negative (infinite s) = s
is_negative (finite s c p) = s && not (c == 0)

-- `|d|` in units of 10 ^ -(p + q), for a fraction with q places
abbrev scaled : ℕ → ℕ → ℕ
scaled c p = c * 10 ^ p

-- `d == n` for an amount of n cents
unfoldable pub eq_cents : Decimal → ℕ → Bool
eq_cents nan n = false
eq_cents (infinite s) n = false
eq_cents (finite s c p) n = scaled c 2 == scaled n p && (not s || c == 0)

-- `n >= d` for an amount of n cents and a finite `d`
unfoldable pub cents_ge : ℕ → Decimal → Bool
cents_ge n nan = false
cents_ge n (infinite s) = s
cents_ge n (finite true c p) = true
cents_ge n (finite false c p) = leb (scaled c 2) (scaled n p)

-- `amount.quantize(Decimal("0.01"), rounding=ROUND_HALF_UP)` of c / 10 ^ p, in cents
unfoldable pub round_cents : ℕ → ℕ → ℕ
round_cents c p = (2 * c * 100 + 10 ^ p) / (2 * 10 ^ p)

-- `d == n` for a whole number n
unfoldable pub eq_units : Decimal → ℕ → Bool
eq_units nan n = false
eq_units (infinite s) n = false
eq_units (finite s c p) n = c == scaled n p && (not s || c == 0)

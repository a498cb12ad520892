-- ===== src/Prelude/Parse.antt =====
-- What the services use of Python's text functions: `str.strip`, `int(text)` and `Decimal(text)`.
-- Only ASCII digits and letters are read.
use kans_shop.Prelude.Tests.{leb, ◌==◌, if◌then◌else◌}
use kans_shop.Prelude.Lists.{length, is_empty}
use kans_shop.Prelude.Texts.{Text, codes, text_eq}
use kans_shop.Prelude.Int.{ℤ, pos, negsuc, neg, sub_ℕ}
use kans_shop.Prelude.Decimal.{Decimal, nan, infinite, finite}
use Prim.Native.Nat.{ℕ, suc, ◌+◌, ◌-◌, ◌*◌, ◌^◌}
use mathlib.Core.Bool.{Bool, true, false, ◌&&◌, ◌||◌}
use mathlib.Core.Option.{Option, none, some}
use mathlib.Core.List.{[], ◌∷◌, ◌++◌, reverse, map}
use mathlib.Core.Path.{◌≡◌, refl}

pub is_space : ℕ → Bool
is_space c = (leb 9 c && leb c 13) || ((leb 28 c && leb c 32) || (c == 133 || (c == 160 || wide c)))
  where
    wide : ℕ → Bool
    wide c =
        c == 5760
        || ((leb 8192 c && leb c 8202)
            || ((leb 8232 c && leb c 8233) || (c == 8239 || (c == 8287 || c == 12288))))

pub drop_spaces : Text → Text
drop_spaces [] = []
drop_spaces (c ∷ s) = let rest = drop_spaces s in if is_space c then rest else c ∷ s

unfoldable pub strip : Text → Text
unfolding drop_spaces is_space
strip s = reverse (drop_spaces (reverse (drop_spaces s)))

is_digit : ℕ → Bool
is_digit c = leb b'0' c && leb c b'9'

-- The digits at the front, and the rest.
span_digits : Text → Text × Text
unfolding is_digit
span_digits [] = ([], [])
span_digits (c ∷ s) =
    let (front, rest) = span_digits s in if is_digit c then (c ∷ front, rest) else ([], c ∷ s)

digits_value : ℕ → Text → ℕ
digits_value acc [] = acc
digits_value acc (c ∷ s) = digits_value (acc * 10 + (c - b'0')) s

-- The sign at the front: whether it is negative, and the rest.
read_sign : Text → Bool × Text
read_sign [] = (false, [])
read_sign (c ∷ s) =
    if c == b'-' then (true, s) else if c == b'+' then (false, s) else (false, c ∷ s)

signed : Bool → ℕ → ℤ
signed true n = neg n
signed false n = pos n

-- A digit must follow an underscore and the sign.
int_digits : ℕ → Bool → Text → Option ℕ
unfolding is_digit
int_digits acc seen [] = if seen then some acc else none
int_digits acc seen (c ∷ s) =
    let next = int_digits (acc * 10 + (c - b'0')) true s in
    let skip = int_digits acc false s in
    if is_digit c then next else if (c == b'_') && seen then skip else none

int_unsigned : Bool × Text → Option ℤ
unfolding int_digits signed
int_unsigned (s, t) = elim (int_digits 0 false t) [ none ↦ none | some n ↦ some (signed s n) ]

-- `int(text)`
unfoldable pub int_of_text : Text → Option ℤ
unfolding strip int_unsigned read_sign
int_of_text s = int_unsigned (read_sign (strip s))

lower : ℕ → ℕ
lower c = if leb b'A' c && leb c b'Z' then c + 32 else c

no_underscores : Text → Text
no_underscores [] = []
no_underscores (c ∷ s) = let rest = no_underscores s in if c == b'_' then rest else c ∷ rest

-- ± digits / 10 ^ places * 10 ^ exponent
scale : Bool → ℕ → ℕ → ℤ → Decimal
scale s c places (pos e) = shift s c (sub_ℕ places e)
  where
    shift : Bool → ℕ → ℤ → Decimal
    shift s c (pos p) = finite s c p
    shift s c (negsuc n) = finite s (c * 10 ^ suc n) 0
scale s c places (negsuc e) = finite s c (places + suc e)

read_exponent : Text → Option ℤ
unfolding span_digits read_sign digits_value signed
read_exponent t =
    let (s, u) = read_sign t in
    let (front, rest) = span_digits u in
    if is_empty front
    then none
    else if is_empty rest
    then some (signed s (digits_value 0 front))
    else none

-- The exponent, if there is one, and nothing behind it.
finish : Bool → Text → ℕ → Text → Option Decimal
unfolding scale read_exponent digits_value
finish s front places [] = some (finite s (digits_value 0 front) places)
finish s front places (c ∷ t) =
    if c == b'e'
    then elim (read_exponent t) [
      | none ↦ none
      | some e ↦ some (scale s (digits_value 0 front) places e)
    ]
    else none

fraction_part : Bool → Text → Text → Option Decimal
unfolding finish span_digits
fraction_part s front t =
    let (places, rest) = span_digits t in
    if is_empty (front ++ places) then none else finish s (front ++ places) (length places) rest

number : Bool → Text → Text → Option Decimal
unfolding fraction_part finish
number s front [] = if is_empty front then none else finish s front 0 []
number s front (c ∷ t) =
    if c == b'.'
    then fraction_part s front t
    else if is_empty front
    then none
    else finish s front 0 (c ∷ t)

is_nan : Text → Bool
unfolding span_digits
is_nan t =
    let (digits, rest) = span_digits (tail3 t) in text_eq (head3 t) (codes "nan") && is_empty rest
  where
    head3 : Text → Text
    head3 (a ∷ b ∷ c ∷ t) = a ∷ b ∷ c ∷ []
    head3 _ = []

    tail3 : Text → Text
    tail3 (a ∷ b ∷ c ∷ t) = t
    tail3 t = t

special : Bool → Text → Option Decimal
unfolding is_nan text_eq
special s t =
    if text_eq t (codes "inf") || text_eq t (codes "infinity")
    then some (infinite s)
    else if is_nan t || is_signal t
    then some nan
    else none
  where
    is_signal : Text → Bool
    is_signal [] = false
    is_signal (c ∷ t) = (c == b's') && is_nan t

any_decimal : Bool × Text → Option Decimal
unfolding special number span_digits
any_decimal (s, t) =
    let (front, rest) = span_digits t in
    elim (special s t) [ some d ↦ some d | none ↦ number s front rest ]

-- `Decimal(text)`; `none` is InvalidOperation.
unfoldable pub decimal_of_text : Text → Option Decimal
unfolding any_decimal read_sign no_underscores lower strip
decimal_of_text s = any_decimal (read_sign (map lower (no_underscores (strip s))))

parse_tests :
    (decimal_of_text (codes " 12.50 ") ≡ some (finite false 1250 2))
    × (decimal_of_text (codes "-1e2") ≡ some (finite true 100 0))
    × (decimal_of_text (codes "1.5.") ≡ none)
    × (decimal_of_text (codes "-Infinity") ≡ some (infinite true))
    × (decimal_of_text (codes ".") ≡ none)
    × (int_of_text (codes "-1_0") ≡ some (negsuc 9))
    × (int_of_text (codes "1.0") ≡ none)
unfolding decimal_of_text int_of_text
parse_tests = (refl, refl, refl, refl, refl, refl, refl)

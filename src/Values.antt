-- ===== src/Values.antt =====
-- Python's `int` and `Decimal` of a JSON value, as the services call them.
use kans_shop.Prelude.{suc, ◌/◌, ◌^◌, true, false, Option, none, some}
use kans_shop.Prelude.Int.{ℤ, pos, negsuc, neg}
use kans_shop.Prelude.Decimal.{Decimal, finite}
use kans_shop.Prelude.Parse.{decimal_of_text, int_of_text}
use kans_shop.Models.{Value}

-- `int(value)`, where `none` is a TypeError or a ValueError
unfoldable pub int_of : Value → Option ℤ
int_of Value.null = none
int_of (Value.other t) = none
int_of (Value.boolean true) = some (pos 1)
int_of (Value.boolean false) = some (pos 0)
int_of (Value.integer z) = some z
int_of (Value.fraction (finite true c p)) = some (neg (c / 10 ^ p))
int_of (Value.fraction (finite false c p)) = some (pos (c / 10 ^ p))
int_of (Value.fraction _) = none
int_of (Value.text t) = int_of_text t

-- `Decimal(str(value))`, where `none` is InvalidOperation
unfoldable pub decimal_of : Value → Option Decimal
decimal_of Value.null = none
decimal_of (Value.other t) = none
decimal_of (Value.boolean b) = none
decimal_of (Value.integer (pos n)) = some (finite false n 0)
decimal_of (Value.integer (negsuc n)) = some (finite true (suc n) 0)
decimal_of (Value.fraction d) = some d
decimal_of (Value.text t) = decimal_of_text t

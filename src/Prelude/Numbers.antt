-- ===== src/Prelude/Numbers.antt =====
-- JavaScript's numbers, as far as the amounts of a request go.
use Prim.Native.Nat.{ℕ, suc}
use mathlib.Core.Option.{Option, none, some}
use opod_service_backend.Prelude.Int.{ℤ, pos}

-- A number of a request body: an integer, or any other (a fraction, an infinity, NaN).
pub data Number : Type 0 where
  integer : ℤ → Number
  non_integer : Number

-- The amount that passes `Number.isInteger(amount) && amount > 0`.
abbrev pub positive_integer : Number → Option ℕ
positive_integer (integer (pos (suc n))) = some (suc n)
positive_integer _ = none

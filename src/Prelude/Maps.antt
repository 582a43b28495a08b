-- ===== src/Prelude/Maps.antt =====
-- JavaScript's `Map` from identifiers to amounts, in insertion order.
use Prim.Native.Nat.{ℕ, ◌+◌, ◌≤◌}
use mathlib.Core.Path.{◌≡◌, refl}
use mathlib.Core.List.{List, [], ◌∷◌}
use native.Mathlib.Omega.{arith}
use opod_service_backend.Prelude.Tests.{◌==◌, if◌then◌else◌}

abbrev pub Amounts : Type 0
Amounts = List (ℕ × ℕ)

-- `map.get(key) ?? 0`
abbrev pub amount_at : ℕ → Amounts → ℕ
amount_at k [] = 0
amount_at k ((j, v) ∷ m) = if k == j then v else amount_at k m

-- `map.set(key, value)`
abbrev pub put : ℕ → ℕ → Amounts → Amounts
put k v [] = (k, v) ∷ []
put k v ((j, w) ∷ m) = if k == j then (k, v) ∷ m else (j, w) ∷ put k v m

-- `[...map.values()].reduce((total, amount) => total + amount, 0)`
abbrev pub total : Amounts → ℕ
total [] = 0
total ((j, v) ∷ m) = v + total m

-- `GROUP BY key`, `SUM(amount)`: one row of the group is added.
abbrev pub add_to_group : ℕ → ℕ → Amounts → Amounts
add_to_group k v m = put k (amount_at k m + v) m

pub amount_at-put :
    (j k v : ℕ) (m : Amounts) → amount_at j (put k v m) ≡ (if j == k then v else amount_at j m)
amount_at-put j k v [] = refl
amount_at-put j k v ((i, w) ∷ m) = ground (arith, amount_at-put j k v m)

pub total-put : (k v : ℕ) (m : Amounts) → total (put k v m) + amount_at k m ≡ total m + v
total-put k v [] = omega arith
total-put k v ((j, w) ∷ m) = ground (arith, total-put k v m)

pub amount_at-le-total : (k : ℕ) (m : Amounts) → amount_at k m ≤ total m
amount_at-le-total k [] = omega arith
amount_at-le-total k ((j, w) ∷ m) = ground (arith, amount_at-le-total k m)

-- ===== src/Base/Options.antt =====
-- What a computed option is.
use mathlib.Core.Path.{◌≡◌, refl, ap}
use mathlib.Core.Logic.{◌⊎◌, inl, inr}
use mathlib.Core.Bool.{Bool, true, false}
use mathlib.Core.Option.{Option, none, some}
use native.Mathlib.Omega.{arith}

abbrev is_absent : {V : Type 0} → Option V → Bool
is_absent none = true
is_absent (some v) = false

-- A key cannot be both absent and found.
pub none-some : {V : Type 0} → (v : V) → none ≡ some v → ⊥
none-some v e = let t : true ≡ false = ap is_absent e in ground (arith, t)

pub record IsSome {V : Type 0} (o : Option V) : Type 0 where
  pub value : V
  pub is_value : o ≡ some value

pub Option-cases : {V : Type 0} → (o : Option V) → (o ≡ none) ⊎ IsSome o
Option-cases none = inl refl
Option-cases (some v) = inr (record { value = v; is_value = refl })

-- ===== src/Base/Commands.antt =====
-- Commands: functions of a state that may fault. `none` is a fault of the machine, such as an
-- access through NULL or through a pointer to memory that was given back.
use mathlib.Core.Path.{◌≡◌, refl}
use mathlib.Core.Option.{Option, none, some}
use mathlib.Core.Bool.{Bool, true, false}

abbrev pub Cmd : Type 0 → Type 0 → Type 0
Cmd S A = S → Option (A × S)

abbrev pub and_then {ℓ κ} : {A : Type ℓ} {B : Type κ} → Option A → (A → Option B) → Option B
and_then none f = none
and_then (some a) f = f a

abbrev pub is_some {ℓ} : {A : Type ℓ} → Option A → Bool
is_some none = false
is_some (some a) = true

-- A run comes to an end without a fault, with a value and a state of which `P` holds.
abbrev pub Ends : {S A : Type 0} → Option (A × S) → (A → S → Type 0) → Type 0
Ends {S} {A} r P = (a : A) × (s : S) × (r ≡ some (a, s)) × P a s

module _ {S : Type 0} where
  abbrev pub pure : {A : Type 0} → A → Cmd S A
  pure a s = some (a, s)

  abbrev pub fault : {A : Type 0} → Cmd S A
  fault s = none

  infixl 5 ◌>>=◌ ◌>>◌
  abbrev pub ◌>>=◌ : {A B : Type 0} → Cmd S A → (A → Cmd S B) → Cmd S B
  ◌>>=◌ m f s = and_then (m s) (λ (a, s'). f a s')

  abbrev pub ◌>>◌ : {A B : Type 0} → Cmd S A → Cmd S B → Cmd S B
  ◌>>◌ m k s = and_then (m s) (λ (_, s'). k s')

-- A command that does nothing where the test fails.
abbrev pub when : {S : Type 0} → Bool → Cmd S (Unit {0}) → Cmd S (Unit {0})
when true c = c
when false c = pure tt

pub Option-some : {A : Type 0} (o : Option A) → is_some o ≡ true → (a : A) × (o ≡ some a)
Option-some none h = cc
Option-some (some a) h = (a, refl)

-- ===== src/Base/Equality.antt =====
-- Equality tests as an interface, and its instances: `PartialEq` where it is derived or built in.
use Prim.Native.Nat.{ℕ}
use Prim.Native.String.{String}
use text.Mathlib.Text.{◌==◌ as str_equal}
use text.Mathlib.TextEquality.{eq_iff as str_equal_iff}
use mathlib.Core.Bool.{Bool, true, false}
use mathlib.Core.Option.{Option, none, some}
use mathlib.Core.Logic.{◌↔◌}
use mathlib.Core.Path.{◌≡◌, refl}
use agent_console.Base.Tests.{eqb, eqb_iff}

pub record Eq {ℓ} (K : Type ℓ) : Type ℓ where
  pub equals : K → K → Bool
  pub equals_iff : (k j : K) → (equals k j ≡ true) ↔ (k ≡ j)

instance abbrev pub string_eq : Eq String
string_eq = record { equals = str_equal; equals_iff = str_equal_iff }

instance abbrev pub nat_eq : Eq ℕ
nat_eq = record { equals_iff = eqb_iff; equals = eqb }

module _ {ℓ} {K : Type ℓ} ⦃e : Eq K⦄ where
  infix 50 ◌==◌
  abbrev pub ◌==◌ : K → K → Bool
  k == j = e.equals k j

  pub ==_refl : (k : K) → (k == k) ≡ true
  ==_refl k = (e.equals_iff k k).1 refl

  -- `Option::eq`
  abbrev pub option_beq : Option K → Option K → Bool
  option_beq none none = true
  option_beq none (some k) = false
  option_beq (some k) none = false
  option_beq (some k) (some j) = k == j

-- ===== src/Common/Equality.antt =====
-- Go's `==` on the key types of the program's maps.
use Prim.Native.Nat.{ℕ}
use Prim.Native.String.{String}
use mathlib.Core.Path.{◌≡◌, refl}
use mathlib.Core.Logic.{◌↔◌}
use mathlib.Core.Bool.{Bool, true, ◌&&◌}
use native.Mathlib.Omega.{arith}
use text.Mathlib.Text.{◌==◌ as str_eq}
use text.Mathlib.TextEquality.{eq_iff}
use unified_ephemeral_runner.Common.Tests.{eqb, eqb_iff}

pub record Comparable {ℓ} (A : Type ℓ) : Type ℓ where
  pub agrees : A → A → Bool
  pub agrees_iff : (a b : A) → (agrees a b ≡ true) ↔ (a ≡ b)

module _ {ℓ} {A : Type ℓ} ⦃key : Comparable A⦄ where
  infix 50 ◌==◌
  abbrev pub ◌==◌ : A → A → Bool
  ◌==◌ = key.agrees

  pub ==_refl : (a : A) → (a == a) ≡ true
  ==_refl a = (key.agrees_iff a a).1 refl

instance abbrev pub nat_eq : Comparable ℕ
nat_eq = record { agrees = eqb; agrees_iff = eqb_iff }

instance abbrev pub string_eq : Comparable String
string_eq = record { agrees = str_eq; agrees_iff = eq_iff }

module _ {ℓ κ} {A : Type ℓ} {B : Type κ} ⦃e : Comparable A⦄ ⦃f : Comparable B⦄ where
  abbrev pub pair_beq : A × B → A × B → Bool
  pair_beq (a, b) (c, d) = e.agrees a c && f.agrees b d

  pub pair_beq_iff : (p q : A × B) → (pair_beq p q ≡ true) ↔ (p ≡ q)
  pair_beq_iff (a, b) (c, d) = ground (arith, e.agrees_iff a c, f.agrees_iff b d)

  instance abbrev pub pair_eq : Comparable (A × B)
  pair_eq = record { agrees = pair_beq; agrees_iff = pair_beq_iff }

-- ===== src/Common/Equality.antt =====
-- The `===` of the source, for numbers and for texts: an interface with its law.
use Prim.Native.String.{String}
use mathlib.Core.Path.{◌≡◌, refl}
use mathlib.Core.Logic.{◌↔◌, ◌≢◌}
use mathlib.Core.Bool.{Bool, true, false}
use native.Mathlib.Omega.{arith}
use text.Mathlib.Text.{◌==◌ as str_eq}
use text.Mathlib.TextEquality.{eq_iff}

pub record Comparable {κ} (Key : Type κ) : Type κ where
  pub same : (left right : Key) → Bool
  pub same_iff : (left right : Key) → (left ≡ right) ↔ (same left right ≡ true)

instance abbrev pub string_instance : Comparable String
string_instance = record { same = str_eq; same_iff = λ x y. ((eq_iff x y).1, (eq_iff x y).0) }

infix 50 ◌==◌
abbrev pub ◌==◌ {κ} : {Key : Type κ} ⦃keys : Comparable Key⦄ → Key → Key → Bool
◌==◌ ⦃keys = k⦄ x y = k.same x y

module _ {ℓ} {A : Type ℓ} ⦃e : Comparable A⦄ where
  pub ==_iff : (a b : A) → ((a == b) ≡ true) ↔ (a ≡ b)
  ==_iff a b = ((e.same_iff a b).1, (e.same_iff a b).0)

  pub ==_self : (a : A) → (a == a) ≡ true
  ==_self a = (e.same_iff a a).0 refl

  pub ==_of_ne : (a b : A) → a ≢ b → (a == b) ≡ false
  ==_of_ne a b h = ground (arith, e.same_iff a b)

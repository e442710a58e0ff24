-- ===== src/Common/Sets.antt =====
-- Membership in an array (`includes`), and the `Set` of an array, in the order of insertion.
use mathlib.Core.Path.{◌≡◌, refl}
use mathlib.Core.Bool.{Bool, ◌&&◌, ◌||◌}
use mathlib.Core.Logic.{inl, inr}
use mathlib.Core.List.{List, [], ◌∷◌, ◌++◌}
use native.Mathlib.Omega.{arith}
use contextctl.Common.Tests.{if◌then◌else◌, Bool-cases}
use contextctl.Common.Equality.{Comparable, ◌==◌, ==_iff, ==_self}
use contextctl.Common.Lists.{any, filter}

module _ {ℓ} {A : Type ℓ} ⦃e : Comparable A⦄ where
  unfoldable pub contains : A → List A → Bool
  unfolding any
  contains a xs = any (λ x. x == a) xs

  unfoldable pub add : List A → A → List A
  unfolding contains
  add seen x = if contains x seen then seen else seen ++ x ∷ []

  unfoldable pub set_of : List A → List A → List A
  unfolding add
  set_of seen [] = seen
  set_of seen (x ∷ xs) = set_of (add seen x) xs

  pub contains-filter :
      (p : A → Bool) (a : A) (xs : List A) → contains a (filter p xs) ≡ (contains a xs && p a)
  unfolding contains filter
  contains-filter p a [] = refl
  contains-filter p a (x ∷ xs) = elim (Bool-cases (x == a)) [
    | inl hit ↦
        let same : x ≡ a = (==_iff x a).0 hit in
        rw same (ground (arith, contains-filter p a xs, ==_self a))
    | inr miss ↦ ground (arith, contains-filter p a xs)
  ]

  contains-append_one :
      (a x : A) (xs : List A) → contains a (xs ++ x ∷ []) ≡ (contains a xs || (x == a))
  unfolding contains
  contains-append_one a x [] = ground arith
  contains-append_one a x (y ∷ xs) = ground (arith, contains-append_one a x xs)

  pub contains-add :
      (a x : A) (seen : List A) → contains a (add seen x) ≡ (contains a seen || (x == a))
  unfolding add
  contains-add a x seen = elim (Bool-cases (contains x seen)) [
    | inl old ↦ elim (Bool-cases (x == a)) [
      | inl hit ↦
          let same : x ≡ a = (==_iff x a).0 hit in
          rw (old, hit, add) (ground (arith, rw same at old))
      | inr miss ↦ rw (old, miss, add) (ground arith)
    ]
    | inr new ↦ rw (new, add) (contains-append_one a x seen)
  ]

  pub contains-set_of :
      (a : A) (xs seen : List A) → contains a (set_of seen xs) ≡ (contains a seen || contains a xs)
  unfolding set_of contains
  contains-set_of a [] seen = ground arith
  contains-set_of a (x ∷ xs) seen =
      ground (arith, contains-set_of a xs (add seen x), contains-add a x seen)

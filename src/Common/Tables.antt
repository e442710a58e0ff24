-- ===== src/Common/Tables.antt =====
-- Rows with a key, in the order in which they were written: the tables of a database and the
-- arrays that the source searches by id.
use mathlib.Core.Path.{◌≡◌, refl}
use mathlib.Core.Bool.{Bool, true, false, ◌||◌}
use mathlib.Core.Logic.{inl, inr}
use mathlib.Core.Option.{Option, some}
use mathlib.Core.List.{List, [], ◌∷◌, ◌++◌}
use native.Mathlib.Omega.{arith}
use contextctl.Common.Tests.{if◌then◌else◌, Bool-cases}
use contextctl.Common.Equality.{Comparable, ◌==◌, ==_iff, ==_self}
use contextctl.Common.Lists.{find, any, filter, All, Exists, All-if, All-map, find-passes, find-All}

module _ {ℓ κ} {R : Type ℓ} {K : Type κ} ⦃e : Comparable K⦄ (key : R → K) where
  unfoldable pub lookup : K → List R → Option R
  unfolding find
  lookup k rows = find (λ r. key r == k) rows

  unfoldable pub has_key : K → List R → Bool
  unfolding any
  has_key k rows = any (λ r. key r == k) rows

  -- INSERT … ON CONFLICT DO NOTHING
  unfoldable pub insert_or_ignore : R → List R → List R
  unfolding has_key
  insert_or_ignore r rows = if has_key (key r) rows then rows else rows ++ r ∷ []

  -- INSERT … ON CONFLICT DO UPDATE of all other columns
  unfoldable pub upsert : R → List R → List R
  upsert r [] = r ∷ []
  upsert r (x ∷ rows) = if key x == key r then r ∷ rows else x ∷ upsert r rows

  -- No two rows have one key.
  abbrev pub Distinct : List R → Type 0
  Distinct [] = Unit
  Distinct (r ∷ rows) = (has_key (key r) rows ≡ false) × Distinct rows

module _ {ℓ κ} {R : Type ℓ} {K : Type κ} ⦃e : Comparable K⦄ (key : R → K) where
  pub lookup-key : (k : K) (rows : List R) (r : R) → lookup key k rows ≡ some r → key r ≡ k
  unfolding lookup
  lookup-key k rows r h = (==_iff (key r) k).0 (find-passes (λ r. key r == k) rows r h)

  pub has_of_lookup :
      (k : K) (rows : List R) (r : R) → lookup key k rows ≡ some r → has_key key k rows ≡ true
  unfolding lookup has_key
  has_of_lookup k [] r h = ground arith
  has_of_lookup k (x ∷ rows) r h = ground (arith, has_of_lookup k rows r)

  pub has-append_one :
      (k : K) (rows : List R) (r : R)
      → has_key key k (rows ++ r ∷ []) ≡ (if has_key key k rows then true else key r == k)
  unfolding has_key
  has-append_one k [] r = ground arith
  has-append_one k (x ∷ rows) r = ground (arith, has-append_one k rows r)

  pub Distinct-append_one :
      (rows : List R) (r : R)
      → Distinct key rows
      → has_key key (key r) rows ≡ false
      → Distinct key (rows ++ r ∷ [])
  unfolding has_key
  Distinct-append_one [] r d h = (refl, tt)
  Distinct-append_one (x ∷ rows) r d h = (
    ground (arith, has-append_one (key x) rows r, ==_iff (key r) (key x), ==_iff (key x) (key r)),
    Distinct-append_one rows r d.1 (ground arith),
  )

  pub lookup-append_one :
      (k : K) (rows : List R) (r : R) (x : R)
      → lookup key k rows ≡ some x
      → lookup key k (rows ++ r ∷ []) ≡ some x
  unfolding lookup
  lookup-append_one k [] r x h = ground arith
  lookup-append_one k (y ∷ rows) r x h = ground (arith, lookup-append_one k rows r x)

  -- A row that is there stays as it is.
  pub lookup-insert_or_ignore_old :
      (k : K) (r : R) (rows : List R) (x : R)
      → lookup key k rows ≡ some x
      → lookup key k (insert_or_ignore key r rows) ≡ some x
  unfolding insert_or_ignore
  lookup-insert_or_ignore_old k r rows x h = ground (arith, lookup-append_one k rows r x h)

  pub Distinct-insert_or_ignore :
      (r : R) (rows : List R) → Distinct key rows → Distinct key (insert_or_ignore key r rows)
  unfolding insert_or_ignore
  Distinct-insert_or_ignore r rows d = elim (Bool-cases (has_key key (key r) rows)) [
    | inl old ↦ rw old d
    | inr new ↦ rw new (Distinct-append_one rows r d new)
  ]

  pub lookup-upsert :
      (k : K) (r : R) (rows : List R)
      → lookup key k (upsert key r rows) ≡ (if key r == k then some r else lookup key k rows)
  unfolding lookup upsert
  lookup-upsert k r [] = refl
  lookup-upsert k r (x ∷ rows) =
      ground
        (arith, ==_iff (key x) (key r), ==_iff (key x) k, ==_iff (key r) k, lookup-upsert k r rows)

  has-upsert :
      (k : K) (r : R) (rows : List R)
      → has_key key k (upsert key r rows) ≡ (if key r == k then true else has_key key k rows)
  unfolding has_key upsert
  has-upsert k r [] = ground arith
  has-upsert k r (x ∷ rows) =
      ground
        (arith, ==_iff (key x) (key r), ==_iff (key x) k, ==_iff (key r) k, has-upsert k r rows)

  pub Distinct-upsert :
      (r : R) (rows : List R) → Distinct key rows → Distinct key (upsert key r rows)
  unfolding upsert has_key
  Distinct-upsert r [] d = (refl, tt)
  Distinct-upsert r (x ∷ rows) d = elim (Bool-cases (key x == key r)) [
    | inl hit ↦ let e : key x ≡ key r = (==_iff (key x) (key r)).0 hit in rw hit (rw e at d.0, d.1)
    | inr miss ↦ rw miss (
      ground
          (arith, has-upsert (key x) r rows, d.0, ==_iff (key x) (key r), ==_iff (key r) (key x)),
      Distinct-upsert r rows d.1,
    )
  ]

  pub has-append :
      (k : K) (xs ys : List R) → has_key key k (xs ++ ys) ≡ (has_key key k xs || has_key key k ys)
  unfolding has_key
  has-append k [] ys = refl
  has-append k (x ∷ xs) ys = ground (arith, has-append k xs ys)

  pub has_of_Distinct :
      (xs ys : List R) (r : R) → Distinct key (xs ++ r ∷ ys) → has_key key (key r) xs ≡ false
  unfolding has_key
  has_of_Distinct [] ys r d = refl
  has_of_Distinct (x ∷ xs) ys r d = ground (
    arith,
    d.0,
    has-append (key x) xs (r ∷ ys),
    ==_iff (key x) (key r),
    ==_iff (key r) (key x),
    has_of_Distinct xs ys r d.1,
  )

  pub has-filter :
      (p : R → Bool) (rows : List R) → All (λ r. has_key key (key r) rows ≡ true) (filter p rows)
  unfolding has_key filter
  has-filter p [] = tt
  has-filter p (r ∷ rows) =
      All-if (λ x. has_key key (key x) (r ∷ rows) ≡ true) (p r) r (filter p rows)
        (λ e. ground (arith, ==_self (key r)))
        (All-map (λ x. has_key key (key x) rows ≡ true) _ (filter p rows) (λ x h. ground (arith, h))
          (has-filter p rows))

  has-filter_of_has :
      (p : R → Bool) (k : K) (rows : List R)
      → has_key key k rows ≡ false
      → has_key key k (filter p rows) ≡ false
  unfolding has_key filter
  has-filter_of_has p k [] h = refl
  has-filter_of_has p k (r ∷ rows) h = ground (arith, has-filter_of_has p k rows)

  -- Where keys are distinct, a row that a selection of the rows holds is found among all of them.
  pub lookup-filter :
      (p : R → Bool) (k : K) (rows : List R) (r : R)
      → Distinct key rows
      → lookup key k (filter p rows) ≡ some r
      → lookup key k rows ≡ some r
  unfolding lookup filter
  lookup-filter p k [] r d h = h
  lookup-filter p k (x ∷ rows) r d h = elim (Bool-cases (key x == k)) [
    | inl hit ↦ elim (Bool-cases (p x)) [
      | inl kept ↦ ground arith
      | inr dropped ↦
          let same : key x ≡ k = (==_iff (key x) k).0 hit in
          absurd (
            ground (
              arith,
              rw same at (has-filter_of_has p (key x) rows d.0),
              has_of_lookup k (filter p rows) r,
            ))
    ]
    | inr miss ↦ ground (arith, lookup-filter p k rows r d.1)
  ]

  pub lookup-filter_of :
      (p : R → Bool) (k : K) (rows : List R) (r : R)
      → lookup key k rows ≡ some r
      → p r ≡ true
      → lookup key k (filter p rows) ≡ some r
  unfolding lookup filter
  lookup-filter_of p k [] r h kept = h
  lookup-filter_of p k (x ∷ rows) r h kept = elim (Bool-cases (key x == k)) [
    | inl hit ↦ let same : x ≡ r = ground arith in ground (arith, same, kept, hit)
    | inr miss ↦ ground (arith, lookup-filter_of p k rows r)
  ]

  pub Distinct-filter :
      (p : R → Bool) (rows : List R) → Distinct key rows → Distinct key (filter p rows)
  unfolding filter
  Distinct-filter p [] d = tt
  Distinct-filter p (r ∷ rows) d = elim (Bool-cases (p r)) [
    | inl kept ↦ rw kept (has-filter_of_has p (key r) rows d.0, Distinct-filter p rows d.1)
    | inr dropped ↦ rw dropped (Distinct-filter p rows d.1)
  ]

  pub lookup-append :
      (k : K) (xs ys : List R) (r : R) → lookup key k xs ≡ some r → lookup key k (xs ++ ys) ≡ some r
  unfolding lookup
  lookup-append k [] ys r h = ground arith
  lookup-append k (x ∷ xs) ys r h = ground (arith, lookup-append k xs ys r)

  pub lookup-All {μ} :
      (P : R → Type μ) (k : K) (rows : List R) (r : R)
      → All P rows
      → lookup key k rows ≡ some r
      → P r
  unfolding lookup
  lookup-All P k rows r all h = find-All P (λ x. key x == k) rows r all h

  pub Exists-upsert_new :
      (P : R → Type 0) (r : R) (rows : List R) → P r → Exists P (upsert key r rows)
  unfolding upsert
  Exists-upsert_new P r [] h = inl h
  Exists-upsert_new P r (x ∷ rows) h = elim (Bool-cases (key x == key r)) [
    | inl hit ↦ rw hit (inl h)
    | inr miss ↦ rw miss (inr (Exists-upsert_new P r rows h))
  ]

  -- What a row had is kept if the row that takes its place has it.
  pub Exists-upsert :
      (P : R → Type 0) (r : R) (rows : List R)
      → ((old : R) → lookup key (key r) rows ≡ some old → P old → P r)
      → Exists P rows
      → Exists P (upsert key r rows)
  unfolding upsert lookup find
  Exists-upsert P r [] keeps h = absurd h
  Exists-upsert P r (x ∷ rows) keeps h = elim (Bool-cases (key x == key r)) [
    | inl hit ↦
        rw hit (elim h [ inl own ↦ inl (keeps x (rw hit refl) own) | inr other ↦ inr other ])
    | inr miss ↦ rw miss (elim h [
      | inl own ↦ inl own
      | inr other ↦ inr (Exists-upsert P r rows (λ old found. keeps old (rw miss found)) other)
    ])
  ]

  pub All-upsert {μ} :
      (P : R → Type μ) (r : R) (rows : List R) → P r → All P rows → All P (upsert key r rows)
  unfolding upsert
  All-upsert P r [] p all = (p, tt)
  All-upsert P r (x ∷ rows) p all = elim (Bool-cases (key x == key r)) [
    | inl hit ↦ rw hit (p, all.1)
    | inr miss ↦ rw miss (all.0, All-upsert P r rows p all.1)
  ]

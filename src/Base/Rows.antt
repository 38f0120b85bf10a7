-- ===== src/Base/Rows.antt =====
-- How a search reads a table after an INSERT or an UPDATE.
use mathlib.Core.Path.{◌≡◌, refl, subst}
use mathlib.Core.Bool.{Bool, true, false}
use mathlib.Core.Option.{Option, none, some}
use mathlib.Core.Logic.{inl, inr}
use mathlib.Core.List.{List, [], ◌∷◌, ◌++◌}
use mu_5x_fibonacci_trading.Base.Tests.{Bool-cases, if◌then◌else◌}
use mu_5x_fibonacci_trading.Base.Lists.{find, update_where}

-- A predicate of every row.
abbrev pub All {ℓ κ} : {A : Type ℓ} → (A → Type κ) → List A → Type κ
All P [] = Unit
All P (x ∷ xs) = P x × All P xs

pub All-append {ℓ κ} :
    {A : Type ℓ} (P : A → Type κ) (xs ys : List A) → All P xs → All P ys → All P (xs ++ ys)
All-append P [] ys hx hy = hy
All-append P (x ∷ xs) ys hx hy = (hx.0, All-append P xs ys hx.1 hy)

pub All-map {ℓ κ κ'} :
    {A : Type ℓ} {P : A → Type κ} {Q : A → Type κ'} (f : (a : A) → P a → Q a) (xs : List A)
    → All P xs
    → All Q xs
All-map f [] h = tt
All-map f (x ∷ xs) h = (f x h.0, All-map f xs h.1)

module _ {ℓ} {A : Type ℓ} where
  pub find-append_some :
      (test : A → Bool) (xs : List A) (y : A) {x : A}
      → find test xs ≡ some x
      → find test (xs ++ y ∷ []) ≡ some x
  find-append_some test [] y h = cc
  find-append_some test (z ∷ xs) y h = elim (Bool-cases (test z)) [
    | inl hit ↦ rw (hit, find) (rw (hit, find) at h)
    | inr miss ↦ rw (miss, find) (find-append_some test xs y (rw (miss, find) at h))
  ]

  pub find-append_none :
      (test : A → Bool) (xs : List A) (y : A)
      → find test xs ≡ none
      → find test (xs ++ y ∷ []) ≡ (if test y then some y else none)
  find-append_none test [] y h = elim (Bool-cases (test y)) [
    | inl hit ↦ rw (hit, find)
    | inr miss ↦ rw (miss, find)
  ]
  find-append_none test (z ∷ xs) y h = elim (Bool-cases (test z)) [
    | inl hit ↦ absurd (cc (rw (hit, find) at h))
    | inr miss ↦ rw (miss, find) (find-append_none test xs y (rw (miss, find) at h))
  ]

  -- The found row satisfies the test and what all rows satisfy.
  pub find_test : (test : A → Bool) (xs : List A) {x : A} → find test xs ≡ some x → test x ≡ true
  find_test test [] h = cc
  find_test test (z ∷ xs) h = elim (Bool-cases (test z)) [
    | inl hit ↦ cc (hit, (rw (hit, find) at h))
    | inr miss ↦ find_test test xs (rw (miss, find) at h)
  ]

  pub All-find {κ} :
      (P : A → Type κ) (test : A → Bool) (xs : List A) {x : A}
      → All P xs
      → find test xs ≡ some x
      → P x
  All-find P test [] a h = absurd (cc h)
  All-find P test (z ∷ xs) {x} a h = elim (Bool-cases (test z)) [
    | inl hit ↦ subst P (cc (rw (hit, find) at h)) a.0
    | inr miss ↦ All-find P test xs a.1 (rw (miss, find) at h)
  ]

  -- The row that an UPDATE leaves in the place of a row.
  abbrev pub updated : (A → Bool) → (A → A) → A → A
  updated test change x = elim (test x) [ true ↦ change x | false ↦ x ]

  abbrev pub map_option : (A → A) → Option A → Option A
  map_option f none = none
  map_option f (some x) = some (f x)

module _ {ℓ} {A : Type ℓ} where
  -- A search by what the update does not change.
  pub find-update_where :
      (key test : A → Bool) (change : A → A) (xs : List A)
      → ((x : A) → key (change x) ≡ key x)
      → find key (update_where test change xs) ≡ map_option (updated test change) (find key xs)
  find-update_where key test change [] same = refl
  find-update_where key test change (z ∷ xs) same = elim (Bool-cases (test z)) [
    | inl hit ↦ elim (Bool-cases (key z)) [
      | inl found ↦ rw (hit, find, same z, found, map_option, updated, hit)
      | inr other ↦ rw (hit, find, same z, other) (find-update_where key test change xs same)
    ]
    | inr miss ↦ elim (Bool-cases (key z)) [
      | inl found ↦ rw (miss, find, found, map_option, updated, miss)
      | inr other ↦ rw (miss, find, other) (find-update_where key test change xs same)
    ]
  ]

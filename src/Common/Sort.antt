-- ===== src/Common/Sort.antt =====
-- The stable sort of the language (`Array.prototype.sort`), as an insertion sort.
use Prim.Native.Nat.{suc}
use mathlib.Core.Path.{◌≡◌, refl}
use mathlib.Core.Logic.{inl, inr}
use mathlib.Core.Bool.{Bool, true, false}
use mathlib.Core.List.{List, [], ◌∷◌}
use native.Mathlib.Omega.{arith}
use teleyes.Common.Tests.{if◌then◌else◌, Bool-cases}
use teleyes.Common.Lists.{length, keep, All}

-- `le x y` says that the comparison of `x` with `y` is not positive.
module _ {ℓ} {A : Type ℓ} (le : A → A → Bool) where
  abbrev pub insert : A → List A → List A
  insert x [] = x ∷ []
  insert x (y ∷ ys) = let rest = insert x ys in if le x y then x ∷ y ∷ ys else y ∷ rest

  abbrev pub sort : List A → List A
  sort [] = []
  sort (x ∷ xs) = insert x (sort xs)

  abbrev pub IsSorted : List A → Type ℓ
  IsSorted [] = Unit
  IsSorted (x ∷ xs) = All (λ y. le x y ≡ true) xs × IsSorted xs

  length-insert : (x : A) (xs : List A) → length (insert x xs) ≡ suc (length xs)
  length-insert x [] = refl
  length-insert x (y ∷ ys) = ground (arith, length-insert x ys)

  pub length-sort : (xs : List A) → length (sort xs) ≡ length xs
  length-sort [] = refl
  length-sort (x ∷ xs) = ground (arith, length-insert x (sort xs), length-sort xs)

  pub insert-All {κ} : (P : A → Type κ) (x : A) (xs : List A) → P x → All P xs → All P (insert x xs)
  insert-All P x [] p k = (p, tt)
  insert-All P x (y ∷ ys) p (q, k) = elim (Bool-cases (le x y)) [
    | inl e ↦ rw e (p, (q, k))
    | inr e ↦ rw e (q, insert-All P x ys p k)
  ]

  pub sort-All {κ} : (P : A → Type κ) (xs : List A) → All P xs → All P (sort xs)
  sort-All P [] k = tt
  sort-All P (x ∷ xs) (p, k) = insert-All P x (sort xs) p (sort-All P xs k)

  -- A comparison that orders any two values, one way or the other.
  pub record IsOrder : Type ℓ where
    pub total : (x y : A) → le x y ≡ false → le y x ≡ true
    pub transitive : (x y z : A) → le x y ≡ true → le y z ≡ true → le x z ≡ true

  le-All :
      (o : IsOrder) (x y : A) (ys : List A)
      → le x y ≡ true
      → All (λ z. le y z ≡ true) ys
      → All (λ z. le x z ≡ true) ys
  le-All o x y [] h k = tt
  le-All o x y (z ∷ ys) h (p, k) = (o.transitive x y z h p, le-All o x y ys h k)

  insert-IsSorted : IsOrder → (x : A) (xs : List A) → IsSorted xs → IsSorted (insert x xs)
  insert-IsSorted o x [] s = (tt, tt)
  insert-IsSorted o x (y ∷ ys) (k, s) = elim (Bool-cases (le x y)) [
    | inl e ↦ rw e ((e, le-All o x y ys e k), (k, s))
    | inr e ↦
        rw e (insert-All (λ z. le y z ≡ true) x ys (o.total x y e) k, insert-IsSorted o x ys s)
  ]

  pub sort-IsSorted : IsOrder → (xs : List A) → IsSorted (sort xs)
  sort-IsSorted o [] = tt
  sort-IsSorted o (x ∷ xs) = insert-IsSorted o x (sort xs) (sort-IsSorted o xs)

  -- The sort keeps the order of the values that compare as equal.
  keep-insert :
      (p : A → Bool) (equal : (x y : A) → p x ≡ true → p y ≡ true → le x y ≡ true) (x : A)
      (xs : List A)
      → keep p (insert x xs) ≡ keep p (x ∷ xs)
  keep-insert p equal x [] = refl
  keep-insert p equal x (y ∷ ys) = elim (Bool-cases (le x y)) [
    | inl e ↦ rw e refl
    | inr e ↦ ground (arith, e, equal x y, keep-insert p equal x ys)
  ]

  pub keep-sort :
      (p : A → Bool) (equal : (x y : A) → p x ≡ true → p y ≡ true → le x y ≡ true) (xs : List A)
      → keep p (sort xs) ≡ keep p xs
  keep-sort p equal [] = refl
  keep-sort p equal (x ∷ xs) = ground (arith, keep-insert p equal x (sort xs), keep-sort p equal xs)

-- ===== src/Base/Seq.antt =====
-- Lists of native numbers and of anything else, measured by native numbers.
use Prim.Native.Nat.{ℕ, suc, ◌+◌}
use mathlib.Core.Path.{◌≡◌, refl}
use mathlib.Core.Logic.{◌≢◌, inl, inr}
use mathlib.Core.Bool.{Bool, true, false, ◌||◌}
use mathlib.Core.List.{List, [], ◌∷◌, ◌++◌}
use native.Mathlib.Omega.{arith}
use qoraal.Base.Tests.{◌==◌, ==_eq, if◌then◌else◌, Bool-cases}

module _ {ℓ} {A : Type ℓ} where
  abbrev pub length : List A → ℕ
  length [] = 0
  length (x ∷ xs) = suc (length xs)

  pub length-append : (xs ys : List A) → length (xs ++ ys) ≡ length xs + length ys
  length-append [] ys = omega arith
  length-append (x ∷ xs) ys = omega (arith, length-append xs ys)

-- membership, as a test
abbrev pub has : ℕ → List ℕ → Bool
has a [] = false
has a (x ∷ xs) = (a == x) || has a xs

-- drops the first occurrence
abbrev pub erase : ℕ → List ℕ → List ℕ
erase a [] = []
erase a (x ∷ xs) = if x == a then xs else x ∷ erase a xs

-- the last element, or `d` of the empty list
abbrev pub last_or : ℕ → List ℕ → ℕ
last_or d [] = d
last_or d (x ∷ xs) = last_or x xs

pub has-append : (a : ℕ) (xs ys : List ℕ) → has a (xs ++ ys) ≡ (has a xs || has a ys)
has-append a [] ys = refl
has-append a (x ∷ xs) ys = ground (arith, has-append a xs ys)

-- What is not in a list is not in it after `erase`.
pub not-has-erase : (a b : ℕ) (xs : List ℕ) → has a xs ≡ false → has a (erase b xs) ≡ false
not-has-erase a b [] h = refl
not-has-erase a b (x ∷ xs) h = ground (arith, not-has-erase a b xs)

pub last_or-append : (d x : ℕ) (xs : List ℕ) → last_or d (xs ++ (x ∷ [])) ≡ x
last_or-append d x [] = refl
last_or-append d x (y ∷ ys) = last_or-append y x ys

pub erase-not-has : (a : ℕ) (xs : List ℕ) → has a xs ≡ false → erase a xs ≡ xs
erase-not-has a [] h = refl
erase-not-has a (x ∷ xs) h = ground (arith, erase-not-has a xs)

pub has-last_or : (x : ℕ) (xs : List ℕ) → has (last_or x xs) (x ∷ xs) ≡ true
has-last_or x [] = ground arith
has-last_or x (y ∷ ys) = ground (arith, has-last_or y ys)

-- puts `b` behind the first `a`
abbrev pub insert_after : ℕ → ℕ → List ℕ → List ℕ
insert_after a b [] = []
insert_after a b (x ∷ xs) = if x == a then x ∷ b ∷ xs else x ∷ insert_after a b xs

pub not-has-insert_after :
    (c a b : ℕ) (xs : List ℕ) → has c xs ≡ false → c ≢ b → has c (insert_after a b xs) ≡ false
not-has-insert_after c a b [] h ne = refl
not-has-insert_after c a b (x ∷ xs) h ne = ground (arith, not-has-insert_after c a b xs)

-- An element and what is no element are different.
pub has-ne : (a b : ℕ) (xs : List ℕ) → has a xs ≡ true → has b xs ≡ false → (a == b) ≡ false
has-ne a b xs m n = elim (Bool-cases (a == b)) [
  | inl e ↦ absurd (ground (arith, ==_eq a b e))
  | inr e ↦ e
]

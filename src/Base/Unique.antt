-- ===== src/Base/Unique.antt =====
-- Lists in which no element stands twice.
use Prim.Native.Nat.{ℕ, ◌+◌}
use mathlib.Core.Path.{◌≡◌, refl}
use mathlib.Core.Logic.{inl, inr}
use mathlib.Core.Bool.{true, false, ◌||◌}
use mathlib.Core.List.{List, [], ◌∷◌, ◌++◌}
use native.Mathlib.Omega.{arith}
use qoraal.Base.Tests.{◌==◌, if◌then◌else◌, Bool-cases}
use qoraal.Base.Seq.{
  length, has, erase, insert_after, has-append, not-has-erase, not-has-insert_after,
}

abbrev pub Distinct : List ℕ → Type 0
Distinct [] = Unit
Distinct (x ∷ xs) = (has x xs ≡ false) × Distinct xs

pub has-erase :
    (b a : ℕ) (xs : List ℕ)
    → Distinct xs
    → has b (erase a xs) ≡ (if b == a then false else has b xs)
has-erase b a [] d = ground arith
has-erase b a (x ∷ xs) d = ground (arith, has-erase b a xs d.1, d.0)

pub has-insert_after :
    (c a b : ℕ) (xs : List ℕ) → has a xs ≡ true → has c (insert_after a b xs) ≡ (c == b || has c xs)
has-insert_after c a b [] m = ground arith
has-insert_after c a b (x ∷ xs) m = ground (arith, has-insert_after c a b xs)

pub Distinct-erase : (a : ℕ) (xs : List ℕ) → Distinct xs → Distinct (erase a xs)
Distinct-erase a [] d = d
Distinct-erase a (x ∷ xs) d = elim (Bool-cases (x == a)) [
  | inl e ↦ rw e d.1
  | inr e ↦ rw e (not-has-erase x a xs d.0, Distinct-erase a xs d.1)
]

pub Distinct-append_one :
    (a : ℕ) (xs : List ℕ) → Distinct xs → has a xs ≡ false → Distinct (xs ++ (a ∷ []))
Distinct-append_one a [] d n = (refl, tt)
Distinct-append_one a (x ∷ xs) d n =
    (ground (arith, has-append x xs (a ∷ []), d.0), Distinct-append_one a xs d.1 (ground arith))

pub Distinct-insert_after :
    (a b : ℕ) (xs : List ℕ) → Distinct xs → has b xs ≡ false → Distinct (insert_after a b xs)
Distinct-insert_after a b [] d n = d
Distinct-insert_after a b (x ∷ xs) d n = elim (Bool-cases (x == a)) [
  | inl e ↦ rw e (ground (arith, d.0), (ground arith, d.1))
  | inr e ↦ rw e (
    not-has-insert_after x a b xs d.0 (ground arith),
    Distinct-insert_after a b xs d.1 (ground arith),
  )
]

pub length-erase : (a : ℕ) (xs : List ℕ) → has a xs ≡ true → length (erase a xs) + 1 ≡ length xs
length-erase a [] m = ground arith
length-erase a (x ∷ xs) m = ground (arith, length-erase a xs)

pub length-insert_after :
    (a b : ℕ) (xs : List ℕ) → has a xs ≡ true → length (insert_after a b xs) ≡ length xs + 1
length-insert_after a b [] m = ground arith
length-insert_after a b (x ∷ xs) m = ground (arith, length-insert_after a b xs)
